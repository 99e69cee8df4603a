-- ===== src/Aggregate/Buckets.antt =====
-- aggregate.py, `main`: the records of a file in their time buckets, and one labelled row for each.
use Prim.Native.Char.{code}
use e_bpf_based_kernel_ai_se.Prelude.{
  ℕ, suc, ◌/◌, List, [], ◌∷◌, ◌++◌, Option, none, some, Bool, true, false, not, ◌||◌, ◌&&◌,
  if◌then◌else◌, ◌==◌, ltb, ite, String, string_discrete, any, ℕ_discrete,
}
use e_bpf_based_kernel_ai_se.Dict.{Dict, get, put}
use e_bpf_based_kernel_ai_se.Extract.State.{Rec}
use e_bpf_based_kernel_ai_se.Aggregate.Perm.{FileSystem, Lookup}
use e_bpf_based_kernel_ai_se.Aggregate.Features.{Value, bucket_features}

-- `(session, start // BN)`
pub record BucketKey : Type 0 where
  pub session : String
  pub number : ℕ

unfoldable pub bucket_discrete : Discrete BucketKey
bucket_discrete = hlevel (string_discrete, ℕ_discrete)

abbrev pub Buckets : Type 0
Buckets = Dict BucketKey (List Rec)

unfoldable pub bucket_key : ℕ → Rec → BucketKey
bucket_key bn r = record { session = r.session; number = r.key.start / bn }

-- `buckets[k]` of the `defaultdict`.
unfoldable pub bucket_at : BucketKey → Buckets → List Rec
bucket_at k d = elim (get bucket_discrete k d) [ none ↦ [] | some rs ↦ rs ]

unfoldable pub group : ℕ → List Rec → Buckets → Buckets
unfolding bucket_at bucket_key
group bn [] d = d
group bn (r ∷ rs) d =
    let k = bucket_key bn r in group bn rs (put bucket_discrete k (bucket_at k d ++ r ∷ []) d)

-- The order of texts by their code points: before, or not.
unfoldable pub text_lt : String → String → Bool
text_lt String.[] String.[] = false
text_lt String.[] (String.◌∷◌ d t) = true
text_lt (String.◌∷◌ c s) String.[] = false
text_lt (String.◌∷◌ c s) (String.◌∷◌ d t) =
    ltb (code c) (code d) || ((code c == code d) && text_lt s t)

unfoldable pub key_lt : BucketKey → BucketKey → Bool
unfolding text_lt
key_lt j k =
    text_lt j.session k.session
    || ite (string_discrete j.session k.session) (ltb j.number k.number) false

-- `sorted(buckets.items())`; the keys differ, so the records are not compared.
unfoldable pub insert_bucket : BucketKey → List Rec → Buckets → Buckets
unfolding key_lt
insert_bucket k rs [] = (k, rs) ∷ []
insert_bucket k rs ((j, qs) ∷ d) =
    let rest = insert_bucket k rs d in if key_lt j k then (j, qs) ∷ rest else (k, rs) ∷ (j, qs) ∷ d

unfoldable pub sorted_buckets : Buckets → Buckets
unfolding insert_bucket
sorted_buckets [] = []
sorted_buckets ((k, rs) ∷ d) = insert_bucket k rs (sorted_buckets d)

abbrev pub has_label : String → Rec → Bool
has_label s r = ite (string_discrete r.stratum.label s) true false

-- `len(labs) > 1`, for a bucket that starts with `first`.
unfoldable pub is_mixed : Rec → List Rec → Bool
is_mixed first others = any (λ r. not (has_label first.stratum.label r)) others

unfoldable pub bucket_label : List Rec → String
bucket_label recs = if any (has_label "attack") recs then "attack" else "normal"

unfoldable pub least_text : Option String → String → String
unfolding text_lt
least_text none s = s
least_text (some t) s = if text_lt t s then t else s

-- `sorted(tset)[0] if tset else ""` on the techniques of the records with the label.
unfoldable pub least_technique : String → Option String → List Rec → Option String
unfolding least_text
least_technique lab best [] = best
least_technique lab best (r ∷ rs) =
    least_technique lab
      (if has_label lab r then some (least_text best r.stratum.technique) else best) rs

unfoldable pub technique_of : String → List Rec → String
unfolding least_technique
technique_of lab recs = elim (least_technique lab none recs) [ none ↦ "" | some t ↦ t ]

pub record Row : Type 0 where
  pub features : List Value
  pub label : String
  pub technique : String
  pub session : String

pub record Table : Type 0 where
  pub rows : List Row
  pub mixed : ℕ
  pub perm : Lookup

-- A bucket that `group` made is not empty.
unfoldable pub note_bucket : FileSystem → BucketKey → List Rec → Table → Table
unfolding is_mixed bucket_label technique_of bucket_features
note_bucket fs k [] t = t
note_bucket fs k (first ∷ others) t =
    let (perm', x) = bucket_features fs first others t.perm in
    let lab = bucket_label (first ∷ others) in
    record {
      rows =
          t.rows
          ++ record {
            features = x;
            label = lab;
            technique = technique_of lab (first ∷ others);
            session = k.session;
          }
            ∷ [];
      mixed = if is_mixed first others then suc t.mixed else t.mixed;
      perm = perm';
    }

unfoldable pub note_buckets : FileSystem → Buckets → Table → Table
unfolding note_bucket
note_buckets fs [] t = t
note_buckets fs ((k, recs) ∷ d) t = note_buckets fs d (note_bucket fs k recs t)

unfoldable pub aggregate : FileSystem → ℕ → List Rec → Table
unfolding note_buckets group sorted_buckets
aggregate fs bn recs =
    note_buckets fs (sorted_buckets (group bn recs []))
      (record { rows = []; mixed = 0; perm = record { cache = []; stats = 0 } })
