-- ===== src/Dataset/Rows.antt =====
-- build_event_time_dataset.py, `build`: one bucket, its span, its verdict and its row.
use e_bpf_based_kernel_ai_se.Prelude.{
  ℕ, suc, ◌+◌, ◌/◌, ◌%◌, ◌^◌, List, [], ◌∷◌, ◌++◌, Option, none, some, Bool, not, ◌&&◌, ◌||◌,
  if◌then◌else◌, ◌==◌, ltb, all, length, String, same_text,
}
use Prim.Native.String.{◌++◌ as text_append}
use e_bpf_based_kernel_ai_se.Unlinks.Audit.{second}
use e_bpf_based_kernel_ai_se.Extract.Label.{without_prefix}
use e_bpf_based_kernel_ai_se.Dataset.Timeline.{Interval}
use e_bpf_based_kernel_ai_se.Dataset.Log.{Field, absent, event_bounds}

pub data Error : Type 0 where
  invalid_features : Error
  invalid_bounds : Error

-- `np.isfinite` on the bits of a 32-bit float: the exponent is not all ones.
unfoldable pub is_finite : ℕ → Bool
is_finite bits = not (bits / 2 ^ 23 % 256 == 255)

-- The row, if it has 31 finite features.
unfoldable pub features_of : Option (List ℕ) → Option (List ℕ)
unfolding is_finite
features_of none = none
features_of (some xs) = if (length xs == 31) && all is_finite xs then some xs else none

abbrev pub one_more : Option (ℕ × ℕ) → Option (ℕ × ℕ)
one_more none = none
one_more (some (f, l)) = some (f, suc l)

-- `span_start` and `span_end`: the events if their bounds are given, else the bucket.
unfoldable pub span_of : ℕ → Field → Field → Option (ℕ × ℕ)
unfolding event_bounds
span_of start absent absent = some (start, start + second)
span_of start first last = one_more (event_bounds start first last)

unfoldable pub filter {ℓ} : {A : Type ℓ} → (A → Bool) → List A → List A
filter p [] = []
filter p (x ∷ xs) = let rest = filter p xs in if p x then x ∷ rest else rest

abbrev pub overlaps : ℕ → ℕ → Interval → Bool
overlaps from to i = ltb i.start to && ltb from i.end

pub data Verdict : Type 0 where
  kept : Interval → Verdict
  skipped_unlabeled : Verdict
  skipped_mixed : Verdict
  skipped_boundary : Verdict
  skipped_unknown : Verdict

unfoldable pub judge : ℕ → ℕ → List Interval → Verdict
judge from to [] = skipped_unlabeled
judge from to (i ∷ []) =
    if ltb from i.start || ltb i.end to
    then skipped_boundary
    else if not
        (same_text i.cls "normal" || (same_text i.cls "attack" || same_text i.cls "precursor"))
    then skipped_unknown
    else kept i
judge from to (i ∷ j ∷ is) = skipped_mixed

-- A row of the dataset.
pub record Row : Type 0 where
  pub features : List ℕ
  pub bucket_ns : ℕ
  pub label : String
  pub technique : String
  pub session : String
  pub unit : String

unfoldable pub row_of : String → ℕ → List ℕ → Interval → Row
unfolding without_prefix
row_of session start features i =
    let technique = without_prefix i.unit in
    record {
      features = features;
      bucket_ns = start;
      label = if same_text i.cls "attack" then "attack" else "normal";
      technique =
          if same_text i.cls "precursor" then text_append "precursor:" technique else technique;
      session = session;
      unit = i.unit;
    }

-- The rows that are kept, in the order of time, and the counts.
pub record Built : Type 0 where
  pub rows : List Row
  pub normal : ℕ
  pub attack : ℕ
  pub precursor : ℕ
  pub duplicate : ℕ
  pub unlabeled : ℕ
  pub mixed : ℕ
  pub boundary : ℕ
  pub unknown : ℕ

abbrev pub nothing : Built
nothing = record {
  rows = [];
  normal = 0;
  attack = 0;
  precursor = 0;
  duplicate = 0;
  unlabeled = 0;
  mixed = 0;
  boundary = 0;
  unknown = 0;
}

-- `counts[cls] += 1` for a kept row.
unfoldable pub count_class : String → Built → Built
count_class cls b =
    if same_text cls "attack"
    then record b { attack = suc b.attack }
    else if same_text cls "precursor"
    then record b { precursor = suc b.precursor }
    else record b { normal = suc b.normal }

unfoldable pub note_verdict : String → ℕ → List ℕ → Verdict → Built → Built
unfolding row_of count_class
note_verdict session start features (kept i) b =
    count_class i.cls (record b { rows = b.rows ++ row_of session start features i ∷ [] })
note_verdict session start features skipped_unlabeled b = record b { unlabeled = suc b.unlabeled }
note_verdict session start features skipped_mixed b = record b { mixed = suc b.mixed }
note_verdict session start features skipped_boundary b = record b { boundary = suc b.boundary }
note_verdict session start features skipped_unknown b = record b { unknown = suc b.unknown }
