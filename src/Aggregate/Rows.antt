-- ===== src/Aggregate/Rows.antt =====
-- aggregate.py: the rows of a file and its records.
use e_bpf_based_kernel_ai_se.Prelude.{
  ℕ, suc, ◌+◌, ◌≡◌, refl, ap, ◌∙◌, List, [], ◌∷◌, ◌++◌, length, arith, Option-cases, inl, inr,
  length-append,
}
use e_bpf_based_kernel_ai_se.Dict.{get, put}
use e_bpf_based_kernel_ai_se.Dict.Sums.{at, total, total-put}
use e_bpf_based_kernel_ai_se.Extract.State.{Rec}
use e_bpf_based_kernel_ai_se.Aggregate.Perm.{FileSystem, Lookup}
use e_bpf_based_kernel_ai_se.Aggregate.Features.{Value, log1p, row_of, bucket_features}
use e_bpf_based_kernel_ai_se.Aggregate.Buckets.{
  BucketKey, bucket_discrete, Buckets, bucket_key, bucket_at, group, insert_bucket, sorted_buckets,
  Row, Table, note_bucket, note_buckets, aggregate,
}

-- How many records a row says that its bucket has: `n_windows_log` is its first value.
unfoldable pub windows : List Value → ℕ
windows (log1p n ∷ vs) = n
windows vs = 0

unfoldable pub all_windows : List Row → ℕ
unfolding windows
all_windows [] = 0
all_windows (r ∷ rs) = windows r.features + all_windows rs

abbrev records_in : Buckets → ℕ
records_in = total length

bucket_at-length :
    (k : BucketKey) (d : Buckets) → length (bucket_at k d) ≡ at length (get bucket_discrete k d)
unfolding bucket_at
bucket_at-length k d = elim (Option-cases (get bucket_discrete k d)) [
  | inl e ↦ ground (arith, e)
  | inr (rs, e) ↦ ground (arith, e)
]

group-records_in :
    (bn : ℕ) (rs : List Rec) (d : Buckets) → records_in (group bn rs d) ≡ records_in d + length rs
unfolding group
group-records_in bn [] d = omega arith
group-records_in bn (r ∷ rs) d =
    let k = bucket_key bn r in
    let rs' = bucket_at k d ++ r ∷ [] in
    omega (
      arith,
      group-records_in bn rs (put bucket_discrete k rs' d),
      total-put length bucket_discrete k rs' d,
      length-append (bucket_at k d) (r ∷ []),
      bucket_at-length k d,
    )

insert_bucket-records_in :
    (k : BucketKey) (rs : List Rec) (d : Buckets)
    → records_in (insert_bucket k rs d) ≡ length rs + records_in d
unfolding insert_bucket total
insert_bucket-records_in k rs [] = refl
insert_bucket-records_in k rs ((j, qs) ∷ d) = ground (arith, insert_bucket-records_in k rs d)

sorted_buckets-records_in : (d : Buckets) → records_in (sorted_buckets d) ≡ records_in d
unfolding sorted_buckets total
sorted_buckets-records_in [] = refl
sorted_buckets-records_in ((k, rs) ∷ d) =
    omega (arith, insert_bucket-records_in k rs (sorted_buckets d), sorted_buckets-records_in d)

all_windows-append :
    (rs : List Row) (r : Row) → all_windows (rs ++ r ∷ []) ≡ all_windows rs + windows r.features
unfolding all_windows
all_windows-append [] r = omega arith
all_windows-append (x ∷ rs) r = omega (arith, all_windows-append rs r)

bucket_features-windows :
    (fs : FileSystem) (first : Rec) (others : List Rec) (l : Lookup)
    → windows (bucket_features fs first others l).1 ≡ suc (length others)
unfolding bucket_features row_of windows
bucket_features-windows fs first others l = refl

note_bucket-windows :
    (fs : FileSystem) (k : BucketKey) (rs : List Rec) (t : Table)
    → all_windows (note_bucket fs k rs t).rows ≡ all_windows t.rows + length rs
unfolding note_bucket
note_bucket-windows fs k [] t = omega arith
note_bucket-windows fs k (first ∷ others) t =
    all_windows-append t.rows _
    ∙ ap (◌+◌ (all_windows t.rows)) (bucket_features-windows fs first others t.perm)

note_buckets-windows :
    (fs : FileSystem) (d : Buckets) (t : Table)
    → all_windows (note_buckets fs d t).rows ≡ all_windows t.rows + records_in d
unfolding note_buckets total
note_buckets-windows fs [] t = omega arith
note_buckets-windows fs ((k, rs) ∷ d) t =
    omega (arith, note_buckets-windows fs d (note_bucket fs k rs t), note_bucket-windows fs k rs t)

-- The counts of records in all rows add up to the records of the file: grouping and sorting lose none
-- and put none into two buckets.
pub aggregate-windows :
    (fs : FileSystem) (bn : ℕ) (recs : List Rec)
    → all_windows (aggregate fs bn recs).rows ≡ length recs
unfolding aggregate all_windows total
aggregate-windows fs bn recs = omega (
  arith,
  note_buckets-windows fs (sorted_buckets (group bn recs []))
      (record { rows = []; mixed = 0; perm = record { cache = []; stats = 0 } }),
  sorted_buckets-records_in (group bn recs []),
  group-records_in bn recs [],
)
