-- ===== src/Aggregate/Grouping.antt =====
-- aggregate.py: what the grouping into buckets keeps.
use e_bpf_based_kernel_ai_se.Prelude.{ℕ, List, [], ◌∷◌, ite}
use e_bpf_based_kernel_ai_se.Extract.State.{Rec}
use e_bpf_based_kernel_ai_se.Aggregate.Buckets.{BucketKey, bucket_discrete, Buckets, bucket_key}

-- The records of a bucket, in their order.
unfoldable pub records_at : ℕ → BucketKey → List Rec → List Rec
unfolding bucket_key
records_at bn k [] = []
records_at bn k (r ∷ rs) =
    ite (bucket_discrete (bucket_key bn r) k) (r ∷ records_at bn k rs) (records_at bn k rs)
