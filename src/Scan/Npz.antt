-- ===== src/Scan/Npz.antt =====
-- audit_unlink_buckets.py, `audit`: the checks on the dataset.
use e_bpf_based_kernel_ai_se.Prelude.{
  ◌%◌, List, [], ◌∷◌, Option, none, some, Bool, false, not, ◌||◌, if◌then◌else◌, ◌==◌, any, map,
  String, same_text,
}
use e_bpf_based_kernel_ai_se.Decoder.Event.{ℤ}
use e_bpf_based_kernel_ai_se.Unlinks.Audit.{second, is_negative, natural, has_twice}

pub data Error : Type 0 where
  invalid_buckets : Error
  invalid_labels : Error
  invalid_frame : Error
  invalid_event : Error
  invalid_operation : Error
  incomplete_frame : Error
  count_mismatch : Error

-- A row of the dataset, from the arrays `bucket_ns`, `labels`, `techniques` and `sessions`.
pub record NpzRow : Type 0 where
  pub bucket_ns : ℤ
  pub label : String
  pub technique : String
  pub session : String

unfoldable pub bad_bucket : NpzRow → Bool
unfolding is_negative natural
bad_bucket r = is_negative r.bucket_ns || not (natural r.bucket_ns % second == 0)

unfoldable pub bad_labels : NpzRow → Bool
bad_labels r =
    not (same_text r.label "normal" || same_text r.label "attack")
    || (same_text r.technique "" || same_text r.session "")

-- One session in all rows.
unfoldable pub many_sessions : List NpzRow → Bool
many_sessions [] = false
many_sessions (r ∷ rs) = any (λ (q : NpzRow). not (same_text r.session q.session)) rs

unfoldable pub npz_error : List NpzRow → Option Error
unfolding bad_bucket bad_labels many_sessions has_twice natural
npz_error [] = some invalid_buckets
npz_error (r ∷ rs) =
    if any bad_bucket (r ∷ rs) || has_twice (map (λ (q : NpzRow). natural q.bucket_ns) (r ∷ rs))
    then some invalid_buckets
    else if any bad_labels (r ∷ rs) || many_sessions (r ∷ rs)
    then some invalid_labels
    else none
