-- ===== src/Unlinks/Features.antt =====
-- temporal_unlinks.py, `temporal_features`: the columns, computed on the sorted rows and put back into the
-- order of the audit.
use e_bpf_based_kernel_ai_se.Prelude.{
  ℕ, suc, ◌-◌, ◌*◌, List, [], ◌∷◌, ◌++◌, Option, none, some, if◌then◌else◌, ltb, ℕ_discrete,
}
use e_bpf_based_kernel_ai_se.Dict.{Dict, get}
use e_bpf_based_kernel_ai_se.Aggregate.Features.{Value, log1p, ratio}
use e_bpf_based_kernel_ai_se.Unlinks.Audit.{Entry, Audit, Error, natural, second, audit_error}
use e_bpf_based_kernel_ai_se.Unlinks.Windows.{Bin, sort_bins, window_sum}

-- The i-th row of the audit.
abbrev pub bin_of : ℕ → Entry → Bin
bin_of i e = record {
  index = i;
  time = natural e.bucket_ns;
  attempts = natural e.unlink_attempts;
  scopes = natural e.unique_directory_scopes;
}

unfoldable pub bins_of : ℕ → List Entry → List Bin
bins_of i [] = []
bins_of i (e ∷ es) = bin_of i e ∷ bins_of (suc i) es

-- `counts > 0`
abbrev pub active : Bin → ℕ
active x = if ltb 0 x.attempts then 1 else 0

-- `t - (seconds - 1) * SECOND`; where it is negative, 0 selects the same rows.
abbrev pub window_start : ℕ → Bin → ℕ
window_start seconds x = x.time - (seconds - 1) * second

unfoldable pub window_columns : List Bin → ℕ → Bin → ℕ → List Value
unfolding window_sum
window_columns xs k x seconds =
    log1p (window_sum (λ y. y.attempts) xs k (window_start seconds x))
    ∷ ratio (window_sum active xs k (window_start seconds x)) seconds
    ∷ []

unfoldable pub columns : List Bin → ℕ → Bin → List Value
unfolding window_columns
columns xs k x =
    log1p x.attempts
    ∷ log1p x.scopes
    ∷ (window_columns xs k x 5 ++ window_columns xs k x 30 ++ window_columns xs k x 60)

-- What is computed for the rows from the k-th on, under their places in the audit.
unfoldable pub rows_from : {V : Type 0} → (ℕ → Bin → V) → ℕ → List Bin → Dict ℕ V
rows_from f k [] = []
rows_from f k (x ∷ later) = (x.index, f k x) ∷ rows_from f (suc k) later

-- `result[order] = ...`, read in the order of the audit. A place that is not written has no value.
unfoldable pub result_from : {V : Type 0} → List Bin → Dict ℕ V → List (Option V)
result_from [] d = []
result_from (x ∷ bins) d = get ℕ_discrete x.index d ∷ result_from bins d

pub data Outcome : Type 0 where
  failed : Error → Outcome
  result : List (Option (List Value)) → Outcome

unfoldable pub temporal_features : Audit → Outcome
unfolding audit_error bins_of sort_bins columns rows_from result_from
temporal_features a = elim (audit_error a) [
  | some e ↦ failed e
  | none ↦
      let bins = bins_of 0 a.buckets in
      let xs = sort_bins bins in result (result_from bins (rows_from (columns xs) 0 xs))
]
