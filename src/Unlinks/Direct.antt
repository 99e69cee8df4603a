-- ===== src/Unlinks/Direct.antt =====
-- temporal_unlinks.py: the prefix sums against a direct computation of every window.
use e_bpf_based_kernel_ai_se.Prelude.{
  ℕ, suc, ◌<◌, ◌≡◌, refl, ap, ◌∙◌, List, [], ◌∷◌, ◌++◌, none, some, Bool, false, leb, ◌&&◌, map,
  arith, get_elem?, any, ◌||◌,
}
use e_bpf_based_kernel_ai_se.Decoder.Event.{ℤ}
use e_bpf_based_kernel_ai_se.Aggregate.Features.{Value, log1p, ratio}
use e_bpf_based_kernel_ai_se.Unlinks.Audit.{
  Entry, Audit, natural, bad_times, bad_time, has_twice, audit_error,
}
use e_bpf_based_kernel_ai_se.Unlinks.Windows.{Bin, sort_bins, window_sum, sum_if, window_sum-sum_if}
use e_bpf_based_kernel_ai_se.Unlinks.Features.{
  bins_of, active, window_start, window_columns, columns, result, temporal_features,
}
use e_bpf_based_kernel_ai_se.Unlinks.Sorting.{
  Unique, sort_bins-sum_if, sort_bins-Increasing, has_twice-Unique,
}
use e_bpf_based_kernel_ai_se.Unlinks.Placing.{AfterPlace, Places, sorted_result-map}

-- The sum over the rows from the start of a window up to the row `x`, both included.
unfoldable pub in_window : (Bin → ℕ) → List Bin → Bin → ℕ → ℕ
unfolding sum_if
in_window f bins x seconds =
    sum_if (λ y. leb (window_start seconds x) y.time && leb y.time x.time) f bins

unfoldable pub direct_window : List Bin → Bin → ℕ → List Value
unfolding in_window
direct_window bins x seconds =
    log1p (in_window (λ y. y.attempts) bins x seconds)
    ∷ ratio (in_window active bins x seconds) seconds
    ∷ []

-- The row of a bucket, from all rows in any order.
unfoldable pub direct : List Bin → Bin → List Value
unfolding direct_window
direct bins x =
    log1p x.attempts
    ∷ log1p x.scopes
    ∷ (direct_window bins x 5 ++ direct_window bins x 30 ++ direct_window bins x 60)

pub window_sum-in_window :
    (f : Bin → ℕ) (bins : List Bin) (k : ℕ) (x : Bin) (seconds : ℕ)
    → Unique bins
    → get_elem? (sort_bins bins) k ≡ some x
    → window_sum f (sort_bins bins) k (window_start seconds x) ≡ in_window f bins x seconds
unfolding in_window
window_sum-in_window f bins k x seconds u e =
    window_sum-sum_if f (sort_bins bins) k (window_start seconds x) x (sort_bins-Increasing bins u)
      e (omega arith)
    ∙ sort_bins-sum_if (λ y. leb (window_start seconds x) y.time && leb y.time x.time) f bins

window_columns-direct :
    (bins : List Bin) (k : ℕ) (x : Bin) (seconds : ℕ)
    → Unique bins
    → get_elem? (sort_bins bins) k ≡ some x
    → window_columns (sort_bins bins) k x seconds ≡ direct_window bins x seconds
unfolding window_columns direct_window
window_columns-direct bins k x seconds u e =
    let p = window_sum-in_window (λ y. y.attempts) bins k x seconds u e in
    let q = window_sum-in_window active bins k x seconds u e in
    λ i. log1p (p i) ∷ ratio (q i) seconds ∷ []

columns-direct :
    (bins : List Bin) (k : ℕ) (x : Bin)
    → Unique bins
    → get_elem? (sort_bins bins) k ≡ some x
    → columns (sort_bins bins) k x ≡ direct bins x
unfolding columns direct
columns-direct bins k x u e =
    let p = window_columns-direct bins k x 5 u e in
    let q = window_columns-direct bins k x 30 u e in
    let r = window_columns-direct bins k x 60 u e in
    λ i. log1p x.attempts ∷ log1p x.scopes ∷ (p i ++ q i ++ r i)

bins_of-AfterPlace : (i j : ℕ) (es : List Entry) → j < i → AfterPlace j (bins_of i es)
unfolding bins_of
bins_of-AfterPlace i j [] h = tt
bins_of-AfterPlace i j (e ∷ es) h = (h, bins_of-AfterPlace (suc i) i es (omega arith))

bins_of-Places : (i : ℕ) (es : List Entry) → Places (bins_of i es)
unfolding bins_of
bins_of-Places i [] = tt
bins_of-Places i (e ∷ es) = bins_of-AfterPlace (suc i) i es (omega arith)

times-bins :
    (i : ℕ) (es : List Entry)
    → map (λ (y : Bin). y.time) (bins_of i es) ≡ map natural (map (λ (e : Entry). e.bucket_ns) es)
unfolding bins_of
times-bins i [] = refl
times-bins i (e ∷ es) = ap (◌∷◌ (natural e.bucket_ns)) (times-bins (suc i) es)

no_error-times :
    (a : Audit)
    → audit_error a ≡ none
    → bad_times (map (λ (e : Entry). e.bucket_ns) a.buckets) ≡ false
unfolding audit_error
no_error-times a e = ground arith

second_false : (a b : Bool) → a || b ≡ false → b ≡ false
second_false a b e = ground arith

pub good_times-has_twice : (ts : List ℤ) → bad_times ts ≡ false → has_twice (map natural ts) ≡ false
unfolding bad_times
good_times-has_twice [] e = cc
good_times-has_twice (t ∷ ts) e =
    second_false (any bad_time (t ∷ ts)) (has_twice (map natural (t ∷ ts))) e

-- Where the audit is accepted, every bucket gets, at its place in the audit, the row that is computed
-- straight from all buckets in any order: its own counts, and for 5, 30 and 60 seconds the attempts
-- and the active buckets from the start of the window up to the bucket itself. No later bucket counts.
pub temporal_features-direct :
    (a : Audit)
    → audit_error a ≡ none
    → temporal_features a
      ≡ result (map (λ x. some (direct (bins_of 0 a.buckets) x)) (bins_of 0 a.buckets))
unfolding temporal_features
temporal_features-direct a e =
    let bins = bins_of 0 a.buckets in
    let u : Unique bins = has_twice-Unique bins (
      ap has_twice (times-bins 0 a.buckets)
      ∙ good_times-has_twice (map (λ (e : Entry). e.bucket_ns) a.buckets) (no_error-times a e)) in
    rw (e, temporal_features)
      (ap result (
        sorted_result-map (columns (sort_bins bins)) (direct bins) bins (bins_of-Places 0 a.buckets)
          (λ k x. columns-direct bins k x u)))
