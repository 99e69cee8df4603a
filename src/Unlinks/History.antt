-- ===== src/Unlinks/History.antt =====
-- temporal_unlinks.py, `history_clean`: which rows have a history without forbidden attacks. The arrays
-- have the same shape, and the labels are given as whether they are attacks.
use e_bpf_based_kernel_ai_se.Prelude.{
  ℕ, suc, ◌+◌, ◌*◌, ◌<◌, ◌≡◌, refl, ap, ◌∙◌, List, [], ◌∷◌, Option, some, Bool, false, not, ◌&&◌,
  if◌then◌else◌, ◌==◌, leb, any, map, arith, get_elem?,
}
use e_bpf_based_kernel_ai_se.Decoder.Event.{ℤ}
use e_bpf_based_kernel_ai_se.Unlinks.Audit.{natural, second, bad_times, has_twice}
use e_bpf_based_kernel_ai_se.Unlinks.Windows.{Bin, sort_bins, window_sum, sum_if, After, Increasing}
use e_bpf_based_kernel_ai_se.Unlinks.Features.{window_start, rows_from, result_from}
use e_bpf_based_kernel_ai_se.Unlinks.Sorting.{
  Unique, sort_bins-sum_if, sort_bins-Increasing, has_twice-Unique,
}
use e_bpf_based_kernel_ai_se.Unlinks.Placing.{AfterPlace, Places, sorted_result-map}
use e_bpf_based_kernel_ai_se.Unlinks.Direct.{in_window, window_sum-in_window, good_times-has_twice}

pub record Sample : Type 0 where
  pub bucket_ns : ℤ
  pub is_attack : Bool
  pub is_forbidden : Bool

pub data Outcome : Type 0 where
  invalid_times : Outcome
  invalid_mask : Outcome
  clean : List (Option Bool) → Outcome

-- A row of the sorted mask: what `np.cumsum` adds up is 1 for a forbidden row.
abbrev pub mark_of : ℕ → Sample → Bin
mark_of i s = record {
  index = i;
  time = natural s.bucket_ns;
  attempts = if s.is_forbidden then 1 else 0;
  scopes = 0;
}

unfoldable pub marks_of : ℕ → List Sample → List Bin
marks_of i [] = []
marks_of i (s ∷ ss) = mark_of i s ∷ marks_of (suc i) ss

-- `t[0]`
unfoldable pub first_time : List Bin → ℕ
first_time [] = 0
first_time (x ∷ xs) = x.time

unfoldable pub is_clean : List Bin → ℕ → Bin → Bool
unfolding window_sum first_time
is_clean xs k x =
    (window_sum (λ y. y.attempts) xs k (window_start 60 x) == 0)
    && leb (first_time xs + 59 * second) x.time

unfoldable pub history_clean : List Sample → Outcome
unfolding bad_times marks_of sort_bins is_clean rows_from result_from
history_clean ss =
    let bins = marks_of 0 ss in
    let xs = sort_bins bins in
    if bad_times (map (λ (s : Sample). s.bucket_ns) ss)
    then invalid_times
    else if any (λ (s : Sample). s.is_forbidden && not s.is_attack) ss
    then invalid_mask
    else clean (result_from bins (rows_from (is_clean xs) 0 xs))

-- No forbidden row from 59 seconds before the row up to it, and a row at least 59 seconds before it.
unfoldable pub has_clean_history : List Bin → Bin → Bool
unfolding in_window sum_if
has_clean_history bins x =
    (in_window (λ y. y.attempts) bins x 60 == 0)
    && not (sum_if (λ y. leb (y.time + 59 * second) x.time) (λ y. 1) bins == 0)

late_nothing :
    (c t u : ℕ) (xs : List Bin)
    → After u xs
    → t < u + c
    → sum_if (λ y. leb (y.time + c) t) (λ y. 1) xs ≡ 0
unfolding sum_if
late_nothing c t u [] h l = refl
late_nothing c t u (x ∷ xs) h l = ground (arith, late_nothing c t x.time xs h.1)

first_time-sum_if :
    (c t k : ℕ) (x : Bin) (xs : List Bin)
    → Increasing xs
    → get_elem? xs k ≡ some x
    → leb (first_time xs + c) t ≡ not (sum_if (λ y. leb (y.time + c) t) (λ y. 1) xs == 0)
unfolding first_time sum_if
first_time-sum_if c t k x [] h e = cc
first_time-sum_if c t k x (y ∷ ys) h e = ground (arith, late_nothing c t y.time ys h)

is_clean-has_clean_history :
    (bins : List Bin) (k : ℕ) (x : Bin)
    → Unique bins
    → get_elem? (sort_bins bins) k ≡ some x
    → is_clean (sort_bins bins) k x ≡ has_clean_history bins x
unfolding is_clean has_clean_history
is_clean-has_clean_history bins k x u e =
    let p = window_sum-in_window (λ y. y.attempts) bins k x 60 u e in
    let q =
      first_time-sum_if (59 * second) x.time k x (sort_bins bins) (sort_bins-Increasing bins u) e in
    let r = sort_bins-sum_if (λ y. leb (y.time + 59 * second) x.time) (λ y. 1) bins in
    λ i. (p i == 0) && (q ∙ ap (λ n. not (n == 0)) r) i

marks_of-AfterPlace : (i j : ℕ) (ss : List Sample) → j < i → AfterPlace j (marks_of i ss)
unfolding marks_of
marks_of-AfterPlace i j [] h = tt
marks_of-AfterPlace i j (s ∷ ss) h = (h, marks_of-AfterPlace (suc i) i ss (omega arith))

marks_of-Places : (i : ℕ) (ss : List Sample) → Places (marks_of i ss)
unfolding marks_of
marks_of-Places i [] = tt
marks_of-Places i (s ∷ ss) = marks_of-AfterPlace (suc i) i ss (omega arith)

times-marks :
    (i : ℕ) (ss : List Sample)
    → map (λ (y : Bin). y.time) (marks_of i ss) ≡ map natural (map (λ (s : Sample). s.bucket_ns) ss)
unfolding marks_of
times-marks i [] = refl
times-marks i (s ∷ ss) = ap (◌∷◌ (natural s.bucket_ns)) (times-marks (suc i) ss)

-- For times that are accepted and a mask that selects attacks only, every row is marked clean, at its
-- place, exactly if no forbidden row stands from 59 seconds before it up to itself and some row stands at
-- least 59 seconds before it.
pub history_clean-direct :
    (ss : List Sample)
    → bad_times (map (λ (s : Sample). s.bucket_ns) ss) ≡ false
    → any (λ (s : Sample). s.is_forbidden && not s.is_attack) ss ≡ false
    → history_clean ss
      ≡ clean (map (λ x. some (has_clean_history (marks_of 0 ss) x)) (marks_of 0 ss))
unfolding history_clean
history_clean-direct ss t m =
    let bins = marks_of 0 ss in
    let u = has_twice-Unique bins (
      ap has_twice (times-marks 0 ss)
      ∙ good_times-has_twice (map (λ (s : Sample). s.bucket_ns) ss) t) in
    rw (t, m, history_clean)
      (ap clean (
        sorted_result-map (is_clean (sort_bins bins)) (has_clean_history bins) bins
          (marks_of-Places 0 ss) (λ k x. is_clean-has_clean_history bins k x u)))
