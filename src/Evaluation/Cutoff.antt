-- ===== src/Evaluation/Cutoff.antt =====
-- evaluate_event_time.py: the threshold is the smallest one with few enough false positives.
use e_bpf_based_kernel_ai_se.Prelude.{
  ℕ, zero, suc, ◌+◌, ◌-◌, ◌≤◌, ◌<◌, ◌≡◌, refl, ap, ◌∙◌, List, [], ◌∷◌, some, if◌then◌else◌, leb,
  ltb, All, length, get_elem?, arith, Bool-cases, inl, inr, subst,
}
use e_bpf_based_kernel_ai_se.Dataset.Sorting.{
  insert, sorted, sorted-length, Ascending, sorted-Ascending,
}
use e_bpf_based_kernel_ai_se.Evaluation.Scores.{success, count_nonzero, normal_cutoff, next_float}

-- How many scores count as an attack.
abbrev pub alarms : ℕ → List ℕ → ℕ
alarms c = count_nonzero (leb c)

abbrev itself : ℕ → ℕ
itself x = x

insert-alarms : (c x : ℕ) (xs : List ℕ) → alarms c (insert ltb x xs) ≡ alarms c (x ∷ xs)
unfolding insert count_nonzero
insert-alarms c x [] = refl
insert-alarms c x (y ∷ ys) = ground (arith, insert-alarms c x ys)

sorted-alarms : (c : ℕ) (xs : List ℕ) → alarms c (sorted ltb xs) ≡ alarms c xs
unfolding sorted count_nonzero
sorted-alarms c [] = refl
sorted-alarms c (x ∷ xs) = ground (arith, insert-alarms c x (sorted ltb xs), sorted-alarms c xs)

alarms-length : (c : ℕ) (xs : List ℕ) → alarms c xs ≤ length xs
unfolding count_nonzero
alarms-length c [] = omega arith
alarms-length c (x ∷ xs) = ground (arith, alarms-length c xs)

alarms-All : (c : ℕ) (xs : List ℕ) → All (λ y. c ≤ y) xs → alarms c xs ≡ length xs
unfolding count_nonzero
alarms-All c [] h = refl
alarms-All c (x ∷ xs) h = ground (arith, alarms-All c xs h.1, h.0)

alarms-le : (c d : ℕ) (xs : List ℕ) → c ≤ d → alarms d xs ≤ alarms c xs
unfolding count_nonzero
alarms-le c d [] l = omega arith
alarms-le c d (x ∷ xs) l = ground (arith, alarms-le c d xs l)

All-get : (c v : ℕ) (xs : List ℕ) (i : ℕ) → All (λ y. c ≤ y) xs → get_elem? xs i ≡ some v → c ≤ v
All-get c v [] i h e = cc
All-get c v (x ∷ xs) zero h e = ground (arith, h.0)
All-get c v (x ∷ xs) (suc i) h e = All-get c v xs i h.1 e

-- In an ascending list, no more scores exceed the one at `i` than stand behind it.
few_above :
    (v : ℕ) (xs : List ℕ) (i : ℕ)
    → Ascending ltb itself xs
    → get_elem? xs i ≡ some v
    → alarms (suc v) xs + suc i ≤ length xs
unfolding count_nonzero
few_above v [] i a e = cc
few_above v (x ∷ xs) zero a e = ground (arith, alarms-length (suc v) xs)
few_above v (x ∷ xs) (suc i) a e = ground (arith, few_above v xs i a.1 e, All-get x v xs i a.0 e)

same_value : (x v : ℕ) → some x ≡ some v → x ≡ v
same_value x v e = cc

-- It and all behind it count as attacks at its own value.
many_from :
    (v : ℕ) (xs : List ℕ) (i : ℕ)
    → Ascending ltb itself xs
    → get_elem? xs i ≡ some v
    → length xs ≤ alarms v xs + i
unfolding count_nonzero
many_from v [] i a e = cc
many_from v (x ∷ xs) zero a e =
    subst (λ w. length (x ∷ xs) ≤ alarms w (x ∷ xs) + 0) (same_value x v e)
      (ground (arith, alarms-All x xs a.0))
many_from v (x ∷ xs) (suc i) a e = ground (arith, many_from v xs i a.1 e)

get_elem?-some : (xs : List ℕ) (i : ℕ) → i < length xs → (v : ℕ) × (get_elem? xs i ≡ some v)
get_elem?-some [] i l = absurd (omega arith)
get_elem?-some (x ∷ xs) zero l = (x, refl)
get_elem?-some (x ∷ xs) (suc i) l = get_elem?-some xs i (omega arith)

sorted_scores-Ascending : (xs : List ℕ) → Ascending ltb itself (sorted ltb xs)
sorted_scores-Ascending xs =
    sorted-Ascending ltb itself (λ x y e. ground arith) (λ x y e. ground arith) xs

-- The smallest cutoff with at most `k` alarms.
abbrev pub IsSmallest : ℕ → List ℕ → ℕ → Type 0
IsSmallest k scores c = (alarms c scores ≤ k) × ((d : ℕ) → alarms d scores ≤ k → c ≤ d)

next-IsSmallest :
    (k v : ℕ) (xs : List ℕ)
    → k < length xs
    → get_elem? (sorted ltb xs) (length xs - k - 1) ≡ some v
    → IsSmallest k xs (suc v)
next-IsSmallest k v xs l e =
    let ys = sorted ltb xs in
    let i = length xs - k - 1 in
    let a = sorted_scores-Ascending xs in
    let n = sorted-length ltb xs in
    (
      omega (arith, few_above v ys i a e, sorted-alarms (suc v) xs, n),
      λ d h. elim (Bool-cases (ltb v d)) [
        | inl q ↦ ground arith
        | inr q ↦ absurd (
            omega (
              arith,
              many_from v ys i a e,
              sorted-alarms d xs,
              n,
              alarms-le d v ys (ground arith),
              h,
            ))
      ],
    )

if_less : {A : Type 0} (n m : ℕ) (a b : A) → m < n → (if leb n m then a else b) ≡ b
if_less n m a b l = ground arith

cutoff_value :
    (allowed : ℕ → ℕ) (x v : ℕ) (xs : List ℕ)
    → allowed (length (x ∷ xs)) < length (x ∷ xs)
    → get_elem? (sorted ltb (x ∷ xs)) (length (x ∷ xs) - allowed (length (x ∷ xs)) - 1) ≡ some v
    → normal_cutoff allowed (x ∷ xs) ≡ success (suc v)
unfolding normal_cutoff
cutoff_value allowed x v xs l e = if_less _ _ _ _ l ∙ ap next_float e

-- For scores of which fewer are allowed as false positives than there are, `normal_cutoff` returns
-- a threshold: at most the allowed number of scores reach it, and no smaller one has this property.
pub normal_cutoff-IsSmallest :
    (allowed : ℕ → ℕ) (scores : List ℕ)
    → allowed (length scores) < length scores
    → (c : ℕ) × ((normal_cutoff allowed scores ≡ success c)
        × IsSmallest (allowed (length scores)) scores c)
normal_cutoff-IsSmallest allowed [] l = absurd (omega arith)
normal_cutoff-IsSmallest allowed (x ∷ xs) l =
    let n = length (x ∷ xs) in
    let g =
      get_elem?-some (sorted ltb (x ∷ xs)) (n - allowed n - 1)
        (omega (arith, sorted-length ltb (x ∷ xs), l)) in
    (suc g.0, (cutoff_value allowed x g.0 xs l g.1, next-IsSmallest (allowed n) g.0 (x ∷ xs) l g.1))
