-- ===== src/Unlinks/Windows.antt =====
-- temporal_unlinks.py: trailing windows by prefix sums over the rows in the order of time.
use e_bpf_based_kernel_ai_se.Prelude.{
  ℕ, zero, suc, ◌+◌, ◌-◌, ◌≤◌, ◌<◌, ◌≡◌, refl, ap, subst, List, [], ◌∷◌, some, Bool, ◌&&◌,
  if◌then◌else◌, ltb, leb, map, length, get_or, get_elem?, arith,
}

-- A row with its place in the audit.
pub record Bin : Type 0 where
  pub index : ℕ
  pub time : ℕ
  pub attempts : ℕ
  pub scopes : ℕ

-- `np.argsort(values, kind="stable")`, applied to the rows.
unfoldable pub insert_bin : Bin → List Bin → List Bin
insert_bin x [] = x ∷ []
insert_bin x (y ∷ ys) =
    let rest = insert_bin x ys in if leb x.time y.time then x ∷ y ∷ ys else y ∷ rest

unfoldable pub sort_bins : List Bin → List Bin
unfolding insert_bin
sort_bins [] = []
sort_bins (x ∷ xs) = insert_bin x (sort_bins xs)

-- `np.r_[0, np.cumsum(values)]`, from `acc` on.
unfoldable pub cumsum : ℕ → List ℕ → List ℕ
cumsum acc [] = acc ∷ []
cumsum acc (n ∷ ns) = acc ∷ cumsum (acc + n) ns

-- `np.searchsorted(t, v, side="left")` on sorted times.
unfoldable pub searchsorted : ℕ → List Bin → ℕ
searchsorted v [] = 0
searchsorted v (x ∷ xs) = let rest = searchsorted v xs in if ltb x.time v then suc rest else 0

-- `sums[end] - sums[begin]` for the k-th row and a window that starts at `lo`.
unfoldable pub window_sum : (Bin → ℕ) → List Bin → ℕ → ℕ → ℕ
unfolding cumsum searchsorted
window_sum f xs k lo =
    let sums = cumsum 0 (map f xs) in get_or sums (suc k) 0 - get_or sums (searchsorted lo xs) 0

-- The sum over the rows that a test accepts.
unfoldable pub sum_if : (Bin → Bool) → (Bin → ℕ) → List Bin → ℕ
sum_if p f [] = 0
sum_if p f (x ∷ xs) = (if p x then f x else 0) + sum_if p f xs

-- The times increase.
abbrev pub After : ℕ → List Bin → Type 0
After t [] = Unit
After t (x ∷ xs) = (t < x.time) × After x.time xs

abbrev pub Increasing : List Bin → Type 0
Increasing [] = Unit
Increasing (x ∷ xs) = After x.time xs

unfoldable sum_first : (Bin → ℕ) → ℕ → List Bin → ℕ
sum_first f zero xs = 0
sum_first f (suc k) [] = 0
sum_first f (suc k) (x ∷ xs) = f x + sum_first f k xs

cumsum-sum_first :
    (f : Bin → ℕ) (acc k : ℕ) (xs : List Bin)
    → k ≤ length xs
    → get_or (cumsum acc (map f xs)) k 0 ≡ acc + sum_first f k xs
unfolding cumsum sum_first
cumsum-sum_first f acc zero [] h = omega arith
cumsum-sum_first f acc zero (x ∷ xs) h = omega arith
cumsum-sum_first f acc (suc k) [] h = absurd (omega arith)
cumsum-sum_first f acc (suc k) (x ∷ xs) h =
    omega (arith, cumsum-sum_first f (acc + f x) k xs (omega arith))

before_nothing :
    (f : Bin → ℕ) (v t : ℕ) (xs : List Bin)
    → After t xs
    → v ≤ t
    → sum_if (λ x. ltb x.time v) f xs ≡ 0
unfolding sum_if
before_nothing f v t [] h l = refl
before_nothing f v t (x ∷ xs) h l = ground (arith, before_nothing f v x.time xs h.1)

After-Increasing : (t : ℕ) (xs : List Bin) → After t xs → Increasing xs
After-Increasing t [] h = tt
After-Increasing t (x ∷ xs) h = h.1

searchsorted-sum_if :
    (f : Bin → ℕ) (v : ℕ) (xs : List Bin)
    → Increasing xs
    → sum_first f (searchsorted v xs) xs ≡ sum_if (λ x. ltb x.time v) f xs
unfolding sum_first sum_if searchsorted
searchsorted-sum_if f v [] h = refl
searchsorted-sum_if f v (x ∷ xs) h = ground (
  arith,
  searchsorted-sum_if f v xs (After-Increasing x.time xs h),
  before_nothing f v x.time xs h,
)

searchsorted_below : (v : ℕ) (xs : List Bin) → searchsorted v xs ≤ length xs
unfolding searchsorted
searchsorted_below v [] = omega arith
searchsorted_below v (x ∷ xs) = ground (arith, searchsorted_below v xs)

until_nothing :
    (f : Bin → ℕ) (v t : ℕ) (xs : List Bin)
    → After t xs
    → v ≤ t
    → sum_if (λ x. leb x.time v) f xs ≡ 0
unfolding sum_if
until_nothing f v t [] h l = refl
until_nothing f v t (x ∷ xs) h l = ground (arith, until_nothing f v x.time xs h.1)

place_later :
    (t k : ℕ) (x : Bin) (xs : List Bin) → After t xs → get_elem? xs k ≡ some x → t < x.time
place_later t k x [] h e = cc
place_later t zero x (y ∷ ys) h e = omega (arith, h.0, ap (λ (z : Bin). z.time) (the_same y x e))
  where
    the_same : (y x : Bin) → some y ≡ some x → y ≡ x
    the_same y x e = cc
place_later t (suc k) x (y ∷ ys) h e = omega (arith, h.0, place_later y.time k x ys h.1 e)

-- The rows up to a place are those that are not later.
place-sum_if :
    (f : Bin → ℕ) (k : ℕ) (x : Bin) (xs : List Bin)
    → Increasing xs
    → get_elem? xs k ≡ some x
    → sum_first f (suc k) xs ≡ sum_if (λ y. leb y.time x.time) f xs
unfolding sum_first sum_if
place-sum_if f k x [] h e = cc
place-sum_if f zero x (y ∷ ys) h e =
    let p : y ≡ x = cc in
    subst (λ (z : Bin). sum_first f 1 (y ∷ ys) ≡ sum_if (λ w. leb w.time z.time) f (y ∷ ys)) p
      (ground (arith, until_nothing f y.time y.time ys h (omega arith)))
place-sum_if f (suc k) x (y ∷ ys) h e =
    ground
      (arith, place-sum_if f k x ys (After-Increasing y.time ys h) e, place_later y.time k x ys h e)

place_below : (k : ℕ) (x : Bin) (xs : List Bin) → get_elem? xs k ≡ some x → k < length xs
place_below k x [] e = cc
place_below zero x (y ∷ ys) e = omega arith
place_below (suc k) x (y ∷ ys) e = omega (arith, place_below k x ys e)

-- What is not before the window, and not after it, is in it.
sum_if-window :
    (f : Bin → ℕ) (lo t : ℕ) (xs : List Bin)
    → lo ≤ t
    → sum_if (λ y. leb y.time t) f xs
      ≡ sum_if (λ y. ltb y.time lo) f xs + sum_if (λ y. leb lo y.time && leb y.time t) f xs
unfolding sum_if
sum_if-window f lo t [] h = refl
sum_if-window f lo t (y ∷ ys) h = ground (arith, sum_if-window f lo t ys h)

pub window_sum-sum_if :
    (f : Bin → ℕ) (xs : List Bin) (k lo : ℕ) (x : Bin)
    → Increasing xs
    → get_elem? xs k ≡ some x
    → lo ≤ x.time
    → window_sum f xs k lo ≡ sum_if (λ y. leb lo y.time && leb y.time x.time) f xs
unfolding window_sum
window_sum-sum_if f xs k lo x h e l = omega (
  arith,
  cumsum-sum_first f 0 (suc k) xs (omega (arith, place_below k x xs e)),
  cumsum-sum_first f 0 (searchsorted lo xs) xs (searchsorted_below lo xs),
  searchsorted-sum_if f lo xs h,
  place-sum_if f k x xs h e,
  sum_if-window f lo x.time xs l,
)
