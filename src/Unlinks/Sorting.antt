-- ===== src/Unlinks/Sorting.antt =====
-- temporal_unlinks.py: what the sorting of the rows keeps.
use e_bpf_based_kernel_ai_se.Prelude.{
  ℕ, ◌+◌, ◌<◌, ◌≡◌, refl, ap, ◌∙◌, List, [], ◌∷◌, Option, none, some, Bool, false, if◌then◌else◌,
  ◌==◌, map, arith, any, ite, ℕ_discrete,
}
use e_bpf_based_kernel_ai_se.Dict.{Dict, get, Distinct}
use e_bpf_based_kernel_ai_se.Unlinks.Audit.{has_twice}
use e_bpf_based_kernel_ai_se.Unlinks.Windows.{Bin, insert_bin, sort_bins, sum_if, After, Increasing}

insert_bin-sum_if :
    (p : Bin → Bool) (f : Bin → ℕ) (x : Bin) (ys : List Bin)
    → sum_if p f (insert_bin x ys) ≡ (if p x then f x else 0) + sum_if p f ys
unfolding insert_bin sum_if
insert_bin-sum_if p f x [] = refl
insert_bin-sum_if p f x (y ∷ ys) = ground (arith, insert_bin-sum_if p f x ys)

pub sort_bins-sum_if :
    (p : Bin → Bool) (f : Bin → ℕ) (xs : List Bin) → sum_if p f (sort_bins xs) ≡ sum_if p f xs
unfolding sort_bins sum_if
sort_bins-sum_if p f [] = refl
sort_bins-sum_if p f (x ∷ xs) =
    omega (arith, insert_bin-sum_if p f x (sort_bins xs), sort_bins-sum_if p f xs)

-- How many rows have a time.
abbrev at_time : ℕ → List Bin → ℕ
at_time t = sum_if (λ (y : Bin). y.time == t) (λ (y : Bin). 1)

-- No time occurs twice.
abbrev pub Unique : List Bin → Type 0
Unique [] = Unit
Unique (x ∷ xs) = (at_time x.time xs ≡ 0) × Unique xs

insert-After :
    (t : ℕ) (x : Bin) (ys : List Bin)
    → t < x.time
    → After t ys
    → at_time x.time ys ≡ 0
    → After t (insert_bin x ys)
unfolding insert_bin sum_if
insert-After t x [] l h n = (l, tt)
insert-After t x (y ∷ ys) l h n = ground (arith, insert-After y.time x ys)

insert-Increasing :
    (x : Bin) (ys : List Bin) → Increasing ys → at_time x.time ys ≡ 0 → Increasing (insert_bin x ys)
unfolding insert_bin sum_if
insert-Increasing x [] h n = tt
insert-Increasing x (y ∷ ys) h n = ground (arith, insert-After y.time x ys)

pub sort_bins-Increasing : (xs : List Bin) → Unique xs → Increasing (sort_bins xs)
unfolding sort_bins
sort_bins-Increasing [] u = tt
sort_bins-Increasing (x ∷ xs) u =
    insert-Increasing x (sort_bins xs) (sort_bins-Increasing xs u.1)
      (sort_bins-sum_if (λ (y : Bin). y.time == x.time) (λ (y : Bin). 1) xs ∙ u.0)

absent-at_time :
    (t : ℕ) (xs : List Bin)
    → any (λ u. u == t) (map (λ (y : Bin). y.time) xs) ≡ false
    → at_time t xs ≡ 0
unfolding sum_if
absent-at_time t [] e = refl
absent-at_time t (y ∷ ys) e = ground (arith, absent-at_time t ys)

pub has_twice-Unique :
    (xs : List Bin) → has_twice (map (λ (y : Bin). y.time) xs) ≡ false → Unique xs
unfolding has_twice
has_twice-Unique [] e = tt
has_twice-Unique (x ∷ xs) e =
    (absent-at_time x.time xs (ground arith), has_twice-Unique xs (ground arith))

module _ {V : Type 0} (g : Bin → V) where
  -- The rows under their places.
  abbrev pub placed : List Bin → Dict ℕ V
  placed [] = []
  placed (x ∷ xs) = (x.index, g x) ∷ placed xs

  insert_bin-placed :
      (i : ℕ) (x : Bin) (ys : List Bin)
      → get ℕ_discrete x.index (placed ys) ≡ none
      → get ℕ_discrete i (placed (insert_bin x ys)) ≡ get ℕ_discrete i (placed (x ∷ ys))
  unfolding insert_bin get
  insert_bin-placed i x [] n = refl
  insert_bin-placed i x (y ∷ ys) n = ground (arith, insert_bin-placed i x ys)

  pub sort_bins-placed :
      (i : ℕ) (xs : List Bin)
      → Distinct ℕ_discrete (placed xs)
      → get ℕ_discrete i (placed (sort_bins xs)) ≡ get ℕ_discrete i (placed xs)
  unfolding sort_bins get
  sort_bins-placed i [] d = refl
  sort_bins-placed i (x ∷ xs) d =
      insert_bin-placed i x (sort_bins xs) (sort_bins-placed x.index xs d.1 ∙ d.0)
      ∙ ap (λ (r : Option V). ite (ℕ_discrete x.index i) (some (g x)) r) (sort_bins-placed i xs d.1)
