-- ===== src/Unlinks/Placing.antt =====
-- temporal_unlinks.py: what is computed on the sorted rows, put back into the order of the audit.
use e_bpf_based_kernel_ai_se.Prelude.{
  ℕ, suc, ◌+◌, ◌≤◌, ◌<◌, ◌≡◌, refl, ap, ◌∙◌, List, [], ◌∷◌, none, some, map, arith, get_elem?,
  ℕ_discrete,
}
use e_bpf_based_kernel_ai_se.Dict.{Dict, get, Distinct}
use e_bpf_based_kernel_ai_se.Unlinks.Windows.{Bin, sort_bins}
use e_bpf_based_kernel_ai_se.Unlinks.Features.{rows_from, result_from}
use e_bpf_based_kernel_ai_se.Unlinks.Sorting.{placed, sort_bins-placed}

-- The places increase.
abbrev pub AfterPlace : ℕ → List Bin → Type 0
AfterPlace i [] = Unit
AfterPlace i (x ∷ xs) = (i < x.index) × AfterPlace x.index xs

abbrev pub Places : List Bin → Type 0
Places [] = Unit
Places (x ∷ xs) = AfterPlace x.index xs

module _ {V : Type 0} (f : ℕ → Bin → V) (g : Bin → V) where
  rows_from-placed :
      (sorted : List Bin) (k : ℕ) (later : List Bin)
      → ((k : ℕ) (x : Bin) → get_elem? sorted k ≡ some x → f k x ≡ g x)
      → ((j : ℕ) → get_elem? sorted (k + j) ≡ get_elem? later j)
      → rows_from f k later ≡ placed g later
  unfolding rows_from
  rows_from-placed sorted k [] s h = refl
  rows_from-placed sorted k (x ∷ later) s h =
      let p = s k x (ap (get_elem? sorted) (omega arith) ∙ h 0) in
      let q =
        rows_from-placed sorted (suc k) later s
          (λ j. ap (get_elem? sorted) (omega arith) ∙ h (suc j)) in
      λ i. (x.index, p i) ∷ q i

  after-absent :
      (i j : ℕ) (bins : List Bin)
      → AfterPlace i bins
      → j ≤ i
      → get ℕ_discrete j (placed g bins) ≡ none
  unfolding get
  after-absent i j [] h l = refl
  after-absent i j (x ∷ bins) h l = ground (arith, after-absent x.index j bins h.1)

  after-Distinct :
      (i : ℕ) (bins : List Bin) → AfterPlace i bins → Distinct ℕ_discrete (placed g bins)
  after-Distinct i [] h = tt
  after-Distinct i (x ∷ bins) h =
      (after-absent x.index x.index bins h.1 (omega arith), after-Distinct x.index bins h.1)

  Places-Distinct : (bins : List Bin) → Places bins → Distinct ℕ_discrete (placed g bins)
  Places-Distinct [] h = tt
  Places-Distinct (x ∷ bins) h =
      (after-absent x.index x.index bins h (omega arith), after-Distinct x.index bins h)

  result_from-map :
      (i : ℕ) (bins : List Bin) (d : Dict ℕ V)
      → AfterPlace i bins
      → ((j : ℕ) → i < j → get ℕ_discrete j d ≡ get ℕ_discrete j (placed g bins))
      → result_from bins d ≡ map (λ x. some (g x)) bins
  unfolding result_from get
  result_from-map i [] d a h = refl
  result_from-map i (x ∷ bins) d a h =
      let p : get ℕ_discrete x.index d ≡ some (g x) = ground (arith, h x.index, a.0) in
      let q = result_from-map x.index bins d a.1 (λ j l. ground (arith, h j, a.0)) in λ t. p t ∷ q t

  result_from-Places :
      (bins : List Bin) (d : Dict ℕ V)
      → Places bins
      → ((j : ℕ) → get ℕ_discrete j d ≡ get ℕ_discrete j (placed g bins))
      → result_from bins d ≡ map (λ x. some (g x)) bins
  unfolding result_from get
  result_from-Places [] d a h = refl
  result_from-Places (x ∷ bins) d a h =
      let p : get ℕ_discrete x.index d ≡ some (g x) = ground (arith, h x.index) in
      let q = result_from-map x.index bins d a (λ j l. ground (arith, h j)) in λ t. p t ∷ q t

  -- If `f` gives on the sorted rows what `g` gives on a row alone, the result is `g` on the rows of the
  -- audit, in their order.
  pub sorted_result-map :
      (bins : List Bin)
      → Places bins
      → ((k : ℕ) (x : Bin) → get_elem? (sort_bins bins) k ≡ some x → f k x ≡ g x)
      → result_from bins (rows_from f 0 (sort_bins bins)) ≡ map (λ x. some (g x)) bins
  sorted_result-map bins a s =
      let p =
        rows_from-placed (sort_bins bins) 0 (sort_bins bins) s
          (λ j. ap (get_elem? (sort_bins bins)) (omega arith)) in
      result_from-Places bins (rows_from f 0 (sort_bins bins)) a
        (λ j. ap (get ℕ_discrete j) p ∙ sort_bins-placed g j bins (Places-Distinct bins a))
