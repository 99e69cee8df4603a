-- ===== src/Dataset/Sorting.antt =====
-- build_event_time_dataset.py: `sorted`, as a sort by insertion.
use e_bpf_based_kernel_ai_se.Prelude.{
  ℕ, suc, String, same_text, ◌≤◌, ◌≡◌, refl, ap, ◌∙◌, length, List, [], ◌∷◌, Bool, true, false,
  if◌then◌else◌, All, arith, Bool-cases, inl, inr,
}
use e_bpf_based_kernel_ai_se.Aggregate.Buckets.{text_lt}

module _ {A : Type 0} (before : A → A → Bool) where
  unfoldable pub insert : A → List A → List A
  insert x [] = x ∷ []
  insert x (y ∷ ys) = let rest = insert x ys in if before y x then y ∷ rest else x ∷ y ∷ ys

  unfoldable pub sorted : List A → List A
  unfolding insert
  sorted [] = []
  sorted (x ∷ xs) = insert x (sorted xs)

  insert-All_lem : (P : A → Type 0) (x : A) (ys : List A) → P x → All P ys → All P (insert x ys)
  unfolding insert
  insert-All_lem P x [] p h = (p, tt)
  insert-All_lem P x (y ∷ ys) p h = elim (Bool-cases (before y x)) [
    | inl e ↦ rw e (h.0, insert-All_lem P x ys p h.1)
    | inr e ↦ rw e (p, h)
  ]

  pub sorted-All : (P : A → Type 0) (xs : List A) → All P xs → All P (sorted xs)
  unfolding sorted
  sorted-All P [] h = tt
  sorted-All P (x ∷ xs) h = insert-All_lem P x (sorted xs) h.0 (sorted-All P xs h.1)

  insert-length : (x : A) (ys : List A) → length (insert x ys) ≡ suc (length ys)
  unfolding insert
  insert-length x [] = refl
  insert-length x (y ∷ ys) = ground (arith, insert-length x ys)

  pub sorted-length : (xs : List A) → length (sorted xs) ≡ length xs
  unfolding sorted
  sorted-length [] = refl
  sorted-length (x ∷ xs) = insert-length x (sorted xs) ∙ ap suc (sorted-length xs)

  module _ (key : A → ℕ) where
    abbrev pub Ascending : List A → Type 0
    Ascending [] = Unit
    Ascending (x ∷ xs) = All (λ y. key x ≤ key y) xs × Ascending xs

    insert-All :
        (k : ℕ) (x : A) (ys : List A)
        → k ≤ key x
        → All (λ y. k ≤ key y) ys
        → All (λ y. k ≤ key y) (insert x ys)
    unfolding insert
    insert-All k x [] l h = (l, tt)
    insert-All k x (y ∷ ys) l h = ground (arith, insert-All k x ys l h.1)

    All-le : (k l : ℕ) (ys : List A) → k ≤ l → All (λ y. l ≤ key y) ys → All (λ y. k ≤ key y) ys
    All-le k l [] q h = tt
    All-le k l (y ∷ ys) q h = (omega (arith, h.0), All-le k l ys q h.1)

    module _ (yes_le : (x y : A) → before x y ≡ true → key x ≤ key y)
        (no_le : (x y : A) → before x y ≡ false → key y ≤ key x) where
      insert-Ascending : (x : A) (ys : List A) → Ascending ys → Ascending (insert x ys)
      unfolding insert
      insert-Ascending x [] h = (tt, tt)
      insert-Ascending x (y ∷ ys) h = elim (Bool-cases (before y x)) [
        | inl e ↦ rw e (insert-All (key y) x ys (yes_le y x e) h.0, insert-Ascending x ys h.1)
        | inr e ↦ rw e ((no_le y x e, All-le (key x) (key y) ys (no_le y x e) h.0), h)
      ]

      pub sorted-Ascending : (xs : List A) → Ascending (sorted xs)
      unfolding sorted
      sorted-Ascending [] = tt
      sorted-Ascending (x ∷ xs) = insert-Ascending x (sorted xs) (sorted-Ascending xs)

-- A set of texts, as the sorted list of its elements.
unfoldable pub add_name : String → List String → List String
unfolding text_lt
add_name u [] = u ∷ []
add_name u (v ∷ vs) =
    let rest = add_name u vs in
    if same_text u v then v ∷ vs else if text_lt u v then u ∷ v ∷ vs else v ∷ rest
