-- ===== src/Dict.antt =====
-- Python's `dict` and `collections.OrderedDict`: an association list in insertion order, oldest
-- first, over keys with a decidable equality. `Distinct` says that no key occurs twice, which the
-- laws in `Dict/Laws.antt` show that every operation keeps.
pub mod Laws
pub mod Sums
pub mod Values
use e_bpf_based_kernel_ai_se.Prelude.{
  List, [], ◌∷◌, ◌++◌, Option, none, some, Bool, ◌≡◌, ite, if◌then◌else◌,
}

abbrev pub Dict {ℓ} : Type ℓ → Type ℓ → Type ℓ
Dict K V = List (K × V)

-- The items that a test keeps, in their order.
unfoldable pub keep {ℓ} : {K V : Type ℓ} → (K → V → Bool) → Dict K V → Dict K V
keep p [] = []
keep p ((k, v) ∷ d) = let rest = keep p d in if p k v then (k, v) ∷ rest else rest

-- The first item that a test accepts: `next((k for k, v in d.items() if p), None)`.
unfoldable pub find_item {ℓ} : {K V : Type ℓ} → (K → V → Bool) → Dict K V → Option (K × V)
find_item p [] = none
find_item p ((k, v) ∷ d) = if p k v then some (k, v) else find_item p d

module _ {ℓ} {K V : Type ℓ} (dec : Discrete K) where
  -- `d.get(k)`
  unfoldable pub get : K → Dict K V → Option V
  get k [] = none
  get k ((j, v) ∷ d) = ite (dec j k) (some v) (get k d)

  -- The dictionary after `d.pop(k, None)`.
  unfoldable pub pop : K → Dict K V → Dict K V
  pop k [] = []
  pop k ((j, v) ∷ d) = ite (dec j k) d ((j, v) ∷ pop k d)

  -- `d[k] = v`: a present key keeps its place, a new one goes to the end.
  unfoldable pub put : K → V → Dict K V → Dict K V
  put k v [] = (k, v) ∷ []
  put k v ((j, w) ∷ d) = ite (dec j k) ((j, v) ∷ d) ((j, w) ∷ put k v d)

  -- `d.move_to_end(k)` for a present key.
  unfoldable pub move_to_end : K → Dict K V → Dict K V
  move_to_end k d = elim (get k d) [ none ↦ d | some v ↦ pop k d ++ (k, v) ∷ [] ]

  abbrev pub Distinct : Dict K V → Type ℓ
  Distinct [] = Unit
  Distinct ((k, v) ∷ d) = (get k d ≡ none) × Distinct d
