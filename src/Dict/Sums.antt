-- ===== src/Dict/Sums.antt =====
-- Sums over the values of a dictionary.
use e_bpf_based_kernel_ai_se.Prelude.{ℕ, ◌+◌, ◌≡◌, [], ◌∷◌, Option, none, some, arith}
use e_bpf_based_kernel_ai_se.Dict.{Dict, get, put, pop}

-- The value of a key, or 0.
abbrev pub at : {V : Type 0} → (V → ℕ) → Option V → ℕ
at f none = 0
at f (some v) = f v

module _ {K V : Type 0} (f : V → ℕ) where
  unfoldable pub total : Dict K V → ℕ
  total [] = 0
  total ((k, v) ∷ d) = f v + total d

  module _ (dec : Discrete K) where
    pub total-put :
        (k : K) (v : V) (d : Dict K V) → total (put dec k v d) + at f (get dec k d) ≡ total d + f v
    unfolding total put get
    total-put k v [] = omega arith
    total-put k v ((j, w) ∷ d) = ground (arith, total-put k v d)

    pub total-pop : (k : K) (d : Dict K V) → total (pop dec k d) + at f (get dec k d) ≡ total d
    unfolding total pop get
    total-pop k [] = omega arith
    total-pop k ((j, w) ∷ d) = ground (arith, total-pop k d)
