-- ===== src/Dict/Values.antt =====
-- A property of every value of a dictionary.
use e_bpf_based_kernel_ai_se.Prelude.{◌≡◌, subst, [], ◌∷◌, some, arith}
use e_bpf_based_kernel_ai_se.Dict.{Dict, get, put, pop}

module _ {K V : Type 0} (P : V → Type 0) where
  abbrev pub Values : Dict K V → Type 0
  Values [] = Unit
  Values ((k, v) ∷ d) = P v × Values d

  module _ (dec : Discrete K) where
    pub Values-put : (k : K) (v : V) (d : Dict K V) → Values d → P v → Values (put dec k v d)
    unfolding put
    Values-put k v [] h p = (p, tt)
    Values-put k v ((j, w) ∷ d) h p = ground (arith, Values-put k v d h.1 p)

    pub Values-pop : (k : K) (d : Dict K V) → Values d → Values (pop dec k d)
    unfolding pop
    Values-pop k [] h = tt
    Values-pop k ((j, w) ∷ d) h = ground (arith, Values-pop k d h.1)

    pub Values-get : (k : K) (v : V) (d : Dict K V) → Values d → get dec k d ≡ some v → P v
    unfolding get
    Values-get k v [] h e = cc
    Values-get k v ((j, w) ∷ d) h e = elim (dec j k) [
      | yes p ↦ subst P (ground arith) h.0
      | no p ↦ Values-get k v d h.1 (ground arith)
    ]
