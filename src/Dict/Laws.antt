-- ===== src/Dict/Laws.antt =====
-- What the dictionary operations do to a lookup, to the keys and to the size.
use e_bpf_based_kernel_ai_se.Prelude.{
  ◌+◌, ◌≤◌, ◌≡◌, refl, [], ◌∷◌, ◌++◌, Option, none, some, Bool, true, false, ite, if◌then◌else◌,
  length, length-append, arith, ◌≢◌, Option-cases, inl, inr,
}
use e_bpf_based_kernel_ai_se.Dict.{Dict, keep, find_item, get, pop, put, move_to_end, Distinct}

-- What a filter leaves of a lookup.
abbrev pub kept {ℓ} : {K V : Type ℓ} → (K → V → Bool) → K → Option V → Option V
kept p k none = none
kept p k (some v) = if p k v then some v else none

abbrev pub or_else {ℓ} : {A : Type ℓ} → Option A → Option A → Option A
or_else none o = o
or_else (some a) o = some a

module _ {ℓ} {K V : Type ℓ} (dec : Discrete K) where
  pub get-append :
      (k : K) (d e : Dict K V) → get dec k (d ++ e) ≡ or_else (get dec k d) (get dec k e)
  unfolding get
  get-append k [] e = refl
  get-append k ((j, v) ∷ d) e = ground (arith, get-append k d e)

  pub get-put :
      (j k : K) (v : V) (d : Dict K V)
      → get dec j (put dec k v d) ≡ ite (dec k j) (some v) (get dec j d)
  unfolding get put
  get-put j k v [] = refl
  get-put j k v ((i, w) ∷ d) = ground (arith, get-put j k v d)

  pub get-pop_ne : (j k : K) (d : Dict K V) → k ≢ j → get dec j (pop dec k d) ≡ get dec j d
  unfolding get pop
  get-pop_ne j k [] h = refl
  get-pop_ne j k ((i, w) ∷ d) h = ground (arith, get-pop_ne j k d h)

  pub get-pop_self : (k : K) (d : Dict K V) → Distinct dec d → get dec k (pop dec k d) ≡ none
  unfolding get pop
  get-pop_self k [] h = refl
  get-pop_self k ((i, w) ∷ d) h = ground (arith, get-pop_self k d h.1)

  pub get-pop :
      (j k : K) (d : Dict K V)
      → Distinct dec d
      → get dec j (pop dec k d) ≡ ite (dec k j) none (get dec j d)
  get-pop j k d h = ground (arith, get-pop_self k d h, get-pop_ne j k d)

  pub pop_absent : (k : K) (d : Dict K V) → get dec k d ≡ none → pop dec k d ≡ d
  unfolding get pop
  pop_absent k [] h = refl
  pop_absent k ((j, v) ∷ d) h = ground (arith, pop_absent k d)

  pub put_absent :
      (k : K) (v : V) (d : Dict K V) → get dec k d ≡ none → put dec k v d ≡ d ++ (k, v) ∷ []
  unfolding get put
  put_absent k v [] h = refl
  put_absent k v ((j, w) ∷ d) h = ground (arith, put_absent k v d)

  pub put-put : (k : K) (v w : V) (d : Dict K V) → put dec k v (put dec k w d) ≡ put dec k v d
  unfolding put
  put-put k v w [] = ground arith
  put-put k v w ((j, u) ∷ d) = ground (arith, put-put k v w d)

  -- A test that fails at the key found hides it, since no other item has that key.
  pub get-keep :
      (p : K → V → Bool) (k : K) (d : Dict K V)
      → Distinct dec d
      → get dec k (keep p d) ≡ kept p k (get dec k d)
  unfolding get keep
  get-keep p k [] h = refl
  get-keep p k ((j, v) ∷ d) h = ground (arith, get-keep p k d h.1, h.0)

  pub get-move_to_end :
      (j k : K) (d : Dict K V) → Distinct dec d → get dec j (move_to_end dec k d) ≡ get dec j d
  unfolding move_to_end get
  get-move_to_end j k d h = elim (Option-cases (get dec k d)) [
    | inl e ↦ rw (e, move_to_end)
    | inr (v, e) ↦
        rw (e, move_to_end)
          (ground (arith, get-append j (pop dec k d) ((k, v) ∷ []), get-pop j k d h))
  ]

  pub Distinct-append :
      (d : Dict K V) (k : K) (v : V)
      → Distinct dec d
      → get dec k d ≡ none
      → Distinct dec (d ++ (k, v) ∷ [])
  unfolding get
  Distinct-append [] k v h e = (refl, tt)
  Distinct-append ((j, w) ∷ d) k v h e =
      ground (arith, Distinct-append d k v h.1, get-append j d ((k, v) ∷ []))

  pub Distinct-pop : (k : K) (d : Dict K V) → Distinct dec d → Distinct dec (pop dec k d)
  unfolding get pop
  Distinct-pop k [] h = tt
  Distinct-pop k ((j, w) ∷ d) h = ground (arith, Distinct-pop k d h.1, get-pop j k d h.1)

  pub Distinct-put : (k : K) (v : V) (d : Dict K V) → Distinct dec d → Distinct dec (put dec k v d)
  unfolding get put
  Distinct-put k v [] h = (refl, tt)
  Distinct-put k v ((j, w) ∷ d) h = ground (arith, Distinct-put k v d h.1, get-put j k v d)

  pub Distinct-keep : (p : K → V → Bool) (d : Dict K V) → Distinct dec d → Distinct dec (keep p d)
  unfolding get keep
  Distinct-keep p [] h = tt
  Distinct-keep p ((j, w) ∷ d) h = ground (arith, Distinct-keep p d h.1, get-keep p j d h.1)

  pub Distinct-move_to_end :
      (k : K) (d : Dict K V) → Distinct dec d → Distinct dec (move_to_end dec k d)
  unfolding move_to_end
  Distinct-move_to_end k d h = elim (Option-cases (get dec k d)) [
    | inl e ↦ rw (e, move_to_end) h
    | inr (v, e) ↦
        rw (e, move_to_end)
          (Distinct-append (pop dec k d) k v (Distinct-pop k d h) (get-pop_self k d h))
  ]

  pub length-pop :
      (k : K) (d : Dict K V)
      → length (pop dec k d) + (elim (get dec k d) [ none ↦ 0 | some _ ↦ 1 ]) ≡ length d
  unfolding get pop
  length-pop k [] = omega arith
  length-pop k ((j, v) ∷ d) = ground (arith, length-pop k d)

  pub length-put :
      (k : K) (v : V) (d : Dict K V)
      → length (put dec k v d) ≡ length d + (elim (get dec k d) [ none ↦ 1 | some _ ↦ 0 ])
  unfolding get put
  length-put k v [] = omega arith
  length-put k v ((j, w) ∷ d) = ground (arith, length-put k v d)

  pub length-put_present :
      (k : K) (v w : V) (d : Dict K V) → get dec k d ≡ some w → length (put dec k v d) ≡ length d
  length-put_present k v w d e = ground (arith, length-put k v d)

  pub length-move_to_end : (k : K) (d : Dict K V) → length (move_to_end dec k d) ≡ length d
  unfolding move_to_end
  length-move_to_end k d = elim (Option-cases (get dec k d)) [
    | inl e ↦ rw (e, move_to_end)
    | inr (v, e) ↦
        rw (e, move_to_end)
          (ground (arith, length-append (pop dec k d) ((k, v) ∷ []), length-pop k d))
  ]

module _ {ℓ} {K V : Type ℓ} (p : K → V → Bool) where
  pub length-keep-le : (d : Dict K V) → length (keep p d) ≤ length d
  unfolding keep
  length-keep-le [] = omega arith
  length-keep-le ((k, v) ∷ d) = ground (arith, length-keep-le d)

  -- What `next` finds is an item of the dictionary that passes the test.
  pub find_item-get :
      (dec : Discrete K) (d : Dict K V) (k : K) (v : V)
      → Distinct dec d
      → find_item p d ≡ some (k, v)
      → (get dec k d ≡ some v) × (p k v ≡ true)
  unfolding find_item get
  find_item-get dec [] k v h e = cc
  find_item-get dec ((j, w) ∷ d) k v h e = ground (arith, find_item-get dec d k v h.1)

  pub find_item-none :
      (dec : Discrete K) (d : Dict K V) (k : K) (v : V)
      → find_item p d ≡ none
      → get dec k d ≡ some v
      → p k v ≡ false
  unfolding find_item get
  find_item-none dec [] k v e g = cc
  find_item-none dec ((j, w) ∷ d) k v e g = ground (arith, find_item-none dec d k v)

  -- Taking out an item that is there makes the dictionary smaller.
  pub length-keep-lt :
      (dec : Discrete K) (d : Dict K V) (k : K) (v : V)
      → get dec k d ≡ some v
      → p k v ≡ false
      → length (keep p d) + 1 ≤ length d
  unfolding keep get
  length-keep-lt dec [] k v g e = cc
  length-keep-lt dec ((j, w) ∷ d) k v g e =
      ground (arith, length-keep-lt dec d k v, length-keep-le d)
