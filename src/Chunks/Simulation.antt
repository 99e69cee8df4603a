-- ===== src/Chunks/Simulation.antt =====
-- Two handlers that refuse alike, on states that stay related, take the frame loop alike.
use e_bpf_based_kernel_ai_se.Prelude.{
  ℕ, zero, suc, ◌+◌, ◌≡◌, refl, List, Option, ltb, length, take, drop, Bool-cases, Option-cases,
  inl, inr,
}
use e_bpf_based_kernel_ai_se.Bytes.{u32}
use e_bpf_based_kernel_ai_se.Chunks.{
  Progress, more, stopped, Handled, handled, refused, go_on, take_frame, parse, run,
}

module _ {E S T : Type 0} (R : S → T → Type 0) where
  abbrev pub SameHandled : Handled E S → Handled E T → Type 0
  SameHandled (handled s) (handled t) = R s t
  SameHandled (refused e s) (refused f t) = (e ≡ f) × R s t
  SameHandled (handled s) (refused f t) = ⊥
  SameHandled (refused e s) (handled t) = ⊥

  abbrev pub SameProgress : Progress E S → Progress E T → Type 0
  SameProgress (more s b) (more t c) = (b ≡ c) × R s t
  SameProgress (stopped e s) (stopped f t) = (e ≡ f) × R s t
  SameProgress (more s b) (stopped f t) = ⊥
  SameProgress (stopped e s) (more t c) = ⊥

module _ {E S T : Type 0} (R : S → T → Type 0) (check : List ℕ → Option E)
    (left : ℕ → List ℕ → S → Handled E S) (right : ℕ → List ℕ → T → Handled E T)
    (step : (n : ℕ) (xs : List ℕ) (s : S) (t : T)
      → R s t
      → SameHandled R (left n xs s) (right n xs t)) where
  go_on-same :
      (h : Handled E S) (g : Handled E T) (k : S → Progress E S) (l : T → Progress E T)
      → SameHandled R h g
      → ((s : S) (t : T) → R s t → SameProgress R (k s) (l t))
      → SameProgress R (go_on h k) (go_on g l)
  go_on-same (handled s) (handled t) k l r e = e s t r
  go_on-same (refused e' s) (refused f t) k l r e = r
  go_on-same (handled s) (refused f t) k l r e = absurd r
  go_on-same (refused e' s) (handled t) k l r e = absurd r

  take_frame-same :
      (n : ℕ) (buf : List ℕ) (s : S) (t : T) (k : List ℕ → S → Progress E S)
      (l : List ℕ → T → Progress E T)
      → R s t
      → ((rest : List ℕ) (s : S) (t : T) → R s t → SameProgress R (k rest s) (l rest t))
      → SameProgress R (take_frame check left n buf s k) (take_frame check right n buf t l)
  unfolding take_frame
  take_frame-same n buf s t k l r e = elim (Bool-cases (ltb (length buf) (12 + n))) [
    | inl waits ↦ rw waits (refl, r)
    | inr whole ↦ rw whole (go_on-same _ _ _ _ (step n (drop 12 buf) s t r) (e (drop (12 + n) buf)))
  ]

  parse-same :
      (f : ℕ) (buf : List ℕ) (s : S) (t : T)
      → R s t
      → SameProgress R (parse check left f buf s) (parse check right f buf t)
  unfolding parse
  parse-same zero buf s t r = (refl, r)
  parse-same (suc f) buf s t r = elim (Bool-cases (ltb (length buf) 12)) [
    | inl short ↦ rw short (refl, r)
    | inr long ↦ elim (Option-cases (check (take 12 buf))) [
      | inr (e, c) ↦ rw (long, c) (refl, r)
      | inl c ↦
          rw (long, c)
            (take_frame-same (u32 8 buf) buf s t _ _ r
              (λ rest s' t' r'. parse-same f rest s' t' r'))
    ]
  ]

  pub run-same :
      (buf : List ℕ) (s : S) (t : T)
      → R s t
      → SameProgress R (run check left buf s) (run check right buf t)
  unfolding run
  run-same buf s t r = parse-same (length buf) buf s t r
