-- ===== src/Chunks/Keeps.antt =====
-- What every handled event keeps, the frame loop keeps.
use e_bpf_based_kernel_ai_se.Prelude.{ℕ, ◌≡◌, refl, subst, List, [], ◌∷◌, ◌++◌, Option}
use e_bpf_based_kernel_ai_se.Chunks.{
  Progress, more, stopped, Handled, handled, refused, and_then, run, feed,
}
use e_bpf_based_kernel_ai_se.Chunks.Laws.{feed-nil, feed-cons}
use e_bpf_based_kernel_ai_se.Chunks.Simulation.{SameHandled, SameProgress, run-same}

-- A state beside itself, with the property.
abbrev Twice : {S : Type 0} → (S → Type 0) → S → S → Type 0
Twice P s t = (s ≡ t) × P s

module _ {E S : Type 0} (P : S → Type 0) where
  abbrev pub AfterEvent : Handled E S → Type 0
  AfterEvent (handled s) = P s
  AfterEvent (refused e s) = P s

  abbrev pub AfterChunk : Progress E S → Type 0
  AfterChunk (more s rest) = P s
  AfterChunk (stopped e s) = P s

  twice : (h : Handled E S) → AfterEvent h → SameHandled (Twice P) h h
  twice (handled s) p = (refl, p)
  twice (refused e s) p = (refl, (refl, p))

  once : (p q : Progress E S) → SameProgress (Twice P) p q → AfterChunk p
  once (more s b) (more t c) h = h.1.1
  once (stopped e s) (stopped f t) h = h.1.1
  once (more s b) (stopped f t) h = absurd h
  once (stopped e s) (more t c) h = absurd h

  module _ (check : List ℕ → Option E) (handle : ℕ → List ℕ → S → Handled E S)
      (step : (n : ℕ) (xs : List ℕ) (s : S) → P s → AfterEvent (handle n xs s)) where
    pub run-keeps : (buf : List ℕ) (s : S) → P s → AfterChunk (run check handle buf s)
    run-keeps buf s p = once (run check handle buf s) (run check handle buf s) (
        run-same (Twice P) check handle handle
          (λ n xs s t h.
            subst (λ t. SameHandled (Twice P) (handle n xs s) (handle n xs t)) h.0
              (twice (handle n xs s) (step n xs s h.1)))
          buf s s (refl, p))

    and_then-keeps :
        (p : Progress E S) (k : S → List ℕ → Progress E S)
        → AfterChunk p
        → ((s : S) (rest : List ℕ) → P s → AfterChunk (k s rest))
        → AfterChunk (and_then p k)
    and_then-keeps (more s rest) k a h = h s rest a
    and_then-keeps (stopped e s) k a h = a

    pub feed-keeps :
        (chunks : List (List ℕ)) (buf : List ℕ) (s : S)
        → P s
        → AfterChunk (feed check handle chunks buf s)
    feed-keeps [] buf s p = rw (feed-nil check handle buf s) p
    feed-keeps (chunk ∷ chunks) buf s p = rw (feed-cons check handle chunk chunks buf s) (
        and_then-keeps (run check handle (buf ++ chunk) s) _ (run-keeps (buf ++ chunk) s p)
          (λ s' rest p'. feed-keeps chunks rest s' p'))
