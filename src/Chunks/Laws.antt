-- ===== src/Chunks/Laws.antt =====
-- How a buffer is cut into chunks does not show in what the frame loop does.
use mathlib.Core.List.{append_assoc, append-nil}
use e_bpf_based_kernel_ai_se.Prelude.{
  ℕ, zero, suc, ◌+◌, ◌*◌, ◌≤◌, ◌<◌, ◌≡◌, refl, ap, sym, ◌∙◌, List, [], ◌∷◌, ◌++◌, Option, none,
  some, ltb, length, take, drop, length-drop, length-append, arith, Bool-cases, Option-cases, inl,
  inr, take-append_le, drop-append_le,
}
use e_bpf_based_kernel_ai_se.Bytes.{little, u32}
use e_bpf_based_kernel_ai_se.Chunks.{
  Progress, more, stopped, Handled, handled, refused, and_then, go_on, take_frame, parse, run, feed,
  joined,
}

little-append : (n : ℕ) (xs ys : List ℕ) → n ≤ length xs → little n (xs ++ ys) ≡ little n xs
unfolding little
little-append zero xs ys h = refl
little-append (suc n) [] ys h = absurd (omega arith)
little-append (suc n) (x ∷ xs) ys h = ap (λ m. x + 256 * m) (little-append n xs ys (omega arith))

u32-append : (k : ℕ) (xs ys : List ℕ) → k + 4 ≤ length xs → u32 k (xs ++ ys) ≡ u32 k xs
unfolding u32
u32-append k xs ys h =
    ap (little 4) (drop-append_le k xs ys (omega arith))
    ∙ little-append 4 (drop k xs) ys (omega (arith, length-drop k xs))

module _ {E S : Type 0} (check : List ℕ → Option E) (handle : ℕ → List ℕ → S → Handled E S) where
  -- The handler sees the payload alone.
  abbrev pub IsLocal : Type 0
  IsLocal = (n : ℕ) (xs ys : List ℕ) (s : S) → n ≤ length xs → handle n (xs ++ ys) s ≡ handle n xs s

  go_on_congr :
      (h : Handled E S) (k l : S → Progress E S) → ((s : S) → k s ≡ l s) → go_on h k ≡ go_on h l
  go_on_congr (handled s) k l e = e s
  go_on_congr (refused e' s) k l e = refl

  go_on-and_then :
      (h : Handled E S) (k : S → Progress E S) (c : S → List ℕ → Progress E S)
      → and_then (go_on h k) c ≡ go_on h (λ s. and_then (k s) c)
  go_on-and_then (handled s) k c = refl
  go_on-and_then (refused e s) k c = refl

  parse_short :
      (f : ℕ) (buf : List ℕ) (s : S) → length buf < 12 → parse check handle f buf s ≡ more s buf
  unfolding parse
  parse_short zero buf s h = refl
  parse_short (suc f) buf s h = ground arith

  -- One round of the loop, by the outcome of its tests.
  module _ (f : ℕ) (buf : List ℕ) (s : S) where
    parse_bad :
        (e : E)
        → 12 ≤ length buf
        → check (take 12 buf) ≡ some e
        → parse check handle (suc f) buf s ≡ stopped e s
    unfolding parse
    parse_bad e h c = ground arith

    parse_waits :
        12 ≤ length buf
        → check (take 12 buf) ≡ none
        → length buf < 12 + u32 8 buf
        → parse check handle (suc f) buf s ≡ more s buf
    unfolding parse take_frame
    parse_waits h c l = ground arith

    parse_takes :
        12 ≤ length buf
        → check (take 12 buf) ≡ none
        → 12 + u32 8 buf ≤ length buf
        → parse check handle (suc f) buf s
          ≡ go_on
              (handle (u32 8 buf) (drop 12 buf) s)
              (parse check handle f (drop (12 + u32 8 buf) buf))
    unfolding parse take_frame
    parse_takes h c l = ground arith

  -- More fuel than bytes changes nothing.
  parse-fuel :
      (f g : ℕ) (buf : List ℕ) (s : S)
      → length buf ≤ f
      → length buf ≤ g
      → parse check handle f buf s ≡ parse check handle g buf s
  parse-fuel zero g buf s hf hg =
      parse_short zero buf s (omega arith) ∙ sym (parse_short g buf s (omega arith))
  parse-fuel (suc f) zero buf s hf hg =
      parse_short (suc f) buf s (omega arith) ∙ sym (parse_short zero buf s (omega arith))
  parse-fuel (suc f) (suc g) buf s hf hg = elim (Bool-cases (ltb (length buf) 12)) [
    | inl short ↦
        parse_short (suc f) buf s (ground arith) ∙ sym (parse_short (suc g) buf s (ground arith))
    | inr long ↦ elim (Option-cases (check (take 12 buf))) [
      | inr (e, c) ↦
          parse_bad f buf s e (ground arith) c ∙ sym (parse_bad g buf s e (ground arith) c)
      | inl c ↦ elim (Bool-cases (ltb (length buf) (12 + u32 8 buf))) [
        | inl waits ↦
            parse_waits f buf s (ground arith) c (ground arith)
            ∙ sym (parse_waits g buf s (ground arith) c (ground arith))
        | inr whole ↦
            let rest = drop (12 + u32 8 buf) buf in
            let less = length-drop (12 + u32 8 buf) buf in
            parse_takes f buf s (ground arith) c (ground arith)
            ∙ go_on_congr _ _ _
                (λ s'. parse-fuel f g rest s' (ground (arith, less)) (ground (arith, less)))
            ∙ sym (parse_takes g buf s (ground arith) c (ground arith))
      ]
    ]
  ]

  run_fuel :
      (f : ℕ) (buf : List ℕ) (s : S)
      → length buf ≤ f
      → run check handle buf s ≡ parse check handle f buf s
  unfolding run
  run_fuel f buf s h = parse-fuel (length buf) f buf s (omega arith) h

  -- A buffer that another chunk is put behind: what was complete is handled, then the rest.
  module _ (local : IsLocal) (chunk : List ℕ) where
    abbrev later : S → List ℕ → Progress E S
    later s rest = run check handle (rest ++ chunk) s

    -- The step that takes a frame, where the rest is known to go on alike.
    take-append :
        (f : ℕ) (buf : List ℕ) (s : S)
        → 12 ≤ length buf
        → check (take 12 buf) ≡ none
        → 12 + u32 8 buf ≤ length buf
        → ((s' : S)
            → run check handle (drop (12 + u32 8 buf) buf ++ chunk) s'
              ≡ and_then (parse check handle f (drop (12 + u32 8 buf) buf) s') later)
        → run check handle (buf ++ chunk) s ≡ and_then (parse check handle (suc f) buf s) later
    take-append f buf s l c w ih =
        let n = u32 8 buf in
        let n' = u32-append 8 buf chunk (omega arith) in
        let grown = length-append buf chunk in
        let g = length (buf ++ chunk) in
        let c' : check (take 12 (buf ++ chunk)) ≡ none =
          ap check (take-append_le 12 buf chunk l) ∙ c in
        let rest' : drop (12 + u32 8 (buf ++ chunk)) (buf ++ chunk) ≡ drop (12 + n) buf ++ chunk =
          ap (λ (m : ℕ). drop (12 + m) (buf ++ chunk)) n' ∙ drop-append_le (12 + n) buf chunk w in
        let event : handle (u32 8 (buf ++ chunk)) (drop 12 (buf ++ chunk)) s
            ≡ handle n (drop 12 buf) s =
          ap (λ (m : ℕ). handle m (drop 12 (buf ++ chunk)) s) n'
          ∙ ap (λ (bs : List ℕ). handle n bs s) (drop-append_le 12 buf chunk l)
          ∙ local n (drop 12 buf) chunk s (omega (arith, length-drop 12 buf)) in
        run_fuel (suc g) (buf ++ chunk) s (omega arith)
        ∙ parse_takes g (buf ++ chunk) s (omega (arith, grown)) c' (omega (arith, grown, n'))
        ∙ ap (λ h. go_on h (parse check handle g (drop (12 + u32 8 (buf ++ chunk)) (buf ++ chunk))))
            event
        ∙ ap (λ (r : List ℕ). go_on (handle n (drop 12 buf) s) (parse check handle g r)) rest'
        ∙ go_on_congr _ _ _ (λ s'.
          sym (
            run_fuel g (drop (12 + n) buf ++ chunk) s' (
              omega
                (arith, length-append (drop (12 + n) buf) chunk, length-drop (12 + n) buf, grown)))
          ∙ ih s')
        ∙ sym (go_on-and_then (handle n (drop 12 buf) s) _ later)
        ∙ ap (λ p. and_then p later) (sym (parse_takes f buf s l c w))

    parse-append :
        (f : ℕ) (buf : List ℕ) (s : S)
        → length buf ≤ f
        → run check handle (buf ++ chunk) s ≡ and_then (parse check handle f buf s) later
    parse-append zero buf s h =
        ap (λ p. and_then p later) (sym (parse_short zero buf s (omega arith)))
    parse-append (suc f) buf s h = elim (Bool-cases (ltb (length buf) 12)) [
      | inl short ↦ ap (λ p. and_then p later) (sym (parse_short (suc f) buf s (ground arith)))
      | inr long ↦
          let l : 12 ≤ length buf = ground arith in
          elim (Option-cases (check (take 12 buf))) [
            | inr (e, c) ↦
                run_fuel (suc (length (buf ++ chunk))) (buf ++ chunk) s (omega arith)
                ∙ parse_bad (length (buf ++ chunk)) (buf ++ chunk) s e
                    (omega (arith, length-append buf chunk))
                    (ap check (take-append_le 12 buf chunk l) ∙ c)
                ∙ ap (λ p. and_then p later) (sym (parse_bad f buf s e l c))
            | inl c ↦ elim (Bool-cases (ltb (length buf) (12 + u32 8 buf))) [
              | inl waits ↦
                  ap (λ p. and_then p later) (sym (parse_waits f buf s l c (ground arith)))
              | inr whole ↦ take-append f buf s l c (ground arith) (λ s'.
                  parse-append f (drop (12 + u32 8 buf) buf) s'
                    (omega (arith, length-drop (12 + u32 8 buf) buf)))
            ]
          ]
    ]

  and_then-more : (p : Progress E S) → and_then p (λ s rest. more s rest) ≡ p
  and_then-more (more s rest) = refl
  and_then-more (stopped e s) = refl

  and_then_congr :
      (p : Progress E S) (k l : S → List ℕ → Progress E S)
      → ((s : S) (rest : List ℕ) → k s rest ≡ l s rest)
      → and_then p k ≡ and_then p l
  and_then_congr (more s rest) k l e = e s rest
  and_then_congr (stopped e' s) k l e = refl

  pub feed-nil : (buf : List ℕ) (s : S) → feed check handle [] buf s ≡ more s buf
  unfolding feed
  feed-nil buf s = refl

  pub feed-cons :
      (chunk : List ℕ) (chunks : List (List ℕ)) (buf : List ℕ) (s : S)
      → feed check handle (chunk ∷ chunks) buf s
        ≡ and_then (run check handle (buf ++ chunk) s) (λ s' rest. feed check handle chunks rest s')
  unfolding feed
  feed-cons chunk chunks buf s = refl

  feed-run :
      (local : IsLocal) (chunks : List (List ℕ)) (buf : List ℕ) (s : S)
      → and_then (run check handle buf s) (λ s' rest. feed check handle chunks rest s')
        ≡ run check handle (buf ++ joined chunks) s
  feed-run local [] buf s =
      and_then_congr (run check handle buf s) _ _ (λ s' rest. feed-nil rest s')
      ∙ and_then-more (run check handle buf s)
      ∙ ap (λ (b : List ℕ). run check handle b s) (sym (append-nil buf))
  feed-run local (chunk ∷ chunks) buf s =
      and_then_congr (run check handle buf s) _ (later local (chunk ++ joined chunks)) (λ s' rest.
        feed-cons chunk chunks rest s'
        ∙ feed-run local chunks (rest ++ chunk) s'
        ∙ ap (λ (b : List ℕ). run check handle b s') (append_assoc rest chunk (joined chunks)))
      ∙ ap (λ p. and_then p (later local (chunk ++ joined chunks)))
          (run_fuel (length buf) buf s (omega arith))
      ∙ sym (parse-append local (chunk ++ joined chunks) (length buf) buf s (omega arith))

  -- Chunks that are read one after the other have the effect of one buffer that holds them all,
  -- the first refusal included, and leave the same rest, if the handler sees the payload alone.
  pub feed-joined :
      (local : IsLocal) (chunks : List (List ℕ)) (s : S)
      → feed check handle chunks [] s ≡ run check handle (joined chunks) s
  feed-joined local chunks s =
      ap (λ p. and_then p (λ s' rest. feed check handle chunks rest s'))
        (sym (run_fuel 0 [] s (omega arith) ∙ parse_short 0 [] s (omega arith)))
      ∙ feed-run local chunks [] s
