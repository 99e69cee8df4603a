-- ===== src/Behavior/Stream/Short.antt =====
-- behavior_memory.py, `exact` inside `read_frame`, against a description without short reads.
use e_bpf_based_kernel_ai_se.Prelude.{
  ℕ, zero, suc, ◌+◌, ◌-◌, ◌≤◌, ◌<◌, ◌≡◌, refl, ap, sym, ◌∙◌, List, [], ◌∷◌, ◌++◌, Bool, ◌&&◌,
  if◌then◌else◌, leb, ◌==◌, length, take, drop, min, max, arith, length-take, length-drop,
  length-append, take-take-drop, drop-drop, take_all, drop_all, Bool-cases, inl, inr,
}
use mathlib.Core.List.{append_assoc, append-nil}
use e_bpf_based_kernel_ai_se.Behavior.Stream.{
  Source, read, Read, end_of_stream, truncated, bytes, exact_loop, exact,
}

-- What the rest of a stream gives to a call that wants `k` bytes more, after `acc`.
abbrev pub whole : ℕ → Bool → List ℕ → List ℕ → Read
whole k eof acc rest =
    if leb k (length rest)
    then bytes (acc ++ take k rest)
    else if eof && (length (acc ++ rest) == 0)
    then end_of_stream
    else truncated

abbrev chunk_size : ℕ → Source → ℕ
chunk_size n s = min n (max 1 (s.sizes s.calls))

-- A first read of at most `j` bytes changes nothing in what the whole call gives.
module _ (j k : ℕ) (eof : Bool) (acc rest : List ℕ) (small : j ≤ k) where
  split_long :
      j ≤ length rest
      → (whole (k - j) eof (acc ++ take j rest) (drop j rest) ≡ whole k eof acc rest)
        × (drop (k - j) (drop j rest) ≡ drop k rest)
  split_long long =
      let sum : j + (k - j) ≡ k = omega arith in
      let taken : (acc ++ take j rest) ++ take (k - j) (drop j rest) ≡ acc ++ take k rest =
        append_assoc acc (take j rest) (take (k - j) (drop j rest))
        ∙ ap (◌++◌ acc) (take-take-drop j (k - j) rest ∙ ap (λ n. take n rest) sum) in
      let total : length ((acc ++ take j rest) ++ drop j rest) ≡ length (acc ++ rest) = omega (
        arith,
        length-append (acc ++ take j rest) (drop j rest),
        length-append acc (take j rest),
        length-append acc rest,
        length-take j rest,
        length-drop j rest,
      ) in
      (
        rw taken (ground (arith, total, length-drop j rest)),
        drop-drop j (k - j) rest ∙ ap (λ n. drop n rest) sum,
      )

  split_short :
      length rest < j
      → (whole (k - length rest) eof (acc ++ take j rest) (drop j rest) ≡ whole k eof acc rest)
        × (drop (k - length rest) (drop j rest) ≡ drop k rest)
  split_short short =
      let d = drop_all j rest (omega arith) in
      let t = take_all j rest (omega arith) in
      rw (d, t, drop_all k rest (omega arith))
        (
          ground (arith, length-append (acc ++ rest) []),
          drop_all (k - length rest) [] (omega arith),
        )

  -- So does one that got `c` bytes for `j`, whether or not the stream is that long.
  split :
      (c : ℕ)
      → c ≡ min j (length rest)
      → (whole (k - c) eof (acc ++ take j rest) (drop j rest) ≡ whole k eof acc rest)
        × (drop (k - c) (drop j rest) ≡ drop k rest)
  split c e = elim (Bool-cases (leb j (length rest))) [
    | inl long ↦ let at : c ≡ j = ground arith in rw at (split_long (ground arith))
    | inr short ↦ let at : c ≡ length rest = ground arith in rw at (split_short (ground arith))
  ]

at_end :
    (k : ℕ) (eof : Bool) (acc rest : List ℕ)
    → length rest ≡ 0
    → (if eof && (length acc == 0) then end_of_stream else truncated) ≡ whole (suc k) eof acc rest
at_end k eof acc [] e = ground (arith, append-nil acc)
at_end k eof acc (x ∷ rest) e = absurd (omega arith)

exact_loop-whole :
    (fuel k : ℕ) (eof : Bool) (acc : List ℕ) (s : Source)
    → k ≤ fuel
    → ((exact_loop fuel k eof acc s).0 ≡ whole k eof acc s.rest)
      × ((exact_loop fuel k eof acc s).1.rest ≡ drop k s.rest)
unfolding exact_loop
exact_loop-whole zero zero eof acc s h = (ground (arith, append-nil acc), refl)
exact_loop-whole (suc fuel) zero eof acc s h = (ground (arith, append-nil acc), refl)
exact_loop-whole zero (suc k) eof acc s h = absurd (omega arith)
exact_loop-whole (suc fuel) (suc k) eof acc s h =
    let j = chunk_size (suc k) s in
    let c = length (take j s.rest) in
    let count : c ≡ min j (length s.rest) = length-take j s.rest in
    elim (Bool-cases (c == 0)) [
      | inl none_left ↦
          let over : length s.rest ≡ 0 = ground arith in
          rw none_left (
            at_end k eof acc s.rest over,
            drop_all j s.rest (omega arith) ∙ sym (drop_all (suc k) s.rest (omega arith)),
          )
      | inr got ↦
          let (a, b) =
            exact_loop-whole fuel (suc k - c) eof (acc ++ take j s.rest) (read (suc k) s).1
              (ground arith) in
          let (x, y) = split j (suc k) eof acc s.rest (omega arith) c count in rw got (a ∙ x, b ∙ y)
    ]

-- `exact(n)` returns the next `n` bytes of the stream and leaves the rest; where fewer are left it
-- consumes them and reports a truncation, or the end of the stream if none is left and `eof` is
-- set. The sizes of the single reads do not show in the result.
pub exact-whole :
    (n : ℕ) (eof : Bool) (s : Source)
    → ((exact n eof s).0 ≡ whole n eof [] s.rest) × ((exact n eof s).1.rest ≡ drop n s.rest)
unfolding exact
exact-whole n eof s = exact_loop-whole n n eof [] s (omega arith)
