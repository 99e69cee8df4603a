-- ===== src/Traces/Runs.antt =====
-- bin2traces.py, `main` over a whole file.
use e_bpf_based_kernel_ai_se.Prelude.{
  ℕ, zero, suc, ◌<◌, ◌≡◌, ◌≢◌, refl, List, length, drop, take, length-drop, length-take, arith,
}
use e_bpf_based_kernel_ai_se.Bytes.{u32}
use e_bpf_based_kernel_ai_se.Traces.Convert.{
  Options, State, start, convert, Next, at_end, bad, payload, next_frame, Ending, stuck, keys,
  finish, after_next, convert_loop, convert_file,
}
use e_bpf_based_kernel_ai_se.Dict.{get}
use e_bpf_based_kernel_ai_se.Traces.Convert.{emitted_of}
use e_bpf_based_kernel_ai_se.Traces.Bounds.{traces_of, upto, Fair, Inv, convert-Inv, flush_all-Fair}

module _ (o : Options) (window : 0 < o.window) where
  after_next-Fair :
      (n : Next) (s : State) (k : List ℕ → State → Ending × State)
      → Inv o window s
      → ((rest : List ℕ) (s : State) → Inv o window s → Fair o (k rest s).1)
      → Fair o (after_next o n s k).1
  unfolding after_next finish
  after_next-Fair at_end s k i h = flush_all-Fair o window (keys s.pending) s i
  after_next-Fair (bad e) s k i h = i.fair
  after_next-Fair (payload p rest) s k i h = h rest (convert o p s) (convert-Inv o window p s i)

  convert_loop-Fair :
      (fuel : ℕ) (stream : List ℕ) (s : State)
      → Inv o window s
      → Fair o (convert_loop o fuel stream s).1
  unfolding convert_loop
  convert_loop-Fair zero stream s i = i.fair
  convert_loop-Fair (suc fuel) stream s i =
      after_next-Fair (next_frame stream) s _ i (λ rest s' i'. convert_loop-Fair fuel rest s' i')

start-Fair : (o : Options) → Fair o start
unfolding traces_of emitted_of upto get
start-Fair o = record { sizes = tt; numbers = refl; shares = λ c. (refl, omega arith) }

-- With a window of at least one call, whatever the file holds: every trace has at least `min_len` and
-- at most `window` values, the traces are numbered 0, 1, 2, ... in the order in which they are
-- written, and no program has more than `max_per_comm` of them.
pub convert_file-Fair :
    (o : Options) (stream : List ℕ) → 0 < o.window → Fair o (convert_file o stream).1
unfolding convert_file
convert_file-Fair o stream window =
    convert_loop-Fair o window (suc (length stream)) stream start
      (record { pending = tt; fair = start-Fair o })

next_frame_shrinks :
    (stream p rest : List ℕ) → next_frame stream ≡ payload p rest → length rest < length stream
unfolding next_frame
next_frame_shrinks stream p rest e = ground (
  arith,
  length-take 12 stream,
  length-drop 12 stream,
  length-drop (u32 8 (take 12 stream)) (drop 12 stream),
)

after_next-ends :
    (o : Options) (n : Next) (s : State) (k : List ℕ → State → Ending × State)
    → ((p rest : List ℕ) (s : State) → n ≡ payload p rest → (k rest s).0 ≢ stuck)
    → (after_next o n s k).0 ≢ stuck
unfolding after_next finish
after_next-ends o at_end s k h = ground arith
after_next-ends o (bad e) s k h = λ q. cc
after_next-ends o (payload p rest) s k h = h p rest (convert o p s) refl

convert_loop-ends :
    (o : Options) (fuel : ℕ) (stream : List ℕ) (s : State)
    → length stream < fuel
    → (convert_loop o fuel stream s).0 ≢ stuck
unfolding convert_loop
convert_loop-ends o zero stream s h = absurd (omega arith)
convert_loop-ends o (suc fuel) stream s h =
    after_next-ends o (next_frame stream) s _ (λ p rest s' e.
      convert_loop-ends o fuel rest s' (omega (arith, next_frame_shrinks stream p rest e)))

-- On every file the conversion comes to an end of the program: the number of bytes is fuel enough.
pub convert_file-ends : (o : Options) (stream : List ℕ) → (convert_file o stream).0 ≢ stuck
unfolding convert_file
convert_file-ends o stream = convert_loop-ends o (suc (length stream)) stream start (omega arith)
