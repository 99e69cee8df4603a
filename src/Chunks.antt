-- ===== src/Chunks.antt =====
-- The frame loop that agent/ai/experiments/event-time-v1/src/detect2.py and extract.py share: chunks
-- are appended to a buffer, and every frame that is complete in it is handled. The check of a frame
-- header and the handler of an event differ, and are parameters.
pub mod Laws
pub mod Simulation
pub mod Keeps
use e_bpf_based_kernel_ai_se.Prelude.{
  ℕ, zero, suc, ◌+◌, List, [], ◌∷◌, ◌++◌, Option, none, some, if◌then◌else◌, ltb, length, take,
  drop,
}
use e_bpf_based_kernel_ai_se.Bytes.{u32}

-- The program goes on with a buffer, or leaves by `sys.exit` or an exception.
pub data Progress (E S : Type 0) : Type 0 where
  more : S → List ℕ → Progress E S
  stopped : E → S → Progress E S

-- What the handler of an event does.
pub data Handled (E S : Type 0) : Type 0 where
  handled : S → Handled E S
  refused : E → S → Handled E S

abbrev pub and_then : {E S : Type 0} → Progress E S → (S → List ℕ → Progress E S) → Progress E S
and_then (more s rest) k = k s rest
and_then (stopped e s) k = stopped e s

abbrev pub go_on : {E S : Type 0} → Handled E S → (S → Progress E S) → Progress E S
go_on (handled s) k = k s
go_on (refused e s) k = stopped e s

module _ {E S : Type 0} (check : List ℕ → Option E) (handle : ℕ → List ℕ → S → Handled E S) where
  -- A frame whose header passed: its payload of `size` bytes stands after the header.
  unfoldable pub take_frame : ℕ → List ℕ → S → (List ℕ → S → Progress E S) → Progress E S
  take_frame size buf s next =
      if ltb (length buf) (12 + size)
      then more s buf
      else go_on (handle size (drop 12 buf) s) (next (drop (12 + size) buf))

  -- `while off + FRAME.size <= n`, with the frames that may be left as fuel.
  unfoldable pub parse : ℕ → List ℕ → S → Progress E S
  unfolding take_frame
  parse zero buf s = more s buf
  parse (suc fuel) buf s = if ltb (length buf) 12 then more s buf else elim (check (take 12 buf)) [
    | some e ↦ stopped e s
    | none ↦ take_frame (u32 8 buf) buf s (parse fuel)
  ]

  -- A frame takes its header from the buffer, so the bytes are fuel enough.
  unfoldable pub run : List ℕ → S → Progress E S
  unfolding parse
  run buf s = parse (length buf) buf s

  -- The reads in a row, each put behind what the one before left over.
  unfoldable pub feed : List (List ℕ) → List ℕ → S → Progress E S
  unfolding run
  feed [] buf s = more s buf
  feed (chunk ∷ chunks) buf s = and_then (run (buf ++ chunk) s) (λ s' rest. feed chunks rest s')

abbrev pub joined : List (List ℕ) → List ℕ
joined [] = []
joined (c ∷ cs) = c ++ joined cs
