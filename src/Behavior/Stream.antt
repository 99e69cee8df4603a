-- ===== src/Behavior/Stream.antt =====
-- behavior_memory.py, `read_frame`, over a source that may return fewer bytes than asked for, and
-- the generator `replay` that feeds the frames to the memory.
pub mod Short
use e_bpf_based_kernel_ai_se.Prelude.{
  ℕ, zero, suc, ◌+◌, ◌-◌, List, [], ◌∷◌, ◌++◌, Option, none, some, Bool, true, false, not, ◌&&◌,
  if◌then◌else◌, leb, ltb, ◌==◌, length, take, drop, get_or, min, max, String,
}
use e_bpf_based_kernel_ai_se.Bytes.{u32}
use e_bpf_based_kernel_ai_se.Behavior.State.{Memory, Result, ok, raise, clear}
use e_bpf_based_kernel_ai_se.Behavior.Event.{Advisory}
use e_bpf_based_kernel_ai_se.Behavior.Observe.{observe}

-- What is left to read, and how many bytes each coming call of `read` hands out at most.
pub record Source : Type 0 where
  pub rest : List ℕ
  pub sizes : ℕ → ℕ
  pub calls : ℕ

-- `source.read(n)`: at least one byte and at most `n`, or none at the end of the stream.
unfoldable pub read : ℕ → Source → List ℕ × Source
read n s =
    let k = min n (max 1 (s.sizes s.calls)) in
    (take k s.rest, record s { rest = drop k s.rest; calls = suc s.calls })

pub data Read : Type 0 where
  end_of_stream : Read
  truncated : Read
  bytes : List ℕ → Read

-- `while len(data) < n`, with the bytes still needed as the fuel. A round gets a byte at least.
unfoldable pub exact_loop : ℕ → ℕ → Bool → List ℕ → Source → Read × Source
unfolding read
exact_loop fuel zero eof acc s = (bytes acc, s)
exact_loop zero (suc missing) eof acc s = (truncated, s)
exact_loop (suc fuel) (suc missing) eof acc s =
    let (chunk, s') = read (suc missing) s in
    let more = exact_loop fuel (suc missing - length chunk) eof (acc ++ chunk) s' in
    if length chunk == 0
    then ((if eof && (length acc == 0) then end_of_stream else truncated), s')
    else more

unfoldable pub exact : ℕ → Bool → Source → Read × Source
unfolding exact_loop
exact n eof s = exact_loop n n eof [] s

-- A frame, the end of the stream, or the `ValueError`.
pub data Frame : Type 0 where
  no_frame : Frame
  frame : List ℕ → Frame
  bad_frame : String → Frame

unfoldable pub payload_of : Read × Source → Frame × Source
payload_of (bytes event, s) = (frame event, s)
payload_of (truncated, s) = (bad_frame "TRUNCATED_EOF", s)
payload_of (end_of_stream, s) = (no_frame, s)

-- `(magic, version, little, reserved) == (b"EBPF", 1, 1, 0)` on the 12 bytes of `FRAME`.
unfoldable pub is_wire_header : List ℕ → Bool
is_wire_header w =
    ((get_or w 0 0 == b'E')
      && ((get_or w 1 0 == b'B') && ((get_or w 2 0 == b'P') && (get_or w 3 0 == b'F'))))
    && ((get_or w 4 0 == 1)
        && ((get_or w 5 0 == 1) && ((get_or w 6 0 == 0) && (get_or w 7 0 == 0))))

unfoldable pub frame_after : Read × Source → Frame × Source
unfolding payload_of is_wire_header exact
frame_after (end_of_stream, s) = (no_frame, s)
frame_after (truncated, s) = (bad_frame "TRUNCATED_EOF", s)
frame_after (bytes wire, s) =
    let size = u32 8 wire in
    if not (is_wire_header wire)
    then (bad_frame "INVALID_WIRE_HEADER", s)
    else if not (leb 104 size && leb size 376)
    then (bad_frame "INVALID_FRAME_LENGTH", s)
    else payload_of (exact size false s)

unfoldable pub read_frame : Source → Frame × Source
unfolding frame_after exact
read_frame s = frame_after (exact 12 true s)

-- The advisories of a replay, with the memory and the outcome that it ends with. `stuck` is no
-- outcome of the program: the fuel ran out.
pub data Ending : Type 0 where
  complete : Ending
  failed : String → Ending
  stuck : Ending

pub record Replayed : Type 0 where
  pub memory : Memory
  pub advisories : List Advisory
  pub ending : Ending

unfoldable pub with_advisory : Option Advisory → Replayed → Replayed
with_advisory none r = r
with_advisory (some a) r = record r { advisories = a ∷ r.advisories }

-- `memory.observe(event)`, and the rest of the loop unless it raised.
unfoldable pub observed : Memory × Result (Option Advisory) → (Memory → Replayed) → Replayed
observed (m, raise e) k = record { memory = m; advisories = []; ending = failed e }
observed (m, ok o) k = with_advisory o (k m)

unfoldable pub replay_step : Frame → Memory → (Memory → Replayed) → Replayed
replay_step no_frame m k = record { memory = m; advisories = []; ending = complete }
replay_step (bad_frame e) m k = record {
  memory = clear "invalid_input" true m;
  advisories = [];
  ending = failed e;
}
replay_step (frame event) m k = observed (observe event m) k

unfoldable pub replay_loop : ℕ → Source → Memory → Replayed
unfolding observed replay_step
replay_loop zero s m = record { memory = m; advisories = []; ending = stuck }
replay_loop (suc fuel) s m =
    let (f, s') = read_frame s in replay_step f m (λ m'. replay_loop fuel s' m')

-- Every frame takes bytes, so their number is fuel enough.
unfoldable pub replay : Source → Memory → Replayed
unfolding replay_loop
replay s m = replay_loop (suc (length s.rest)) s m
