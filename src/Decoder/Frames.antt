-- ===== src/Decoder/Frames.antt =====
-- decode-events.py, the generator `frames`, over the bytes of a file, whose `read` falls short only
-- at the end.
use e_bpf_based_kernel_ai_se.Prelude.{
  ℕ, zero, suc, List, [], ◌∷◌, Bool, not, ◌&&◌, ◌||◌, if◌then◌else◌, ltb, ◌==◌, length, take, drop,
  get_or,
}
use e_bpf_based_kernel_ai_se.Bytes.{u16, u32}
use e_bpf_based_kernel_ai_se.Decoder.Event.{
  Event, Decoded, unsupported_schema, unknown_kind, short_payload, size_mismatch, invalid_size,
  decoded, decode_event,
}

pub data FrameError : Type 0 where
  truncated_header : FrameError
  unsupported_frame : FrameError
  reserved_set : FrameError
  invalid_payload_size : ℕ → FrameError
  truncated_payload : FrameError
  undecodable : Decoded → FrameError

-- What the next two reads give: the end, an error, or a payload and the bytes after it.
pub data Next : Type 0 where
  at_end : Next
  bad : FrameError → Next
  payload : List ℕ → List ℕ → Next

abbrev has_magic : List ℕ → Bool
has_magic h =
    (get_or h 0 0 == b'E')
    && ((get_or h 1 0 == b'B') && ((get_or h 2 0 == b'P') && (get_or h 3 0 == b'F')))

unfoldable pub payload_after : ℕ → List ℕ → Next
payload_after size rest =
    if length (take size rest) == size
    then payload (take size rest) (drop size rest)
    else bad truncated_payload

unfoldable pub next_payload : List ℕ → Next
unfolding payload_after
next_payload stream =
    let header = take 12 stream in
    let size = u32 8 header in
    if length header == 0
    then at_end
    else if not (length header == 12)
    then bad truncated_header
    else if not (has_magic header && ((get_or header 4 0 == 1) && (get_or header 5 0 == 1)))
    then bad unsupported_frame
    else if not (u16 6 header == 0)
    then bad reserved_set
    else if ltb size 88 || ltb 376 size
    then bad (invalid_payload_size size)
    else payload_after size (drop 12 stream)

-- `stuck` is no outcome of the program: the fuel ran out.
pub data Stop : Type 0 where
  finished : Stop
  raised : FrameError → Stop
  stuck : Stop

pub record Frames : Type 0 where
  pub events : List Event
  pub stop : Stop

-- An event of an unknown schema or kind is skipped, any other refusal ends the generator.
unfoldable pub yielded : Decoded → Frames → Frames
yielded (decoded e) later = record later { events = e ∷ later.events }
yielded (unsupported_schema n) later = later
yielded (unknown_kind n) later = later
yielded short_payload later = record { events = []; stop = raised (undecodable short_payload) }
yielded size_mismatch later = record { events = []; stop = raised (undecodable size_mismatch) }
yielded (invalid_size k n) later = record {
  events = [];
  stop = raised (undecodable (invalid_size k n));
}

unfoldable pub after_next : Next → (List ℕ → Frames) → Frames
unfolding yielded
after_next at_end k = record { events = []; stop = finished }
after_next (bad e) k = record { events = []; stop = raised e }
after_next (payload p rest) k = yielded (decode_event p) (k rest)

unfoldable pub frames_loop : ℕ → List ℕ → Frames
unfolding after_next
frames_loop zero stream = record { events = []; stop = stuck }
frames_loop (suc fuel) stream = after_next (next_payload stream) (λ rest. frames_loop fuel rest)

-- Every frame takes its header from the stream, so the number of bytes is fuel enough.
unfoldable pub frames : List ℕ → Frames
unfolding frames_loop
frames stream = frames_loop (suc (length stream)) stream
