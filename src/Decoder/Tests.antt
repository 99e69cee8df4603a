-- ===== src/Decoder/Tests.antt =====
-- The theorems on the decoder at a concrete stream.
use e_bpf_based_kernel_ai_se.Decoder.Framing.{next_payload-read_frame}
use e_bpf_based_kernel_ai_se.Prelude.{
  ◌≤◌, length, arith, ℕ, ◌≡◌, ◌≢◌, ◌↔◌, refl, List, [], ◌∷◌, ◌++◌, replicate, none,
}
use e_bpf_based_kernel_ai_se.Bytes.{little, u16, u32, u64, little_endian, until_nul}
use e_bpf_based_kernel_ai_se.Decoder.Event.{
  Event, decoded, decode_event, signed, common_of, body_of, decode_sized, expected_size,
  syscall_entered,
}
use e_bpf_based_kernel_ai_se.Decoder.Frames.{payload, next_payload, frames, stuck}
use e_bpf_based_kernel_ai_se.Decoder.Agreement.{
  Supported, decode_event-Supported, decoded-observed, read_frame-next_payload, frames-ends,
}
use e_bpf_based_kernel_ai_se.Behavior.State.{Memory, tallied}
use e_bpf_based_kernel_ai_se.Behavior.Event.{header_of}
use e_bpf_based_kernel_ai_se.Behavior.Observe.{observe, observe_ordered}
use e_bpf_based_kernel_ai_se.Behavior.Stream.{
  Source, frame, read_frame, frame_after, payload_of, is_wire_header, exact, exact_loop, read,
}

-- The entry of the system call 257 by the task 9.
unfoldable sample : List ℕ
unfolding little_endian
sample =
    little_endian 8 7
    ++ little_endian 8 1
    ++ little_endian 8 5
    ++ little_endian 4 9
    ++ little_endian 4 9
    ++ replicate 28 0
    ++ little_endian 4 376
    ++ little_endian 4 0
    ++ little_endian 2 1
    ++ little_endian 2 4
    ++ replicate 16 0
    ++ little_endian 4 257
    ++ replicate 284 0

abbrev event : Event
event = record { common = common_of sample; body = syscall_entered 257 }

decoded_lem : decode_event sample ≡ decoded event
unfolding decode_event little u16 u32 u64 little_endian until_nul signed common_of body_of
    decode_sized expected_size sample
decoded_lem = refl

decode_event-Supported_example :
    ((e : Event) × (decode_event sample ≡ decoded e)) ↔ Supported sample
decode_event-Supported_example = decode_event-Supported sample

abbrev fresh : Memory
fresh = record {
  ttl = 100;
  max_tasks = 2;
  epoch = "boot";
  tasks = [];
  evidence = [];
  counts = [];
  last_ts = none;
  health = none;
  next_ref = 0;
}

decoded-observed_example :
    observe sample fresh ≡ observe_ordered sample (header_of sample) (tallied "frames" fresh)
decoded-observed_example = decoded-observed sample event fresh decoded_lem

unfoldable wire : List ℕ
unfolding little_endian sample
wire = 69 ∷ 66 ∷ 80 ∷ 70 ∷ 1 ∷ 1 ∷ 0 ∷ 0 ∷ little_endian 4 376 ++ sample ++ 1 ∷ 2 ∷ []

abbrev source : ℕ → List ℕ → ℕ → Source
source n bytes calls = record { rest = bytes; sizes = λ _. n; calls = calls }

read_frame_lem : read_frame (source 200 wire 0) ≡ (frame sample, source 200 (1 ∷ 2 ∷ []) 3)
unfolding read_frame frame_after payload_of is_wire_header exact exact_loop read little u32
    little_endian sample wire
read_frame_lem = refl

read_frame-next_payload_example : next_payload wire ≡ payload sample (1 ∷ 2 ∷ [])
read_frame-next_payload_example =
    read_frame-next_payload (source 200 wire 0) (source 200 (1 ∷ 2 ∷ []) 3) sample read_frame_lem

frames-ends_example : (frames wire).stop ≢ stuck
frames-ends_example = frames-ends wire

next_payload_lem : next_payload wire ≡ payload sample (1 ∷ 2 ∷ [])
unfolding next_payload little u16 u32 little_endian sample wire
next_payload_lem = refl

sample_size : 104 ≤ length sample
unfolding sample little_endian
sample_size = omega arith

next_payload-read_frame_example :
    ((read_frame (source 200 wire 0)).0 ≡ frame sample)
    × ((read_frame (source 200 wire 0)).1.rest ≡ 1 ∷ 2 ∷ [])
next_payload-read_frame_example =
    next_payload-read_frame (source 200 wire 0) sample (1 ∷ 2 ∷ []) next_payload_lem sample_size
