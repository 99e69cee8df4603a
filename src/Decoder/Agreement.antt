-- ===== src/Decoder/Agreement.antt =====
-- decode-events.py and behavior_memory.py, which read the same format: framing and checks.
use e_bpf_based_kernel_ai_se.Prelude.{
  ℕ, zero, suc, ◌+◌, ◌*◌, ◌≤◌, ◌<◌, ◌≡◌, refl, ap, ◌∙◌, ◌↔◌, ◌≢◌, List, [], ◌∷◌, Option, none, some,
  Bool, true, false, not, if◌then◌else◌, ltb, ◌==◌, length, take, drop, get_or, length-take,
  length-drop, arith, subst,
}
use e_bpf_based_kernel_ai_se.Bytes.{little, u16, u32}
use e_bpf_based_kernel_ai_se.Decoder.Event.{
  Event, Decoded, unsupported_schema, unknown_kind, short_payload, size_mismatch, invalid_size,
  decoded, expected_size, common_of, decode_sized, decode_event, Common, body_of,
}
use e_bpf_based_kernel_ai_se.Decoder.Frames.{
  Next, at_end, bad, payload, payload_after, next_payload, Frames, stuck, yielded, after_next,
  frames_loop, frames,
}
use e_bpf_based_kernel_ai_se.Behavior.State.{Memory, tallied}
use e_bpf_based_kernel_ai_se.Behavior.Event.{header_of, min_size, is_well_formed}
use e_bpf_based_kernel_ai_se.Behavior.Observe.{observe, observe_ordered}
use e_bpf_based_kernel_ai_se.Behavior.Stream.{
  Source, Read, end_of_stream, truncated, bytes, exact, frame, payload_of, is_wire_header,
  frame_after, read_frame,
}
use e_bpf_based_kernel_ai_se.Behavior.Stream.Short.{whole, exact-whole}

-- What an event of this schema must satisfy, from its bytes alone.
pub record Supported (p : List ℕ) : Type 0 where
  pub header : 88 ≤ length p
  pub schema : u16 68 p ≡ 1
  pub size : u32 60 p ≡ length p
  pub known : expected_size (u16 70 p) ≡ some (length p)

-- The checks of `decode_event` on any header and any expected size.
abbrev checked : Option ℕ → Common → List ℕ → Decoded
checked o c p =
    if ltb (length p) 88
    then short_payload
    else if not (c.schema_version == 1)
    then unsupported_schema c.schema_version
    else decode_sized o c p

checked_only :
    (o : Option ℕ) (c : Common) (p : List ℕ) (e : Event)
    → checked o c p ≡ decoded e
    → (88 ≤ length p) × (c.schema_version ≡ 1) × (c.size ≡ length p) × (o ≡ some (length p))
unfolding decode_sized
checked_only none c p e h = absurd (ground arith)
checked_only (some n) c p e h = ground arith

checked_all :
    (o : Option ℕ) (c : Common) (p : List ℕ)
    → 88 ≤ length p
    → c.schema_version ≡ 1
    → c.size ≡ length p
    → o ≡ some (length p)
    → (e : Event) × (checked o c p ≡ decoded e)
unfolding decode_sized
checked_all none c p l s z o = cc
checked_all (some n) c p l s z o =
    (record { common = c; body = body_of c.kind c.flags p }, ground arith)

pub decoded-Supported : (p : List ℕ) (e : Event) → decode_event p ≡ decoded e → Supported p
unfolding decode_event common_of
decoded-Supported p e h =
    let (l, s, z, k) = checked_only (expected_size (common_of p).kind) (common_of p) p e h in
    record { header = l; schema = s; size = z; known = k }

Supported-decoded : (p : List ℕ) → Supported p → (e : Event) × (decode_event p ≡ decoded e)
unfolding decode_event common_of
Supported-decoded p s =
    checked_all (expected_size (common_of p).kind) (common_of p) p s.header s.schema s.size s.known

pub size_covered : (k n : ℕ) → expected_size k ≡ some n → (min_size k ≤ n) × (n ≤ 376)
unfolding expected_size min_size
size_covered k n e = ground arith

pub two_bytes : (k : ℕ) (w : List ℕ) → u16 k w ≡ get_or w k 0 + 256 * get_or w (suc k) 0
unfolding u16 little
two_bytes zero [] = refl
two_bytes zero (a ∷ []) = omega arith
two_bytes zero (a ∷ b ∷ w) = omega arith
two_bytes (suc k) [] = refl
two_bytes (suc k) (a ∷ w) = two_bytes k w

-- `decode_event` returns a record exactly for a payload that holds a whole header, has schema 1,
-- states its own length, and has the length of its kind.
pub decode_event-Supported :
    (p : List ℕ) → ((e : Event) × (decode_event p ≡ decoded e)) ↔ Supported p
decode_event-Supported p = (λ (e, h). decoded-Supported p e h, Supported-decoded p)

-- A payload that `decode_event` decodes passes the checks of `observe`, which then handles it as
-- an event: it does not raise for its length, schema or size.
pub decoded-observed :
    (p : List ℕ) (e : Event) (m : Memory)
    → decode_event p ≡ decoded e
    → observe p m ≡ observe_ordered p (header_of p) (tallied "frames" m)
unfolding observe header_of is_well_formed
decoded-observed p e m h =
    let s = decoded-Supported p e h in
    let (l, u) = size_covered (u16 70 p) (length p) s.known in
    ground (arith, s.header, s.schema, s.size)

whole_bytes :
    (k : ℕ) (eof : Bool) (rest wire : List ℕ)
    → bytes wire ≡ whole k eof [] rest
    → (k ≤ length rest) × (wire ≡ take k rest)
whole_bytes k eof rest wire e = ground arith

payload_of-after :
    (size : ℕ) (r : Read) (s s' : Source) (rest p : List ℕ)
    → r ≡ whole size false [] rest
    → s.rest ≡ drop size rest
    → payload_of (r, s) ≡ (frame p, s')
    → payload_after size rest ≡ payload p s'.rest
unfolding payload_of payload_after
payload_of-after size end_of_stream s s' rest p w d e = absurd (ground arith)
payload_of-after size truncated s s' rest p w d e = absurd (ground arith)
payload_of-after size (bytes v) s s' rest p w d e =
    let (l, t) = whole_bytes size false rest v w in
    let q : v ≡ p = ground arith in
    let z : s.rest ≡ s'.rest = ground arith in ground (arith, length-take size rest, d)

framed_facts :
    (v : List ℕ) (s s' : Source) (p : List ℕ)
    → frame_after (bytes v, s) ≡ (frame p, s')
    → (is_wire_header v ≡ true)
      × (104 ≤ u32 8 v)
      × (u32 8 v ≤ 376)
      × (payload_of (exact (u32 8 v) false s) ≡ (frame p, s'))
unfolding frame_after
framed_facts v s s' p e = ground arith

header_passes :
    (rest : List ℕ)
    → 12 ≤ length rest
    → is_wire_header (take 12 rest) ≡ true
    → 104 ≤ u32 8 (take 12 rest)
    → u32 8 (take 12 rest) ≤ 376
    → next_payload rest ≡ payload_after (u32 8 (take 12 rest)) (drop 12 rest)
unfolding next_payload is_wire_header
header_passes rest l h a b = ground (arith, length-take 12 rest, two_bytes 6 (take 12 rest))

frame_after-next :
    (r : Read) (s s' : Source) (rest p : List ℕ)
    → r ≡ whole 12 true [] rest
    → s.rest ≡ drop 12 rest
    → frame_after (r, s) ≡ (frame p, s')
    → next_payload rest ≡ payload p s'.rest
unfolding frame_after next_payload is_wire_header
frame_after-next end_of_stream s s' rest p w d e = absurd (ground arith)
frame_after-next truncated s s' rest p w d e = absurd (ground arith)
frame_after-next (bytes v) s s' rest p w d e =
    let (l, t) = whole_bytes 12 true rest v w in
    let wire = take 12 rest in
    let (h, a, b, q) =
      framed_facts wire s s' p (subst (λ v. frame_after (bytes v, s) ≡ (frame p, s')) t e) in
    let (x, y) = exact-whole (u32 8 wire) false s in
    header_passes rest l h a b
    ∙ payload_of-after (u32 8 wire) (exact (u32 8 wire) false s).0 (exact (u32 8 wire) false s).1 s'
        (drop 12 rest) p (x ∙ ap (whole (u32 8 wire) false []) d) (y ∙ ap (drop (u32 8 wire)) d) q

-- A frame that `read_frame` reads is the one that `frames` takes from the same bytes, and both go
-- on after it at the same place.
pub read_frame-next_payload :
    (s s' : Source) (p : List ℕ)
    → read_frame s ≡ (frame p, s')
    → next_payload s.rest ≡ payload p s'.rest
unfolding read_frame
read_frame-next_payload s s' p e =
    let (a, b) = exact-whole 12 true s in
    frame_after-next (exact 12 true s).0 (exact 12 true s).1 s' s.rest p a b e

payload_after_shorter :
    (size : ℕ) (rest p rest' : List ℕ)
    → payload_after size rest ≡ payload p rest'
    → length rest' ≤ length rest
unfolding payload_after
payload_after_shorter size rest p rest' e = ground (arith, length-drop size rest)

next_payload_after :
    (stream p rest : List ℕ)
    → next_payload stream ≡ payload p rest
    → (12 ≤ length stream)
      × (payload_after (u32 8 (take 12 stream)) (drop 12 stream) ≡ payload p rest)
unfolding next_payload
next_payload_after stream p rest e = ground (arith, length-take 12 stream)

next_shorter :
    (stream p rest : List ℕ) → next_payload stream ≡ payload p rest → length rest < length stream
unfolding next_payload
next_shorter stream p rest e =
    let (l, a) = next_payload_after stream p rest e in
    omega (
      arith,
      length-drop 12 stream,
      payload_after_shorter (u32 8 (take 12 stream)) (drop 12 stream) p rest a,
    )

yielded_goes_on : (d : Decoded) (f : Frames) → f.stop ≢ stuck → (yielded d f).stop ≢ stuck
unfolding yielded
yielded_goes_on (decoded e) f h = h
yielded_goes_on (unsupported_schema n) f h = h
yielded_goes_on (unknown_kind n) f h = h
yielded_goes_on short_payload f h = λ e. cc
yielded_goes_on size_mismatch f h = λ e. cc
yielded_goes_on (invalid_size k n) f h = λ e. cc

after_next_goes_on :
    (n : Next) (k : List ℕ → Frames)
    → ((p rest : List ℕ) → n ≡ payload p rest → (k rest).stop ≢ stuck)
    → (after_next n k).stop ≢ stuck
unfolding after_next
after_next_goes_on at_end k h = λ e. cc
after_next_goes_on (bad c) k h = λ e. cc
after_next_goes_on (payload p rest) k h = yielded_goes_on (decode_event p) (k rest) (h p rest refl)

frames_loop-ends :
    (fuel : ℕ) (stream : List ℕ) → length stream < fuel → (frames_loop fuel stream).stop ≢ stuck
unfolding frames_loop
frames_loop-ends zero stream h = absurd (omega arith)
frames_loop-ends (suc fuel) stream h =
    after_next_goes_on (next_payload stream) _
      (λ p rest e. frames_loop-ends fuel rest (omega (arith, next_shorter stream p rest e)))

-- On every file the generator `frames` comes to an end, finished or with an error: the number of
-- bytes is fuel enough.
pub frames-ends : (stream : List ℕ) → (frames stream).stop ≢ stuck
unfolding frames
frames-ends stream = frames_loop-ends (suc (length stream)) stream (omega arith)
