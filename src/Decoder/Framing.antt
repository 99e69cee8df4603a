-- ===== src/Decoder/Framing.antt =====
-- `read_frame` of behavior_memory.py on the frames that decode-events.py takes from a stream.
use e_bpf_based_kernel_ai_se.Prelude.{
  ℕ, ◌≤◌, ◌≡◌, refl, ap, sym, ◌∙◌, List, [], true, false, length, take, drop, length-take, arith,
}
use e_bpf_based_kernel_ai_se.Bytes.{u32}
use e_bpf_based_kernel_ai_se.Decoder.Frames.{payload, payload_after, next_payload}
use e_bpf_based_kernel_ai_se.Decoder.Agreement.{two_bytes}
use e_bpf_based_kernel_ai_se.Behavior.Stream.{
  Source, Read, bytes, exact, frame, payload_of, is_wire_header, frame_after, read_frame,
}
use e_bpf_based_kernel_ai_se.Behavior.Stream.Short.{whole, exact-whole}

next_passes :
    (stream p rest : List ℕ)
    → next_payload stream ≡ payload p rest
    → (12 ≤ length stream)
      × (is_wire_header (take 12 stream) ≡ true)
      × (u32 8 (take 12 stream) ≤ 376)
      × (payload_after (u32 8 (take 12 stream)) (drop 12 stream) ≡ payload p rest)
unfolding next_payload is_wire_header
next_passes stream p rest e = ground (arith, length-take 12 stream, two_bytes 6 (take 12 stream))

payload_taken :
    (size : ℕ) (stream p rest : List ℕ)
    → payload_after size stream ≡ payload p rest
    → (size ≤ length stream)
      × (length p ≡ size)
      × (p ≡ take size stream)
      × (rest ≡ drop size stream)
unfolding payload_after
payload_taken size stream p rest e = ground (arith, length-take size stream)

payload_of-whole :
    (size : ℕ) (stream p rest : List ℕ) (r : Read) (s : Source)
    → r ≡ whole size false [] stream
    → s.rest ≡ drop size stream
    → payload_after size stream ≡ payload p rest
    → (payload_of (r, s) ≡ (frame p, s)) × (s.rest ≡ rest)
unfolding payload_of
payload_of-whole size stream p rest r s w d e =
    let (l, _, t, u) = payload_taken size stream p rest e in
    let got : r ≡ bytes p = ground (arith) in (rw got refl, d ∙ sym u)

frame_after-whole :
    (v : List ℕ) (s : Source)
    → is_wire_header v ≡ true
    → 104 ≤ u32 8 v
    → u32 8 v ≤ 376
    → frame_after (bytes v, s) ≡ payload_of (exact (u32 8 v) false s)
unfolding frame_after
frame_after-whole v s h a b = ground arith

-- A payload of at least 104 bytes that `frames` takes from a stream is the frame that `read_frame`
-- reads from the same bytes, and both go on after it at the same place.
pub next_payload-read_frame :
    (s : Source) (p rest : List ℕ)
    → next_payload s.rest ≡ payload p rest
    → 104 ≤ length p
    → ((read_frame s).0 ≡ frame p) × ((read_frame s).1.rest ≡ rest)
unfolding read_frame
next_payload-read_frame s p rest e big =
    let (l, h, b, q) = next_passes s.rest p rest e in
    let (x, y) = exact-whole 12 true s in
    let wire = take 12 s.rest in
    let t = (exact 12 true s).1 in
    let size = u32 8 wire in
    let q' : payload_after size t.rest ≡ payload p rest = rw y q in
    let (_, n, _, _) = payload_taken size t.rest p rest q' in
    let got : (exact 12 true s).0 ≡ bytes wire = ground arith in
    let (z, w) = exact-whole size false t in
    let (m, k) =
      payload_of-whole size t.rest p rest (exact size false t).0 (exact size false t).1 z w q' in
    let go : frame_after (exact 12 true s) ≡ (frame p, (exact size false t).1) =
      ap (λ r. frame_after (r, t)) got ∙ frame_after-whole wire t h (omega arith) b ∙ m in
    (ap (λ r. r.0) go, ap (λ r. r.1.rest) go ∙ k)
