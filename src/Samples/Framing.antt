-- ===== src/Samples/Framing.antt =====
-- generate-handoff-samples.py, the file that `main` writes: the records in their frames.
use e_bpf_based_kernel_ai_se.Prelude.{
  ℕ, zero, suc, ◌≤◌, ◌<◌, ◌≡◌, refl, ap, List, [], ◌∷◌, ◌++◌, length, take, arith, length-append,
  take-append_length, drop-append_length,
}
use e_bpf_based_kernel_ai_se.Bytes.{little, u16, u32, little_endian}
use e_bpf_based_kernel_ai_se.Decoder.Event.{Event, decoded, decode_event}
use e_bpf_based_kernel_ai_se.Decoder.Frames.{
  at_end, payload, payload_after, next_payload, Frames, finished, yielded, after_next, frames_loop,
  frames,
}
use e_bpf_based_kernel_ai_se.Decoder.Agreement.{decoded-Supported, size_covered}

-- `FRAME.pack(b"EBPF", WIRE_VERSION, 1, 0, len(record)) + record`
unfoldable pub framed : List ℕ → List ℕ
framed record_bytes =
    (b'E' ∷ b'B' ∷ b'P' ∷ b'F' ∷ 1 ∷ 1 ∷ 0 ∷ 0 ∷ little_endian 4 (length record_bytes))
    ++ record_bytes

-- `b"".join(...)` over the records.
unfoldable pub binary : List (List ℕ) → List ℕ
unfolding framed
binary [] = []
binary (r ∷ rs) = framed r ++ binary rs

-- The decoder makes `es` of the records `rs`.
abbrev pub Decodes : List (List ℕ) → List Event → Type 0
Decodes [] [] = Unit
Decodes [] (e ∷ es) = ⊥
Decodes (r ∷ rs) [] = ⊥
Decodes (r ∷ rs) (e ∷ es) = (decode_event r ≡ decoded e) × Decodes rs es

payload_after-append : (r rest : List ℕ) → payload_after (length r) (r ++ rest) ≡ payload r rest
unfolding payload_after
payload_after-append r rest =
    rw (take-append_length r rest, drop-append_length r rest) (ground arith)

-- The first frame of a file is the record that was framed.
next_payload-framed :
    (r rest : List ℕ)
    → 88 ≤ length r
    → length r ≤ 376
    → next_payload (framed r ++ rest) ≡ payload r rest
unfolding next_payload framed u16 u32 little little_endian
next_payload-framed r rest l h =
    let size : u32 8 (take 12 (framed r ++ rest)) ≡ length r = omega arith in
    rw size (ground (arith, payload_after-append r rest))

next_payload_lem : next_payload [] ≡ at_end
unfolding next_payload
next_payload_lem = refl

frames_loop-binary :
    (fuel : ℕ) (rs : List (List ℕ)) (es : List Event)
    → Decodes rs es
    → length rs < fuel
    → frames_loop fuel (binary rs) ≡ record { events = es; stop = finished }
unfolding frames_loop after_next yielded binary
frames_loop-binary zero rs es d h = absurd (omega arith)
frames_loop-binary (suc fuel) [] [] d h = rw next_payload_lem refl
frames_loop-binary (suc fuel) [] (e ∷ es) d h = absurd d
frames_loop-binary (suc fuel) (r ∷ rs) [] d h = absurd d
frames_loop-binary (suc fuel) (r ∷ rs) (e ∷ es) d h =
    let s = decoded-Supported r e d.0 in
    let (_, u) = size_covered (u16 70 r) (length r) s.known in
    rw (next_payload-framed r (binary rs) s.header u, d.0)
      (ap (λ (f : Frames). record f { events = e ∷ f.events })
        (frames_loop-binary fuel rs es d.1 (omega arith)))

length-binary : (rs : List (List ℕ)) → length rs ≤ length (binary rs)
unfolding binary framed
length-binary [] = omega arith
length-binary (r ∷ rs) = omega (arith, length-binary rs, length-append (framed r) (binary rs))

-- The decoder reads back what the generator of samples writes: a file made of records that
-- `decode_event` decodes one by one gives exactly their events, in order and without an error.
pub frames-binary :
    (rs : List (List ℕ)) (es : List Event)
    → Decodes rs es
    → frames (binary rs) ≡ record { events = es; stop = finished }
unfolding frames
frames-binary rs es d =
    frames_loop-binary (suc (length (binary rs))) rs es d (omega (arith, length-binary rs))
