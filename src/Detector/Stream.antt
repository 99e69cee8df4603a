-- ===== src/Detector/Stream.antt =====
-- detect2.py, the loop of `main` over chunks and idle ticks, and the end of the stream.
use e_bpf_based_kernel_ai_se.Prelude.{
  ℕ, ◌+◌, ◌-◌, ◌/◌, List, [], ◌∷◌, ◌++◌, Option, none, some, Bool, true, false, ◌&&◌, ◌||◌,
  if◌then◌else◌, ltb, leb, ℕ_discrete, length,
}
use e_bpf_based_kernel_ai_se.Dict.{Dict, get, put, pop}
use e_bpf_based_kernel_ai_se.Chunks.{Progress, more, stopped, run}
use e_bpf_based_kernel_ai_se.Detector.Event.{Exit, truncated_frame, check_frame}
use e_bpf_based_kernel_ai_se.Detector.State.{Procs, Config, State, finalize}
use e_bpf_based_kernel_ai_se.Detector.Buckets.{handle_event}

unfoldable pub keys : Dict ℕ Procs → List ℕ
keys [] = []
keys ((b, procs) ∷ d) = b ∷ keys d

-- `sorted`
unfoldable pub insert_sorted : ℕ → List ℕ → List ℕ
insert_sorted n [] = n ∷ []
insert_sorted n (m ∷ ms) = let rest = insert_sorted n ms in if leb n m then n ∷ m ∷ ms else m ∷ rest

unfoldable pub sorted : List ℕ → List ℕ
unfolding insert_sorted
sorted [] = []
sorted (n ∷ ns) = insert_sorted n (sorted ns)

-- `now - bucket_seen.get(b, now) >= grace`, where a bucket not seen yet is not idle unless the grace
-- is zero.
unfoldable pub is_idle : Config → ℕ → Option ℕ → Bool
is_idle c now none = leb c.grace_ns 0
is_idle c now (some then') = leb (then' + c.grace_ns) now

-- The test of a sweep: after a chunk also the buckets behind the cutoff go. A negative cutoff is 0.
unfoldable pub is_due : Config → Bool → ℕ → ℕ → State → Bool
unfolding is_idle
is_due c after_chunk now b s =
    (after_chunk && ltb b ((s.last_ts - c.grace_ns) / c.bucket_ns))
    || is_idle c now (get ℕ_discrete b s.seen)

unfoldable pub settle : Config → ℕ → State → State
settle c b s = let s' = finalize c b s in record s' { seen = pop ℕ_discrete b s'.seen }

unfoldable pub sweep_over : Config → Bool → ℕ → List ℕ → State → State
unfolding is_due settle
sweep_over c after_chunk now [] s = s
sweep_over c after_chunk now (b ∷ bs) s =
    sweep_over c after_chunk now bs (if is_due c after_chunk now b s then settle c b s else s)

unfoldable pub sweep : Config → Bool → ℕ → State → State
unfolding sweep_over keys sorted
sweep c after_chunk now s = sweep_over c after_chunk now (sorted (keys s.buckets)) s

unfoldable pub mark_seen : ℕ → List ℕ → Dict ℕ ℕ → Dict ℕ ℕ
mark_seen now [] seen = seen
mark_seen now (b ∷ bs) seen = mark_seen now bs (put ℕ_discrete b now seen)

-- What happens after the frames of a chunk.
unfoldable pub after_chunk : Config → ℕ → State → State
unfolding mark_seen sweep
after_chunk c now s =
    sweep c true now (record s { seen = mark_seen now s.seen_in_chunk s.seen; seen_in_chunk = [] })

-- A wake-up of the loop: the timeout of `select`, or a chunk, each with the time of the clock.
pub data Tick : Type 0 where
  idle : ℕ → Tick
  chunk : ℕ → List ℕ → Tick

unfoldable pub finalize_all : Config → List ℕ → State → State
finalize_all c [] s = s
finalize_all c (b ∷ bs) s = finalize_all c bs (finalize c b s)

pub data Ending : Type 0 where
  ended : State → Ending
  exited : Exit → State → Ending

-- The end of the stream: a rest of a frame is an error, else the buckets that are left are judged.
unfoldable pub close_stream : Config → List ℕ → State → Ending
unfolding finalize_all keys sorted
close_stream c [] s = ended (finalize_all c (sorted (keys s.buckets)) s)
close_stream c (x ∷ xs) s = exited (truncated_frame (length (x ∷ xs))) s

unfoldable pub after_run : Config → ℕ → Progress Exit State → (List ℕ → State → Ending) → Ending
unfolding after_chunk
after_run c now (stopped e s) k = exited e s
after_run c now (more s rest) k = k rest (after_chunk c now s)

unfoldable pub detect : Config → List Tick → List ℕ → State → Ending
unfolding close_stream after_run run sweep
detect c [] buf s = close_stream c buf s
detect c (idle now ∷ ticks) buf s = detect c ticks buf (sweep c false now s)
detect c (chunk now bytes ∷ ticks) buf s =
    after_run c now (run check_frame (handle_event c) (buf ++ bytes) s) (detect c ticks)
