-- ===== src/Behavior/History.antt =====
-- behavior_memory.py, `replay` over whole streams.
use e_bpf_based_kernel_ai_se.Prelude.{
  ℕ, zero, suc, ◌≤◌, ◌<◌, ◌≡◌, refl, ap, sym, ◌∙◌, ◌≢◌, List, [], Option, none, some, Bool, true,
  false, ◌==◌, length, drop, length-drop, arith, Bool-cases, inl, inr, String,
}
use e_bpf_based_kernel_ai_se.Bytes.{u32}
use e_bpf_based_kernel_ai_se.Behavior.State.{
  Slot, Identity, Task, Precursor, Memory, Result, ok, raise, init,
}
use e_bpf_based_kernel_ai_se.Dict.{get}
use e_bpf_based_kernel_ai_se.Behavior.Event.{Advisory}
use e_bpf_based_kernel_ai_se.Behavior.Observe.{observe}
use e_bpf_based_kernel_ai_se.Behavior.Stream.{
  Source, Read, end_of_stream, truncated, bytes, exact, Frame, no_frame, frame, bad_frame,
  payload_of, frame_after, read_frame, stuck, Replayed, with_advisory, observed, replay_step,
  replay_loop, replay,
}
use e_bpf_based_kernel_ai_se.Behavior.Stream.Short.{whole, exact-whole}
use e_bpf_based_kernel_ai_se.Behavior.Invariant.{Valid, task_at, evidence_at}
use e_bpf_based_kernel_ai_se.Behavior.Invariant.Forking.{clear-Valid}
use e_bpf_based_kernel_ai_se.Behavior.Invariant.Observing.{observe-Valid}

-- Two results of a read over streams that go on alike.
abbrev Alike : {A : Type 0} → A × Source → A × Source → Type 0
Alike (a, s) (b, t) = (a ≡ b) × (s.rest ≡ t.rest)

exact-Alike :
    (n : ℕ) (eof : Bool) (s t : Source) → s.rest ≡ t.rest → Alike (exact n eof s) (exact n eof t)
exact-Alike n eof s t e =
    let (a, b) = exact-whole n eof s in
    let (c, d) = exact-whole n eof t in
    (a ∙ (ap (whole n eof []) e ∙ sym c), b ∙ (ap (drop n) e ∙ sym d))

payload_of-Alike : (r q : Read × Source) → Alike r q → Alike (payload_of r) (payload_of q)
unfolding payload_of
payload_of-Alike (end_of_stream, s) (end_of_stream, t) (a, b) = (refl, b)
payload_of-Alike (truncated, s) (truncated, t) (a, b) = (refl, b)
payload_of-Alike (bytes v, s) (bytes w, t) (a, b) = (ground arith, b)
payload_of-Alike (r, s) (q, t) (a, b) = absurd (ground arith)

frame_after-Alike : (r q : Read × Source) → Alike r q → Alike (frame_after r) (frame_after q)
unfolding frame_after
frame_after-Alike (end_of_stream, s) (end_of_stream, t) (a, b) = (refl, b)
frame_after-Alike (truncated, s) (truncated, t) (a, b) = (refl, b)
frame_after-Alike (bytes v, s) (bytes w, t) (a, b) = ground (
  arith,
  payload_of-Alike (exact (u32 8 w) false s) (exact (u32 8 w) false t)
      (exact-Alike (u32 8 w) false s t b),
)
frame_after-Alike (r, s) (q, t) (a, b) = absurd (ground arith)

read_frame-Alike : (s t : Source) → s.rest ≡ t.rest → Alike (read_frame s) (read_frame t)
unfolding read_frame
read_frame-Alike s t e =
    frame_after-Alike (exact 12 true s) (exact 12 true t) (exact-Alike 12 true s t e)

step_congr :
    (f : Frame) (m : Memory) (k l : Memory → Replayed)
    → ((m' : Memory) → k m' ≡ l m')
    → replay_step f m k ≡ replay_step f m l
unfolding replay_step observed
step_congr no_frame m k l e = refl
step_congr (bad_frame c) m k l e = refl
step_congr (frame event) m k l e = go (observe event m)
  where
    go : (r : Memory × Result (Option Advisory)) → observed r k ≡ observed r l
    go (m', raise c) = refl
    go (m', ok o) = ap (with_advisory o) (e m')

replay_loop-same :
    (fuel : ℕ) (s t : Source) (m : Memory)
    → s.rest ≡ t.rest
    → replay_loop fuel s m ≡ replay_loop fuel t m
unfolding replay_loop
replay_loop-same zero s t m e = refl
replay_loop-same (suc fuel) s t m e =
    let (a, b) = read_frame-Alike s t e in
    ap (λ f. replay_step f m (λ m'. replay_loop fuel (read_frame s).1 m')) a
    ∙ step_congr (read_frame t).0 m _ _
        (λ m'. replay_loop-same fuel (read_frame s).1 (read_frame t).1 m' b)

-- Two sources that hold the same bytes give the same replay, whatever the sizes of their reads.
pub replay-same : (s t : Source) (m : Memory) → s.rest ≡ t.rest → replay s m ≡ replay t m
unfolding replay
replay-same s t m e =
    ap (λ (bs : List ℕ). replay_loop (suc (length bs)) s m) e
    ∙ replay_loop-same (suc (length t.rest)) s t m e

-- A frame takes at least its header from the stream.
payload_shrinks :
    (r : Read × Source) (n : ℕ) → length r.1.rest ≤ n → length (payload_of r).1.rest ≤ n
unfolding payload_of
payload_shrinks (end_of_stream, s) n h = h
payload_shrinks (truncated, s) n h = h
payload_shrinks (bytes v, s) n h = h

after_shrinks : (r : Read × Source) → length (frame_after r).1.rest ≤ length r.1.rest
unfolding frame_after
after_shrinks (end_of_stream, s) = omega arith
after_shrinks (truncated, s) = omega arith
after_shrinks (bytes v, s) = ground (
  arith,
  payload_shrinks (exact (u32 8 v) false s) (length s.rest)
      (omega (arith, ap length (exact-whole (u32 8 v) false s).1, length-drop (u32 8 v) s.rest)),
)

no_frame_at_end : (s : Source) (event : List ℕ) → length s.rest ≡ 0 → (read_frame s).0 ≢ frame event
unfolding read_frame frame_after
no_frame_at_end s event e f = ground (arith, (exact-whole 12 true s).0)

read_frame_shrinks :
    (s : Source) (event : List ℕ)
    → (read_frame s).0 ≡ frame event
    → length (read_frame s).1.rest < length s.rest
unfolding read_frame
read_frame_shrinks s event f = elim (Bool-cases (length s.rest == 0)) [
  | inl over ↦ absurd (no_frame_at_end s event (ground arith) f)
  | inr more ↦
      let some_left : 0 < length s.rest = ground arith in
      omega (
        arith,
        after_shrinks (exact 12 true s),
        ap length (exact-whole 12 true s).1,
        length-drop 12 s.rest,
      )
]

ending_of :
    (f : Frame) (m : Memory) (k : Memory → Replayed)
    → ((event : List ℕ) (m' : Memory) → f ≡ frame event → (k m').ending ≢ stuck)
    → (replay_step f m k).ending ≢ stuck
unfolding replay_step observed with_advisory
ending_of no_frame m k h = λ e. cc
ending_of (bad_frame c) m k h = λ e. cc
ending_of (frame event) m k h = go (observe event m)
  where
    go : (r : Memory × Result (Option Advisory)) → (observed r k).ending ≢ stuck
    go (m', raise c) = λ e. cc
    go (m', ok none) = h event m' refl
    go (m', ok (some a)) = h event m' refl

replay_loop-ends :
    (fuel : ℕ) (s : Source) (m : Memory)
    → length s.rest < fuel
    → (replay_loop fuel s m).ending ≢ stuck
unfolding replay_loop
replay_loop-ends zero s m h = absurd (omega arith)
replay_loop-ends (suc fuel) s m h = ending_of (read_frame s).0 m _ (λ event m' f.
    replay_loop-ends fuel (read_frame s).1 m' (omega (arith, read_frame_shrinks s event f)))

-- On every stream and from every memory the replay comes to an end of the program, complete or with
-- an error: the number of bytes is fuel enough.
pub replay-ends : (s : Source) (m : Memory) → (replay s m).ending ≢ stuck
unfolding replay
replay-ends s m = replay_loop-ends (suc (length s.rest)) s m (omega arith)

step-Valid :
    (f : Frame) (m : Memory) (k : Memory → Replayed)
    → Valid m
    → ((m' : Memory) → Valid m' → Valid (k m').memory)
    → Valid (replay_step f m k).memory
unfolding replay_step observed with_advisory
step-Valid no_frame m k v h = v
step-Valid (bad_frame c) m k v h = clear-Valid "invalid_input" true v
step-Valid (frame event) m k v h = go (observe event m) (observe-Valid event m v)
  where
    go : (r : Memory × Result (Option Advisory)) → Valid r.0 → Valid (observed r k).memory
    go (m', raise c) w = w
    go (m', ok none) w = h m' w
    go (m', ok (some a)) w = h m' w

replay_loop-Valid :
    (fuel : ℕ) (s : Source) (m : Memory) → Valid m → Valid (replay_loop fuel s m).memory
unfolding replay_loop
replay_loop-Valid zero s m v = v
replay_loop-Valid (suc fuel) s m v =
    step-Valid (read_frame s).0 m _ v (λ m' w. replay_loop-Valid fuel (read_frame s).1 m' w)

empty-Valid : (m : Memory) → 0 < m.max_tasks → 0 < m.ttl → m.tasks ≡ [] → m.evidence ≡ [] → Valid m
unfolding get
empty-Valid m cap ttl t e = record {
  inv = record {
    capacity = cap;
    retention = ttl;
    distinct_tasks = rw t tt;
    distinct_evidence = rw e tt;
    bounded = rw t (omega arith);
    ordered = rw e (omega arith);
    families = λ s u r g f. absurd (no_task s u g);
    alive = λ r p g. absurd (no_evidence r p g);
  };
  known = λ s u g z. absurd (no_task s u g);
}
  where
    no_task : (s : Slot) (u : Task) → task_at s m ≢ some u
    no_task s u = rw t (λ g. cc)

    no_evidence : (r : Identity) (p : Precursor) → evidence_at r m ≢ some p
    no_evidence r p = rw e (λ g. cc)

pub init-Valid :
    (b : Bool) (ttl cap : ℕ) (epoch : Option String) (uuid : String) (m : Memory)
    → init b ttl cap epoch uuid ≡ ok m
    → Valid m
unfolding init
init-Valid b ttl cap epoch uuid m e =
    empty-Valid m (ground arith) (ground arith) (ground arith) (ground arith)

-- A memory that the constructor accepts is well formed after the replay of any stream, also where
-- the replay ends with an error: the table holds at most `max_tasks` tasks, one for each slot; the
-- evidence is in the order of time; every family root is a live, usable entry; and all evidence
-- stands at such a root.
pub replay-Valid :
    (b : Bool) (ttl cap : ℕ) (epoch : Option String) (uuid : String) (m : Memory) (s : Source)
    → init b ttl cap epoch uuid ≡ ok m
    → Valid (replay s m).memory
unfolding replay
replay-Valid b ttl cap epoch uuid m s e =
    replay_loop-Valid (suc (length s.rest)) s m (init-Valid b ttl cap epoch uuid m e)
