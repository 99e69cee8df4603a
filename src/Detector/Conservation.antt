-- ===== src/Detector/Conservation.antt =====
-- detect2.py: a whole run counts every system call once.
use e_bpf_based_kernel_ai_se.Prelude.{
  ℕ, ◌+◌, ◌≡◌, refl, ap, sym, subst, ◌∙◌, List, [], ◌∷◌, ◌++◌, Option, none, some, Bool, true,
  false, ◌||◌, if◌then◌else◌, ◌==◌, length, ℕ_discrete, take, arith, Bool-cases, inl, inr,
  take-append_le,
}
use e_bpf_based_kernel_ai_se.Dict.{Dict, get, Distinct}
use e_bpf_based_kernel_ai_se.Dict.Laws.{Distinct-pop, get-pop}
use e_bpf_based_kernel_ai_se.Dict.Sums.{total}
use e_bpf_based_kernel_ai_se.Chunks.{
  Progress, more, stopped, Handled, handled, refused, and_then, run, feed, joined,
}
use e_bpf_based_kernel_ai_se.Chunks.Laws.{feed-joined, feed-cons, feed-nil}
use e_bpf_based_kernel_ai_se.Chunks.Simulation.{SameHandled, SameProgress, run-same}
use e_bpf_based_kernel_ai_se.Detector.Event.{
  Exit, truncated_frame, Header, header_of, check_frame, check_event,
}
use e_bpf_based_kernel_ai_se.Detector.State.{Procs, Config, State, start, finalize}
use e_bpf_based_kernel_ai_se.Detector.Buckets.{handle_checked, handle_event, is_in}
use e_bpf_based_kernel_ai_se.Detector.Stream.{
  keys, insert_sorted, sorted, is_due, settle, sweep_over, sweep, after_chunk, Tick, idle, chunk,
  finalize_all, Ending, ended, exited, close_stream, after_run, detect,
}
use e_bpf_based_kernel_ai_se.Detector.Pending.{
  judged, counted, known_call, note_event-counted, finalize-counted, calls, no_buckets-calls,
  start-counted,
}

-- The reference: a plain count of the known calls over the frames of a stream.
abbrev pub count_checked : Config → Header → List ℕ → Option Exit → ℕ → Handled Exit ℕ
count_checked c h ev (some e) n = refused e n
count_checked c h ev none n =
    if h.etype == 14 then handled n else handled (n + known_call c h.etype ev)

abbrev pub count_event : Config → ℕ → List ℕ → ℕ → Handled Exit ℕ
count_event c psize rest n =
    let ev = take psize rest in
    count_checked c (header_of ev) ev (check_event psize (header_of ev)) n

-- The bytes of the chunks among the ticks.
abbrev pub chunks_of : List Tick → List (List ℕ)
chunks_of [] = []
chunks_of (idle now ∷ ts) = chunks_of ts
chunks_of (chunk now bytes ∷ ts) = bytes ∷ chunks_of ts

-- A state and the plain count at the same point of the stream.
record Agrees (s : State) (n : ℕ) : Type 0 where
  distinct : Distinct ℕ_discrete s.buckets
  number : counted s ≡ n

module _ (c : Config) where
  checked-same :
      (h : Header) (ev : List ℕ) (o : Option Exit) (s : State) (n : ℕ)
      → Agrees s n
      → SameHandled Agrees (handle_checked c h ev o s) (count_checked c h ev o n)
  unfolding handle_checked
  checked-same h ev (some e) s n a = (refl, a)
  checked-same h ev none s n a = elim (Bool-cases (h.etype == 14)) [
    | inl health ↦ rw health a
    | inr event ↦
        let (d, k) = note_event-counted c h ev s a.distinct in
        rw event (record { distinct = d; number = omega (arith, k, a.number) })
  ]

  event-same :
      (m : ℕ) (rest : List ℕ) (s : State) (n : ℕ)
      → Agrees s n
      → SameHandled Agrees (handle_event c m rest s) (count_event c m rest n)
  unfolding handle_event
  event-same m rest s n a =
      checked-same (header_of (take m rest)) (take m rest) (check_event m (header_of (take m rest)))
        s n a

  finalize-Agrees : (b : ℕ) (s : State) (n : ℕ) → Agrees s n → Agrees (finalize c b s) n
  finalize-Agrees b s n a =
      let (p, k) = finalize-counted c b s a.distinct in
      record {
        distinct =
            subst (Distinct ℕ_discrete) (sym p) (Distinct-pop ℕ_discrete b s.buckets a.distinct);
        number = k ∙ a.number;
      }

  settle-Agrees : (b : ℕ) (s : State) (n : ℕ) → Agrees s n → Agrees (settle c b s) n
  unfolding settle
  settle-Agrees b s n a =
      let f = finalize-Agrees b s n a in record { distinct = f.distinct; number = f.number }

  sweep_over-Agrees :
      (after : Bool) (now : ℕ) (bs : List ℕ) (s : State) (n : ℕ)
      → Agrees s n
      → Agrees (sweep_over c after now bs s) n
  unfolding sweep_over
  sweep_over-Agrees after now [] s n a = a
  sweep_over-Agrees after now (b ∷ bs) s n a = elim (Bool-cases (is_due c after now b s)) [
    | inl due ↦ rw due (sweep_over-Agrees after now bs (settle c b s) n (settle-Agrees b s n a))
    | inr stays ↦ rw stays (sweep_over-Agrees after now bs s n a)
  ]

  sweep-Agrees :
      (after : Bool) (now : ℕ) (s : State) (n : ℕ) → Agrees s n → Agrees (sweep c after now s) n
  unfolding sweep
  sweep-Agrees after now s n a = sweep_over-Agrees after now (sorted (keys s.buckets)) s n a

  after_chunk-Agrees : (now : ℕ) (s : State) (n : ℕ) → Agrees s n → Agrees (after_chunk c now s) n
  unfolding after_chunk
  after_chunk-Agrees now s n a =
      sweep-Agrees true now _ n (record { distinct = a.distinct; number = a.number })

is_in-insert_sorted :
    (k n : ℕ) (ms : List ℕ) → is_in k (insert_sorted n ms) ≡ ((n == k) || is_in k ms)
unfolding is_in insert_sorted
is_in-insert_sorted k n [] = refl
is_in-insert_sorted k n (m ∷ ms) = ground (arith, is_in-insert_sorted k n ms)

is_in-sorted : (k : ℕ) (ns : List ℕ) → is_in k (sorted ns) ≡ is_in k ns
unfolding is_in sorted
is_in-sorted k [] = refl
is_in-sorted k (n ∷ ns) = ground (arith, is_in-insert_sorted k n (sorted ns), is_in-sorted k ns)

not_in-keys : (k : ℕ) (d : Dict ℕ Procs) → is_in k (keys d) ≡ false → get ℕ_discrete k d ≡ none
unfolding is_in keys get
not_in-keys k [] e = refl
not_in-keys k ((b, procs) ∷ d) e = ground (arith, not_in-keys k d)

no_keys : (d : Dict ℕ Procs) → ((k : ℕ) → get ℕ_discrete k d ≡ none) → d ≡ []
unfolding get
no_keys [] e = refl
no_keys ((b, procs) ∷ d) e = absurd (ground (arith, e b))

module _ (c : Config) where
  finalize_all-Agrees :
      (bs : List ℕ) (s : State) (n : ℕ)
      → Agrees s n
      → ((k : ℕ) → is_in k bs ≡ false → get ℕ_discrete k s.buckets ≡ none)
      → Agrees (finalize_all c bs s) n × ((finalize_all c bs s).buckets ≡ [])
  unfolding finalize_all is_in
  finalize_all-Agrees [] s n a e = (a, no_keys s.buckets (λ k. e k refl))
  finalize_all-Agrees (b ∷ bs) s n a e =
      let (p, _) = finalize-counted c b s a.distinct in
      finalize_all-Agrees bs (finalize c b s) n (finalize-Agrees c b s n a)
        (λ k q. rw p (ground (arith, get-pop ℕ_discrete k b s.buckets a.distinct, e k)))

  -- The end of a run against the plain count: the same refusal, a rest that is no whole frame, or
  -- verdicts that add up to the count.
  abbrev pub EndsAs : Ending → Progress Exit ℕ → Type 0
  EndsAs (ended s) (more n []) = judged s.verdicts ≡ n
  EndsAs (ended s) (more n (x ∷ xs)) = ⊥
  EndsAs (ended s) (stopped e n) = ⊥
  EndsAs (exited e s) (more n []) = ⊥
  EndsAs (exited e s) (more n (x ∷ xs)) = e ≡ truncated_frame (length (x ∷ xs))
  EndsAs (exited e s) (stopped f n) = e ≡ f

  close-EndsAs :
      (buf : List ℕ) (s : State) (n : ℕ) → Agrees s n → EndsAs (close_stream c buf s) (more n buf)
  unfolding close_stream
  close-EndsAs [] s n a =
      let (b, e) =
        finalize_all-Agrees (sorted (keys s.buckets)) s n a
          (λ k q. not_in-keys k s.buckets (sym (is_in-sorted k (keys s.buckets)) ∙ q)) in
      omega (arith, b.number, ap (total (total calls)) e, no_buckets-calls)
  close-EndsAs (x ∷ xs) s n a = refl

  after_run-EndsAs :
      (now : ℕ) (p : Progress Exit State) (q : Progress Exit ℕ) (k : List ℕ → State → Ending)
      (l : ℕ → List ℕ → Progress Exit ℕ)
      → SameProgress Agrees p q
      → ((rest : List ℕ) (s : State) (n : ℕ) → Agrees s n → EndsAs (k rest s) (l n rest))
      → EndsAs (after_run c now p k) (and_then q l)
  unfolding after_run
  after_run-EndsAs now (more s b) (more n b') k l (e, a) h =
      subst (λ (r : List ℕ). EndsAs (k b (after_chunk c now s)) (l n r)) e
        (h b (after_chunk c now s) n (after_chunk-Agrees c now s n a))
  after_run-EndsAs now (stopped e s) (stopped f n) k l (p, a) h = p
  after_run-EndsAs now (more s b) (stopped f n) k l a h = absurd a
  after_run-EndsAs now (stopped e s) (more n b) k l a h = absurd a

  detect-EndsAs :
      (ticks : List Tick) (buf : List ℕ) (s : State) (n : ℕ)
      → Agrees s n
      → EndsAs (detect c ticks buf s) (feed check_frame (count_event c) (chunks_of ticks) buf n)
  unfolding detect
  detect-EndsAs [] buf s n a =
      subst (EndsAs (close_stream c buf s)) (sym (feed-nil check_frame (count_event c) buf n))
        (close-EndsAs buf s n a)
  detect-EndsAs (idle now ∷ ticks) buf s n a =
      detect-EndsAs ticks buf (sweep c false now s) n (sweep-Agrees c false now s n a)
  detect-EndsAs (chunk now bytes ∷ ticks) buf s n a =
      subst (EndsAs (detect c (chunk now bytes ∷ ticks) buf s))
        (sym (feed-cons check_frame (count_event c) bytes (chunks_of ticks) buf n))
        (after_run-EndsAs now _ _ _ _
          (run-same Agrees check_frame (handle_event c) (count_event c) (event-same c)
            (buf ++ bytes) s n a)
          (λ rest s' n' a'. detect-EndsAs ticks rest s' n' a'))

  -- A run of the detector over any chunks and idle ticks ends as a plain pass over the whole stream
  -- does: it refuses with the same error, reports the same rest of a frame at the end, or ends with
  -- verdicts whose system calls add up to the known system calls of the stream. No call is lost or
  -- counted twice, however the stream is cut and whenever the buckets are judged.
  pub detect-counts :
      (ticks : List Tick)
      → EndsAs
          (detect c ticks [] start)
          (run check_frame (count_event c) (joined (chunks_of ticks)) 0)
  detect-counts ticks =
      subst (EndsAs (detect c ticks [] start))
        (feed-joined check_frame (count_event c)
          (λ n xs ys s h.
            ap (λ (ev : List ℕ). count_checked c (header_of ev) ev (check_event n (header_of ev)) s)
              (take-append_le n xs ys h))
          (chunks_of ticks) 0)
        (detect-EndsAs ticks [] start 0 (record { distinct = tt; number = start-counted }))
