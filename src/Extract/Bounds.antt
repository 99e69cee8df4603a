-- ===== src/Extract/Bounds.antt =====
-- extract.py: the sizes of windows and samples over a whole capture.
use e_bpf_based_kernel_ai_se.Prelude.{
  ℕ, suc, ◌≤◌, ◌<◌, ◌≡◌, refl, ap, sym, subst, List, [], ◌∷◌, ◌++◌, Option, none, some, Bool, true,
  false, ltb, leb, ◌==◌, ◌||◌, length, arith, Bool-cases, Option-cases, inl, inr, All,
  length-append,
}
use e_bpf_based_kernel_ai_se.Bytes.{u16, u32}
use e_bpf_based_kernel_ai_se.Dict.{Dict, get, put}
use e_bpf_based_kernel_ai_se.Dict.Laws.{get-put, put-put}
use e_bpf_based_kernel_ai_se.Dict.Values.{Values, Values-put, Values-pop, Values-get}
use e_bpf_based_kernel_ai_se.Chunks.{Progress, more, stopped, feed}
use e_bpf_based_kernel_ai_se.Chunks.Keeps.{AfterEvent, AfterChunk, feed-keeps}
use e_bpf_based_kernel_ai_se.Extract.State.{Key, key_discrete, Options, State, start, list_at}
use e_bpf_based_kernel_ai_se.Extract.Flush.{forget, stratum_of, flush}
use e_bpf_based_kernel_ai_se.Extract.Events.{
  Exit, check_frame, append_at, key_of, note_call, note_event, reach, handle_event, queued,
  flush_all, finish, after_capture, extract,
}
use e_bpf_based_kernel_ai_se.Extract.Windows.{
  limit, IsSized, IsSample, Kept, Inv, flush_as-Kept, flush_as-sysq,
}

module _ (o : Options) (window : 0 < o.window) where
  abbrev IsShort : List ℕ → Type 0
  IsShort seq = length seq < limit o

  list_at-IsShort : (k : Key) (d : Dict Key (List ℕ)) → Values IsShort d → IsShort (list_at k d)
  unfolding list_at
  list_at-IsShort k d v = elim (Option-cases (get key_discrete k d)) [
    | inl e ↦ rw (e, list_at) (omega arith)
    | inr (q, e) ↦ rw (e, list_at) (Values-get IsShort key_discrete k q d v e)
  ]

  list_at-append_at :
      (k : Key) (n : ℕ) (d : Dict Key (List ℕ))
      → list_at k (append_at k n d) ≡ list_at k d ++ n ∷ []
  unfolding list_at append_at
  list_at-append_at k n d = ground (arith, get-put key_discrete k k (list_at k d ++ n ∷ []) d)

  -- The state with the call appended, before the test for a full window.
  module _ (k : Key) (n : ℕ) (s : State) (i : Inv o s) where
    abbrev appended : State
    appended = record s { total_sys = suc s.total_sys; sysq = append_at k n s.sysq }

    appended-Kept : Kept o appended
    appended-Kept = record {
      out = i.kept.out;
      strata = i.kept.strata;
      reservoir = i.kept.reservoir;
    }

    appended-length : length (list_at k appended.sysq) ≤ limit o
    appended-length = omega (
      arith,
      ap length (list_at-append_at k n s.sysq),
      length-append (list_at k s.sysq) (n ∷ []),
      list_at-IsShort k s.sysq i.queues,
    )

    appended-Values : IsShort (list_at k appended.sysq) → Values IsShort appended.sysq
    unfolding append_at
    appended-Values h =
        Values-put IsShort key_discrete k (list_at k s.sysq ++ n ∷ []) s.sysq i.queues
          (subst IsShort (list_at-append_at k n s.sysq) h)

    emptied-Values : Values IsShort (put key_discrete k [] appended.sysq)
    unfolding append_at
    emptied-Values =
        rw (put-put key_discrete k [] (list_at k s.sysq ++ n ∷ []) s.sysq)
          (Values-put IsShort key_discrete k [] s.sysq i.queues (omega arith))

    flush-Inv : Inv o (flush o false k appended)
    unfolding flush
    flush-Inv = elim (Bool-cases (ltb (length (list_at k appended.sysq)) o.min_len)) [
      | inl short ↦
          rw short (record { queues = appended-Values (ground arith); kept = appended-Kept })
      | inr long ↦ rw long (record {
        queues =
            subst (Values IsShort) (sym (flush_as-sysq o k (stratum_of o k) appended))
              emptied-Values;
        kept =
            flush_as-Kept o k (stratum_of o k) appended (ground arith) appended-length
              appended-Kept;
      })
    ]

  note_call-Inv : (k : Key) (f : Option ℕ) (s : State) → Inv o s → Inv o (note_call o k f s)
  unfolding note_call
  note_call-Inv k none s i = record {
    queues = i.queues;
    kept = record { out = i.kept.out; strata = i.kept.strata; reservoir = i.kept.reservoir };
  }
  note_call-Inv k (some n) s i =
      elim (Bool-cases (leb o.window (length (list_at k (append_at k n s.sysq))))) [
        | inl full' ↦ rw full' (flush-Inv k n s i)
        | inr part ↦ rw part (record {
          queues = appended-Values k n s i (ground arith);
          kept = appended-Kept k n s i;
        })
      ]

  same-Inv :
      (s t : State)
      → s.sysq ≡ t.sysq
      → s.out ≡ t.out
      → s.strata ≡ t.strata
      → s.reservoir ≡ t.reservoir
      → Inv o s
      → Inv o t
  same-Inv s t q u v w i = record {
    queues = subst (Values IsShort) q i.queues;
    kept = record {
      out = subst (All (IsSized o)) u i.kept.out;
      strata = subst (Values (IsSample o o.max_per_unit)) v i.kept.strata;
      reservoir = subst (IsSample o o.max_records) w i.kept.reservoir;
    };
  }

  note_event-Inv : (etype : ℕ) (ev : List ℕ) (s : State) → Inv o s → Inv o (note_event o etype ev s)
  unfolding note_event
  note_event-Inv etype ev s i = elim (Bool-cases (etype == 4)) [
    | inl call ↦ rw call (
        note_call-Inv (key_of ev) (o.number_map (u32 88 ev)) _ (same-Inv s _ refl refl refl refl i))
    | inr a ↦ elim (Bool-cases (etype == 6)) [
      | inl b ↦ rw (a, b) (same-Inv s _ refl refl refl refl i)
      | inr b ↦ elim (Bool-cases (etype == 8)) [
        | inl d ↦ rw (a, b, d) (same-Inv s _ refl refl refl refl i)
        | inr d ↦ elim (Bool-cases (etype == 2)) [
          | inl e ↦ rw (a, b, d, e) (same-Inv s _ refl refl refl refl i)
          | inr e ↦ elim (Bool-cases (etype == 14)) [
            | inl h ↦ rw (a, b, d, e, h) (same-Inv s _ refl refl refl refl i)
            | inr h ↦ rw (a, b, d, e, h) i
          ]
        ]
      ]
    ]
  ]

  handle_event-Inv :
      (n : ℕ) (ev : List ℕ) (s : State) → Inv o s → AfterEvent (Inv o) (handle_event o n ev s)
  unfolding handle_event
  handle_event-Inv n ev s i =
      let s' = record s { frames = suc s.frames } in
      let i' = same-Inv s s' refl refl refl refl i in
      elim (Bool-cases (ltb (length ev) 72 || ltb (length ev) (reach (u16 70 ev)))) [
        | inl short ↦ rw short i'
        | inr whole ↦ rw whole (note_event-Inv (u16 70 ev) ev s' i')
      ]

  flush-true-Inv : (k : Key) (s : State) → Inv o s → Inv o (flush o true k s)
  unfolding flush forget
  flush-true-Inv k s i =
      let h : length (list_at k s.sysq) ≤ limit o =
        omega (arith, list_at-IsShort k s.sysq i.queues) in
      elim (Bool-cases (ltb (length (list_at k s.sysq)) o.min_len)) [
        | inl short ↦ rw short (record {
          queues = Values-pop IsShort key_discrete k s.sysq i.queues;
          kept = record { out = i.kept.out; strata = i.kept.strata; reservoir = i.kept.reservoir };
        })
        | inr long ↦ rw long (record {
          queues =
              subst (Values IsShort) (sym (flush_as-sysq o k (stratum_of o k) s))
                (Values-put IsShort key_discrete k [] s.sysq i.queues (omega arith));
          kept = flush_as-Kept o k (stratum_of o k) s (ground arith) h i.kept;
        })
      ]

  flush_all-Inv : (ks : List Key) (s : State) → Inv o s → Inv o (flush_all o ks s)
  unfolding flush_all
  flush_all-Inv [] s i = i
  flush_all-Inv (k ∷ ks) s i = flush_all-Inv ks (flush o true k s) (flush-true-Inv k s i)

  after_capture-Inv :
      (b : Bool) (p : Progress Exit State) → AfterChunk (Inv o) p → Inv o (after_capture o b p).1
  unfolding after_capture finish
  after_capture-Inv b (more s rest) i = flush_all-Inv (queued s.sysq) s i
  after_capture-Inv b (stopped e s) i = i

  start-Inv : Inv o start
  start-Inv = record {
    queues = tt;
    kept = record { out = tt; strata = tt; reservoir = (tt, omega arith) };
  }

  -- With a window of at least one call, whatever the capture holds and however it is read: every
  -- record that is written or sampled has at least `min_len` system calls and at most the larger of
  -- `window` and `min_len`; no unit has more than `max_per_unit` records in its sample, and the
  -- sample over all units has at most `max_records`.
  pub extract-Kept :
      (ignore_loss : Bool) (chunks : List (List ℕ)) → Kept o (extract o ignore_loss chunks).1
  unfolding extract
  extract-Kept ignore_loss chunks =
      (after_capture-Inv ignore_loss (feed check_frame (handle_event o) chunks [] start) (
        feed-keeps (Inv o) check_frame (handle_event o) handle_event-Inv chunks [] start
          start-Inv)).kept
