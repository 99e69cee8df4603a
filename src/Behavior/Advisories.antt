-- ===== src/Behavior/Advisories.antt =====
-- behavior_memory.py, `observe`: what an advisory says of the memory before and after the event.
use e_bpf_based_kernel_ai_se.Prelude.{
  ℕ, ◌+◌, ◌<◌, ◌≡◌, refl, ap, sym, ◌∙◌, inl, inr, List, Option, none, some, true, leb, arith,
  Bool-cases, Option-cases,
}
use e_bpf_based_kernel_ai_se.Prelude.{String, subst}
use e_bpf_based_kernel_ai_se.Behavior.Invariant.Forking.{tallied-Valid}
use e_bpf_based_kernel_ai_se.Dict.{get}
use e_bpf_based_kernel_ai_se.Dict.Laws.{get-pop_self}
use e_bpf_based_kernel_ai_se.Behavior.State.{
  Slot, Identity, Task, Precursor, Memory, Result, ok, raise, identity_discrete, tallied, clear,
  expire,
}
use e_bpf_based_kernel_ai_se.Behavior.Replay.{continue_with, pure}
use e_bpf_based_kernel_ai_se.Behavior.Tasks.{root_or, slot_of, task, block_thread}
use e_bpf_based_kernel_ai_se.Behavior.Forks.{fork}
use e_bpf_based_kernel_ai_se.Behavior.Event.{Header, key_of, header_of, Outcome, quiet, Advisory}
use e_bpf_based_kernel_ai_se.Behavior.Activity.{advise, correlate, observe_open, observe_connect}
use e_bpf_based_kernel_ai_se.Behavior.Observe.{
  observe_health, observe_exit, observe_activity, observe_task, note_untracked, observe_event,
  runs_backwards, observe_ordered, observe,
}
use e_bpf_based_kernel_ai_se.Behavior.Invariant.{Inv, Valid, task_at, evidence_at}
use e_bpf_based_kernel_ai_se.Behavior.Invariant.Admission.{TaskPost}
use e_bpf_based_kernel_ai_se.Behavior.Invariant.Admitting.{task-TaskPost}
use e_bpf_based_kernel_ai_se.Behavior.Invariant.Roots.{root_resolves}
use e_bpf_based_kernel_ai_se.Behavior.Invariant.Observing.{note_untracked-Valid, later-Inv}
use e_bpf_based_kernel_ai_se.Behavior.Invariant.Expiry.{expire-Inv, evidence_at-expire-some}

-- An advisory against the memory before the event and the one after it.
pub record Rests (base : Memory) (ts : ℕ) (kind : ℕ) (m' : Memory) (a : Advisory) : Type 0 where
  pub attempt : a.attempt_ns ≡ ts
  pub connect : kind ≡ 8
  pub evidence :
      evidence_at a.root_identity base
      ≡ some (record { ts = a.precursor_ns; source = a.precursor_identity })
  pub earlier : a.precursor_ns < a.attempt_ns
  pub young : a.attempt_ns < a.precursor_ns + base.ttl
  pub used : evidence_at a.root_identity m' ≡ none

pub IsSound : Memory → Header → Outcome → Type 0
IsSound base h (m', raise e) = Unit
IsSound base h (m', ok none) = Unit
IsSound base h (m', ok (some a)) = Rests base h.ts h.kind m' a

IsSound-quiet : (base : Memory) (h : Header) (m : Memory) → IsSound base h (quiet m)
unfolding IsSound
IsSound-quiet base h m = tt

-- The memory `m` that a handler works on holds only evidence of `base` that is within the retention.
abbrev Derives : Memory → ℕ → Memory → Type 0
Derives base ts m =
    (q : Identity) (p : Precursor)
    → evidence_at q m ≡ some p
    → (evidence_at q base ≡ some p) × (ts < p.ts + base.ttl)

note_untracked-evidence : (h : Header) (m : Memory) → (note_untracked h m).evidence ≡ m.evidence
unfolding note_untracked
note_untracked-evidence h m = ground arith

IsSound-raise : (base : Memory) (h : Header) (m : Memory) (e : String) → IsSound base h (m, raise e)
unfolding IsSound
IsSound-raise base h m e = tt

IsSound-tallied :
    (k : String) (base : Memory) (h : Header) (r : Outcome)
    → IsSound (tallied k base) h r
    → IsSound base h r
unfolding IsSound
IsSound-tallied k base h (m', raise e) s = tt
IsSound-tallied k base h (m', ok none) s = tt
IsSound-tallied k base h (m', ok (some a)) s = record {
  attempt = s.attempt;
  connect = s.connect;
  evidence = s.evidence;
  earlier = s.earlier;
  young = s.young;
  used = s.used;
}

module _ (base : Memory) (h : Header) where
  correlate-IsSound :
      (key family : Identity) (m : Memory)
      → Inv m
      → Derives base h.ts m
      → h.kind ≡ 8
      → IsSound base h (correlate h.ts key family m)
  unfolding correlate advise IsSound
  correlate-IsSound key family m i d k = elim (Option-cases (evidence_at family m)) [
    | inl e ↦ rw (e, correlate) tt
    | inr (p, e) ↦ elim (Bool-cases (leb h.ts p.ts)) [
      | inl early ↦ rw (e, correlate, early) tt
      | inr late ↦
          rw (e, correlate, late)
            (record {
              attempt = refl;
              connect = k;
              evidence = (d family p e).0;
              earlier = ground arith;
              young = (d family p e).1;
              used = get-pop_self identity_discrete family m.evidence i.distinct_evidence;
            })
    ]
  ]

  observe_connect-IsSound :
      (event : List ℕ) (key family : Identity) (m : Memory)
      → Inv m
      → Derives base h.ts m
      → h.kind ≡ 8
      → IsSound base h (observe_connect event h key family m)
  unfolding observe_connect
  observe_connect-IsSound event key family m i d k = ground (
    arith,
    correlate-IsSound key family m i d k,
    IsSound-quiet base h (tallied "uncertain_destination" m),
    IsSound-quiet base h (tallied "unsupported_family" m),
    IsSound-quiet base h (tallied "loopback_attempts" m),
    IsSound-quiet base h (tallied "unsupported_destination" m),
  )

  observe_activity-IsSound :
      (event : List ℕ) (key family : Identity) (m : Memory)
      → Inv m
      → Derives base h.ts m
      → IsSound base h (observe_activity event h key (m, some family))
  unfolding observe_activity
  observe_activity-IsSound event key family m i d = ground (
    arith,
    observe_connect-IsSound event key family m i d,
    IsSound-quiet base h m,
    IsSound-quiet base h (observe_open event h key family m),
  )

  forked :
      (r : Memory × Result (Unit {0}))
      → IsSound base h (continue_with {B = Option Advisory} (λ _. pure none) r)
  unfolding IsSound
  forked (m, ok _) = tt
  forked (m, raise e) = tt

  observe_task-IsSound :
      (event : List ℕ) (state : Task) (m : Memory)
      → Inv m
      → task_at (slot_of (key_of h m)) m ≡ some state
      → Derives base h.ts m
      → IsSound base h (observe_task event h state m)
  unfolding observe_task
  observe_task-IsSound event state m i at d =
      let key = key_of h m in
      ground (
        arith,
        forked (fork event key state h.flags m),
        root_resolves key (slot_of key) state m i at,
        observe_activity-IsSound event key (root_or state.root key) m i d,
        IsSound-quiet base h (observe_exit key state m),
        IsSound-quiet base h (tallied "blocked_thread_generation" m),
      )

  task_after :
      (event : List ℕ) (m : Memory) (r : Memory × Result Task)
      → TaskPost (record { cgroup = h.cgroup; pid = h.pid }) h.start m r
      → Derives base h.ts m
      → IsSound base h (continue_with (observe_task event h) r)
  unfolding key_of IsSound
  task_after event m (m', raise e) p d = tt
  task_after event m (m', ok state) a d =
      observe_task-IsSound event state m' a.inv a.entry (λ q p e. d q p (a.evidence q p e))

  observe_event-IsSound :
      (event : List ℕ) (m : Memory)
      → Valid m
      → Derives base h.ts m
      → IsSound base h (observe_event event h m)
  unfolding observe_event
  observe_event-IsSound event m v d =
      let slot : Slot = record { cgroup = h.cgroup; pid = h.pid } in
      let n = note_untracked h m in
      let w = note_untracked-Valid h m v in
      ground (
        arith,
        IsSound-quiet base h (observe_health event m),
        IsSound-quiet base h (clear "uncertain_process" true m),
        IsSound-quiet base h (clear "unresolved_generation" true m),
        forked (block_thread (record { cgroup = h.cgroup; pid = h.tgid }) m),
        task_after event n (task slot h.start n) (task-TaskPost slot h.start n w.inv (inl w.known))
            (λ q p e. d q p (ap (get identity_discrete q) (sym (note_untracked-evidence h m)) ∙ e)),
      )

observe_ordered-IsSound :
    (event : List ℕ) (h : Header) (m : Memory) → Valid m → IsSound m h (observe_ordered event h m)
unfolding observe_ordered
observe_ordered-IsSound event h m v = elim (Bool-cases (runs_backwards m.last_ts h.ts)) [
  | inl back ↦ rw back (IsSound-quiet m h _)
  | inr on ↦
      let n : Memory = record m { last_ts = some h.ts } in
      let i = later-Inv h.ts m v.inv on in
      rw on (
        observe_event-IsSound m h event (expire h.ts n)
          (record { inv = expire-Inv h.ts n i; known = unfold expire in v.known })
          (λ q p e. evidence_at-expire-some q p h.ts n i e))
]

observe-IsSound :
    (event : List ℕ) (m : Memory) → Valid m → IsSound m (header_of event) (observe event m)
unfolding observe
observe-IsSound event m v =
    let h = header_of event in
    ground (
      arith,
      IsSound-raise m h (clear "invalid_input" true m) "INVALID_EVENT_LENGTH",
      IsSound-raise m h (clear "invalid_input" true m) "INVALID_EVENT_SCHEMA_OR_LENGTH",
      IsSound-tallied "frames" m h (observe_ordered event h (tallied "frames" m))
          (observe_ordered-IsSound event h (tallied "frames" m) (tallied-Valid "frames" v)),
    )

-- If `observe` returns an advisory from a well-formed memory, the event is a connect (kind 8) and
-- the attempt time is its timestamp; before the event the memory held, at the family root that the
-- advisory names, exactly the precursor that the advisory reports; the precursor is strictly
-- earlier than the attempt and strictly within the retention; and after the event the evidence at
-- that root is gone.
pub observe-advisory :
    (event : List ℕ) (m m' : Memory) (a : Advisory)
    → Valid m
    → observe event m ≡ (m', ok (some a))
    → Rests m (header_of event).ts (header_of event).kind m' a
unfolding IsSound
observe-advisory event m m' a v e =
    subst (IsSound m (header_of event)) e (observe-IsSound event m v)
