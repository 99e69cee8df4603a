-- ===== src/Behavior/Invariant/Observing.antt =====
-- behavior_memory.py: the invariant across the handlers of `observe`, and `observe` itself.
use e_bpf_based_kernel_ai_se.Prelude.{
  ℕ, ◌≤◌, ◌≡◌, refl, ap, ◌∙◌, ◌⊎◌, inl, inr, ◌≢◌, List, Option, none, some, Bool, true, false, not,
  leb, ◌==◌, if◌then◌else◌, arith, Bool-cases, Option-cases,
}
use e_bpf_based_kernel_ai_se.Prelude.{◌||◌, bit_and}
use e_bpf_based_kernel_ai_se.Bytes.{u32, slice, has_nul}
use e_bpf_based_kernel_ai_se.Behavior.Credential.{is_credential}
use e_bpf_based_kernel_ai_se.Behavior.Replay.{pure}
use e_bpf_based_kernel_ai_se.Dict.{pop}
use e_bpf_based_kernel_ai_se.Dict.Laws.{Distinct-pop, get-pop}
use e_bpf_based_kernel_ai_se.Behavior.State.{
  Slot, Identity, Task, Memory, Result, ok, raise, identity_discrete, tallied, clear, expire,
}
use e_bpf_based_kernel_ai_se.Behavior.Replay.{continue_with}
use e_bpf_based_kernel_ai_se.Behavior.Tasks.{root_or, slot_of, task, block_thread}
use e_bpf_based_kernel_ai_se.Behavior.Forks.{fork}
use e_bpf_based_kernel_ai_se.Behavior.Event.{Header, key_of, header_of, Advisory}
use e_bpf_based_kernel_ai_se.Behavior.Activity.{
  path_of, observe_open, advise, correlate, observe_connect,
}
use e_bpf_based_kernel_ai_se.Behavior.Observe.{
  health_changed, loss_of, observe_health, observe_activity, observe_task, note_untracked,
  observe_event, runs_backwards, observe_ordered, observe,
}
use e_bpf_based_kernel_ai_se.Behavior.Invariant.{latest, task_at, evidence_at, Heads, Inv, Valid}
use e_bpf_based_kernel_ai_se.Behavior.Invariant.Shared.{Inv-rest, Forgets-Known, Ascends-pop}
use e_bpf_based_kernel_ai_se.Behavior.Invariant.Admission.{TaskPost}
use e_bpf_based_kernel_ai_se.Behavior.Invariant.Admitting.{task-TaskPost, Admitted-Known}
use e_bpf_based_kernel_ai_se.Behavior.Invariant.Roots.{root_resolves, block_thread-Valid}
use e_bpf_based_kernel_ai_se.Behavior.Invariant.Forking.{clear-Valid, tallied-Valid, fork-Valid}
use e_bpf_based_kernel_ai_se.Behavior.Invariant.Expiry.{Ascends-higher, expire-Inv}
use e_bpf_based_kernel_ai_se.Behavior.Invariant.Steps.{
  family_lives, observe_exit-Valid, remember-Valid,
}

pop_evidence-Valid :
    (q : Identity) (m : Memory)
    → Valid m
    → Valid (record m { evidence = pop identity_discrete q m.evidence })
pop_evidence-Valid q m v = record {
  inv = record {
    capacity = v.inv.capacity;
    retention = v.inv.retention;
    distinct_tasks = v.inv.distinct_tasks;
    distinct_evidence = Distinct-pop identity_discrete q m.evidence v.inv.distinct_evidence;
    bounded = v.inv.bounded;
    ordered = Ascends-pop q 0 m.evidence _ v.inv.ordered;
    families = λ s t r e f.
        let (h, k, x, y) = v.inv.families s t r e f in
        (
          h,
          record { epoch = k.epoch; at = k.at; generation = k.generation; usable = k.usable },
          x,
          y,
        );
    alive = λ r p e.
        let (h, k, x) =
          v.inv.alive r p
            (ground (arith, get-pop identity_discrete r q m.evidence v.inv.distinct_evidence)) in
        (h, record { epoch = k.epoch; at = k.at; generation = k.generation; usable = k.usable }, x);
  };
  known = v.known;
}

correlate-Valid :
    (ts : ℕ) (key family : Identity) (m : Memory) → Valid m → Valid (correlate ts key family m).0
unfolding correlate advise
correlate-Valid ts key family m v =
    let v' = tallied-Valid "non_loopback_connect_attempts" v in
    elim (Option-cases (evidence_at family m)) [
      | inl e ↦ rw (e, correlate) (tallied-Valid "connect_without_direct_precursor" v')
      | inr (p, e) ↦ elim (Bool-cases (leb ts p.ts)) [
        | inl early ↦ rw (e, correlate, early) (clear-Valid "unsafe_ordering" true v')
        | inr late ↦
            rw (e, correlate, late)
              (tallied-Valid _ (tallied-Valid "advisories" (pop_evidence-Valid family _ v')))
      ]
    ]

observe_connect-Valid :
    (event : List ℕ) (h : Header) (key family : Identity) (m : Memory)
    → Valid m
    → Valid (observe_connect event h key family m).0
unfolding observe_connect
observe_connect-Valid event h key family m v = ground (
  arith,
  tallied-Valid "uncertain_destination" v,
  tallied-Valid "unsupported_family" v,
  tallied-Valid "loopback_attempts" v,
  tallied-Valid "unsupported_destination" v,
  correlate-Valid h.ts key family m v,
)

one_of :
    {A : Type 0} (P : A → Type 0) (t u v : Bool) {a b c d : A}
    → P a
    → P b
    → P c
    → P d
    → P (if t then a else if u then b else if v then c else d)
one_of P true u v a b c d = a
one_of P false true v a b c d = b
one_of P false false true a b c d = c
one_of P false false false a b c d = d

observe_health-Valid : (event : List ℕ) (m : Memory) → Valid m → Valid (observe_health event m)
unfolding observe_health
observe_health-Valid event m v = elim (Bool-cases (health_changed m.health (loss_of event))) [
  | inl changed ↦
      let w = clear-Valid "health_loss_or_counter_reset" true v in
      rw changed (record { inv = Inv-rest _ _ _ _ w.inv.ordered w.inv; known = w.known })
  | inr same ↦ rw same (record { inv = Inv-rest _ _ _ _ v.inv.ordered v.inv; known = v.known })
]

module _ (event : List ℕ) (h : Header) (state : Task) (m : Memory) (v : Valid m)
    (at : task_at (slot_of (key_of h m)) m ≡ some state) (generation : state.start ≡ h.start)
    (now : latest m.last_ts ≡ h.ts) where
  abbrev key : Identity
  key = key_of h m

  lives :
      state.blocked ≡ false
      → (t : Task) × Heads m (root_or state.root key) t
        × ((t.root ≡ none) ⊎ (t.root ≡ some (root_or state.root key)))
  unfolding key_of
  lives usable = family_lives key state m v refl at generation usable

  observe_open-Valid :
      state.blocked ≡ false → Valid (observe_open event h key (root_or state.root key) m)
  unfolding observe_open
  observe_open-Valid usable =
      one_of Valid (not (bit_and h.flags 7 == 0) || not (has_nul (slice 120 256 event)))
        (not (u32 116 event == 1) || (not (h.result == 0) || (bit_and (u32 112 event) 1 == 0)))
        (is_credential (path_of event)) (tallied-Valid "uncertain_path" v)
        (tallied-Valid "ineligible_open_hook" v)
        (remember-Valid (root_or state.root key) key h.ts m v (lives usable) now) v

  observe_activity-Valid :
      state.blocked ≡ false
      → Valid (observe_activity event h key (m, some (root_or state.root key))).0
  unfolding observe_activity
  observe_activity-Valid usable = ground (
    arith,
    v,
    observe_open-Valid usable,
    observe_connect-Valid event h key (root_or state.root key) m v,
  )

  forked :
      (r : Memory × Result (Unit {0}))
      → Valid r.0
      → Valid (continue_with {B = Option Advisory} (λ _. pure none) r).0
  forked (m', ok _) w = w
  forked (m', raise e) w = w

  observe_task-Valid : Valid (observe_task event h state m).0
  unfolding observe_task key_of
  observe_task-Valid = ground (
    arith,
    observe_exit-Valid key state m v refl at generation,
    forked (fork event key state h.flags m)
        (fork-Valid key state m v refl at generation event h.flags),
    tallied-Valid "blocked_thread_generation" v,
    root_resolves key (slot_of key) state m v.inv at,
    observe_activity-Valid,
  )

task_after :
    (event : List ℕ) (h : Header) (slot : Slot) (m : Memory) (r : Memory × Result Task)
    → slot ≡ record { cgroup = h.cgroup; pid = h.pid }
    → Valid m
    → h.start ≢ 0
    → latest m.last_ts ≡ h.ts
    → TaskPost slot h.start m r
    → Valid (continue_with (observe_task event h) r).0
unfolding key_of
task_after event h slot m (m', raise e) s v ne now (i, f) = record {
  inv = i;
  known = Forgets-Known f v.known;
}
task_after event h slot m (m', ok state) s v ne now a =
    observe_task-Valid event h state m'
      (record { inv = a.inv; known = Admitted-Known slot h.start m m' state ne v.known a })
      (rw s at a.entry) a.generation (ap latest a.last_ts ∙ now)

pub note_untracked-Valid : (h : Header) (m : Memory) → Valid m → Valid (note_untracked h m)
unfolding note_untracked
note_untracked-Valid h m v = ground (arith, v, tallied-Valid "untracked_exit" v)

note_untracked-last_ts : (h : Header) (m : Memory) → (note_untracked h m).last_ts ≡ m.last_ts
unfolding note_untracked
note_untracked-last_ts h m = ground arith

passed_on :
    (r : Memory × Result (Unit {0}))
    → Valid r.0
    → Valid (continue_with {B = Option Advisory} (λ _. pure none) r).0
passed_on (m', ok _) w = w
passed_on (m', raise e) w = w

observe_event-Valid :
    (event : List ℕ) (h : Header) (m : Memory)
    → Valid m
    → latest m.last_ts ≡ h.ts
    → Valid (observe_event event h m).0
unfolding observe_event
observe_event-Valid event h m v now =
    let slot : Slot = record { cgroup = h.cgroup; pid = h.pid } in
    let n = note_untracked h m in
    let w = note_untracked-Valid h m v in
    let leader : Slot = record { cgroup = h.cgroup; pid = h.tgid } in
    ground (
      arith,
      observe_health-Valid event m v,
      clear-Valid "uncertain_process" true v,
      clear-Valid "unresolved_generation" true v,
      passed_on (block_thread leader m) (block_thread-Valid leader m v),
      λ (ne : h.start ≢ 0).
          task_after event h slot n (task slot h.start n) refl w ne
            (ap latest (note_untracked-last_ts h m) ∙ now)
            (task-TaskPost slot h.start n w.inv (inl w.known)),
    )

not_later : (o : Option ℕ) (ts : ℕ) → runs_backwards o ts ≡ false → latest o ≤ ts
unfolding runs_backwards
not_later none ts e = omega arith
not_later (some last) ts e = ground arith

-- Time moves on.
pub later-Inv :
    (ts : ℕ) (m : Memory)
    → Inv m
    → runs_backwards m.last_ts ts ≡ false
    → Inv (record m { last_ts = some ts })
later-Inv ts m i on =
    Inv-rest m.counts (some ts) m.health m.next_ref
      (Ascends-higher 0 m.evidence (latest m.last_ts) ts (not_later m.last_ts ts on) i.ordered) i

observe_ordered-Valid :
    (event : List ℕ) (h : Header) (m : Memory) → Valid m → Valid (observe_ordered event h m).0
unfolding observe_ordered
observe_ordered-Valid event h m v = elim (Bool-cases (runs_backwards m.last_ts h.ts)) [
  | inl back ↦
      let w = clear-Valid "unsafe_ordering" true v in
      rw back (record {
        inv = Inv-rest _ (some h.ts) _ _ (unfold clear in omega arith) w.inv;
        known = w.known;
      })
  | inr on ↦ rw on (
      observe_event-Valid event h (expire h.ts (record m { last_ts = some h.ts }))
        (record {
          inv = expire-Inv h.ts _ (later-Inv h.ts m v.inv on);
          known = unfold expire in v.known;
        })
        (unfold expire in refl))
]

-- Whatever bytes arrive, and whether the call returns or raises, the memory stays well formed.
pub observe-Valid : (event : List ℕ) (m : Memory) → Valid m → Valid (observe event m).0
unfolding observe
observe-Valid event m v = ground (
  arith,
  clear-Valid "invalid_input" true v,
  observe_ordered-Valid event (header_of event) (tallied "frames" m) (tallied-Valid "frames" v),
)
