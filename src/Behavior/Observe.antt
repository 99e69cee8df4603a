-- ===== src/Behavior/Observe.antt =====
-- behavior_memory.py, `BehaviorMemory.observe`: one event against the memory, from the length
-- checks over the order of time to the handler of its kind.
use e_bpf_based_kernel_ai_se.Prelude.{
  ℕ, List, Option, none, some, Bool, true, false, not, ◌||◌, ◌&&◌, ite, if◌then◌else◌, ltb, ◌==◌,
  length, bit_and, max, string_discrete,
}
use e_bpf_based_kernel_ai_se.Bytes.{u64}
use e_bpf_based_kernel_ai_se.Dict.{get, pop, put}
use e_bpf_based_kernel_ai_se.Behavior.State.{
  Slot, Identity, Task, Loss, Memory, raise, slot_discrete, identity_discrete, loss_discrete, count,
  tallied, clear, expire, drop_family,
}
use e_bpf_based_kernel_ai_se.Behavior.Replay.{Replay, ◌>>=◌, ◌>>◌, pure}
use e_bpf_based_kernel_ai_se.Behavior.Tasks.{task, root, root_or, block_thread, slot_of}
use e_bpf_based_kernel_ai_se.Behavior.Forks.{fork}
use e_bpf_based_kernel_ai_se.Behavior.Event.{
  Header, Advisory, Outcome, quiet, header_of, is_well_formed, key_of,
}
use e_bpf_based_kernel_ai_se.Behavior.Activity.{observe_open, observe_connect}

unfoldable pub loss_of : List ℕ → Loss
loss_of event = record {
  queue_dropped = u64 88 event;
  priority_dropped = u64 96 event;
  ringbuf_lost = u64 104 event;
  rate_limited = u64 120 event;
}

abbrev any_loss : Loss → Bool
any_loss l =
    not (l.queue_dropped == 0)
    || (not (l.priority_dropped == 0) || (not (l.ringbuf_lost == 0) || not (l.rate_limited == 0)))

-- The first frame must show no loss, and a later one the same counters as the one before.
unfoldable pub health_changed : Option Loss → Loss → Bool
health_changed none loss = any_loss loss
health_changed (some previous) loss = ite (loss_discrete loss previous) false true

unfoldable pub observe_health : List ℕ → Memory → Memory
observe_health event m =
    let loss = loss_of event in
    let m' =
      if health_changed m.health loss then clear "health_loss_or_counter_reset" true m else m in
    let m'' = tallied "health_frames" (record m' { health = some loss }) in
    record m'' {
      counts =
          put string_discrete "network_filtered_max"
            (max (count "network_filtered_max" m''.counts) (u64 112 event)) m''.counts;
    }

-- A leaf child leaves alone, and its evidence stays with the living root; any other exit drops
-- the family.
unfoldable pub is_leaf : Identity → Task → Bool
is_leaf key state = elim state.root [
  | none ↦ false
  | some r ↦ not state.has_children && ite (identity_discrete r key) false true
]

unfoldable pub observe_exit : Identity → Task → Memory → Memory
observe_exit key state m =
    if is_leaf key state
    then tallied "leaf_exits" (record m { tasks = pop slot_discrete (slot_of key) m.tasks })
    else drop_family (root_or state.root key) "exit_precursors_dropped" m

-- FILE_OPEN is 6 and NETWORK_CONNECT 8; no other kind touches the evidence.
unfoldable pub observe_activity : List ℕ → Header → Identity → Memory × Option Identity → Outcome
observe_activity event h key (m, none) = quiet m
observe_activity event h key (m, some family) =
    if h.kind == 6
    then quiet (observe_open event h key family m)
    else if h.kind == 8
    then observe_connect event h key family m
    else quiet m

-- EXIT is 3 and FORK 1.
unfoldable pub observe_task : List ℕ → Header → Task → Replay (Option Advisory)
observe_task event h state m =
    let key = key_of h m in
    if h.kind == 3
    then quiet (observe_exit key state m)
    else if h.kind == 1
    then (do fork event key state h.flags; pure none) m
    else if state.blocked
    then quiet (tallied "blocked_thread_generation" m)
    else observe_activity event h key (root key state m)

abbrev slot_of_header : Header → Slot
slot_of_header h = record { cgroup = h.cgroup; pid = h.pid }

unfoldable pub note_untracked : Header → Memory → Memory
note_untracked h m =
    if h.kind == 3
    then elim (get slot_discrete (slot_of_header h) m.tasks) [
      | none ↦ tallied "untracked_exit" m
      | some _ ↦ m
    ]
    else m

-- HEALTH is 14; PROCESS_UNCERTAIN and USERSPACE are bits 9 and 10.
unfoldable pub observe_event : List ℕ → Header → Replay (Option Advisory)
observe_event event h m =
    if h.kind == 14
    then quiet (observe_health event m)
    else if not (bit_and h.flags 1536 == 0)
    then quiet (clear "uncertain_process" true m)
    else if (h.pid == 0) || ((h.tgid == 0) || (h.start == 0))
    then quiet (clear "unresolved_generation" true m)
    else if not (h.pid == h.tgid)
    then (do block_thread (record { cgroup = h.cgroup; pid = h.tgid }); pure none) m
    else (do state ← task (slot_of_header h) h.start; observe_task event h state)
        (note_untracked h m)

-- `self.last_ts is not None and ts < self.last_ts`
unfoldable pub runs_backwards : Option ℕ → ℕ → Bool
runs_backwards none ts = false
runs_backwards (some last) ts = ltb ts last

unfoldable pub observe_ordered : List ℕ → Header → Replay (Option Advisory)
observe_ordered event h m =
    if runs_backwards m.last_ts h.ts
    then quiet (record (clear "unsafe_ordering" true m) { last_ts = some h.ts })
    else observe_event event h (expire h.ts (record m { last_ts = some h.ts }))

unfoldable pub observe : List ℕ → Replay (Option Advisory)
observe event m =
    let h = header_of event in
    if ltb (length event) 88
    then (clear "invalid_input" true m, raise "INVALID_EVENT_LENGTH")
    else if is_well_formed h (length event)
    then observe_ordered event h (tallied "frames" m)
    else (clear "invalid_input" true m, raise "INVALID_EVENT_SCHEMA_OR_LENGTH")
