-- ===== src/Behavior/Tasks.antt =====
-- behavior_memory.py, `BehaviorMemory.task`, `root` and `block_thread`: admission of a task to the
-- bounded table, and the family root that its evidence is kept under.
use e_bpf_based_kernel_ai_se.Prelude.{
  ℕ, suc, Option, none, some, Bool, true, false, not, ◌&&◌, ◌||◌, if◌then◌else◌, leb, ◌==◌, length,
}
use e_bpf_based_kernel_ai_se.Dict.{Dict, get, put, move_to_end, find_item}
use e_bpf_based_kernel_ai_se.Behavior.Replay.{Replay, ◌>>=◌, ◌>>◌, modify, gets}
use e_bpf_based_kernel_ai_se.Behavior.State.{
  Slot, Identity, Task, Memory, ok, raise, slot_discrete, tallied, clear, drop_family, identity_of,
}

-- A generator over `tasks`: does any item pass?
unfoldable pub any_item : (Slot → Task → Bool) → Dict Slot Task → Bool
any_item p d = elim (find_item p d) [ none ↦ false | some _ ↦ true ]

abbrev pub is_none {ℓ} : {A : Type ℓ} → Option A → Bool
is_none none = true
is_none (some _) = false

-- `state[2] or key`
abbrev pub root_or : Option Identity → Identity → Identity
root_or none key = key
root_or (some r) key = r

-- A task with this pid in another cgroup: the leader moved, or the pid was taken over.
unfoldable pub moved_cgroup : Slot → Memory → Memory
moved_cgroup slot m =
    if any_item (λ s _. (s.pid == slot.pid) && not (s.cgroup == slot.cgroup)) m.tasks
    then clear "cgroup_identity_changed" true m
    else m

-- Makes room for a new slot: the least recently seen task that is not blocked goes, with its family.
unfoldable pub make_room : Slot → Replay (Unit {0})
make_room slot m =
    if is_none (get slot_discrete slot m.tasks) && leb m.max_tasks (length m.tasks)
    then elim (find_item (λ _ v. not v.blocked) m.tasks) [
      | none ↦ (clear "capacity_exhausted" false m, raise "TASK_CAPACITY_EXHAUSTED")
      | some (victim, old) ↦ (
        drop_family (root_or old.root (identity_of m.epoch victim old.start))
            "capacity_precursors_dropped" (tallied "capacity_tasks_dropped" m),
        ok tt,
      )
    ]
    else (m, ok tt)

-- `v[0] in (0, start)`
abbrev pub start_matches : ℕ → ℕ → Bool
start_matches start s = (s == 0) || (s == start)

-- A new entry inherits the exclusion of any blocked task of that pid and generation.
unfoldable pub fresh_task : Slot → ℕ → Memory → Task
fresh_task slot start m = record {
  ref = m.next_ref;
  start = start;
  blocked =
      any_item (λ s v. (s.pid == slot.pid) && (v.blocked && start_matches start v.start)) m.tasks;
  root = none;
  has_children = false;
}

-- The table after `self.tasks[slot] = state` and `self.tasks.move_to_end(slot)`.
unfoldable pub store_task : Slot → Task → Memory → Memory
store_task slot state m = record m {
  tasks = move_to_end slot_discrete slot (put slot_discrete slot state m.tasks);
}

-- `if state is None:` and the rest of `task`, for an absent slot.
unfoldable pub enter : Slot → ℕ → Replay Task
enter slot start m =
    let state = fresh_task slot start m in
    (store_task slot state (record m { next_ref = suc m.next_ref }), ok state)

unfoldable pub admit : Slot → ℕ → Replay Task
admit slot start = do make_room slot; enter slot start

-- A known task whose start token agrees, or is still unknown (0) and is now learned.
unfoldable pub refresh : Slot → ℕ → Task → Replay Task
refresh slot start state m =
    let state' = if state.start == 0 then record state { start = start } else state in
    (store_task slot state' m, ok state')

unfoldable pub task : Slot → ℕ → Replay Task
task slot start m = elim (get slot_discrete slot m.tasks) [
  | none ↦ admit slot start (moved_cgroup slot m)
  | some state ↦
      if start_matches start state.start
      then refresh slot start state m
      else admit slot start (
          drop_family (root_or state.root (identity_of m.epoch slot state.start))
            "reuse_precursors_dropped" (tallied "pid_reuse" m))
]

-- The parent entry that a family's root identity names must still be that generation, unblocked.
unfoldable pub is_live_root : Identity → Option Task → Bool
is_live_root r none = false
is_live_root r (some parent) = (parent.start == r.start) && not parent.blocked

abbrev pub slot_of : Identity → Slot
slot_of r = record { cgroup = r.cgroup; pid = r.pid }

unfoldable pub find_root : Identity → Option Identity → Memory → Memory × Option Identity
find_root key none m = (m, some key)
find_root key (some r) m =
    if is_live_root r (get slot_discrete (slot_of r) m.tasks)
    then (m, some r)
    else (clear "unresolved_root_generation" true m, none)

unfoldable pub root : Identity → Task → Memory → Memory × Option Identity
root key state m = find_root key state.root m

-- The start token of the leader, or 0 for one that was never seen.
unfoldable pub leader_start : Option Task → ℕ
leader_start none = 0
leader_start (some known) = known.start

-- `task(...)[1] = True`: the flag is set in the object that the table holds.
unfoldable pub set_blocked : Slot → Task → Replay (Unit {0})
set_blocked slot state =
    modify
      λ m. record m { tasks = put slot_discrete slot (record state { blocked = true }) m.tasks }

unfoldable pub block_thread : Slot → Replay (Unit {0})
block_thread slot = do
  start ← gets (λ m. leader_start (get slot_discrete slot m.tasks))
  modify (clear "unsupported_thread" true)
  state ← task slot start
  set_blocked slot state
