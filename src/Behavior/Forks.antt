-- ===== src/Behavior/Forks.antt =====
-- behavior_memory.py, `BehaviorMemory.fork`: a verified creator edge joins the child to the
-- family of its parent; everything uncertain clears the memory instead.
use e_bpf_based_kernel_ai_se.Prelude.{
  ℕ, List, Option, none, some, Bool, true, false, not, ◌||◌, if◌then◌else◌, ◌==◌, bit_and,
}
use e_bpf_based_kernel_ai_se.Bytes.{u32, u64}
use e_bpf_based_kernel_ai_se.Dict.{get, put}
use e_bpf_based_kernel_ai_se.Behavior.State.{
  Slot, Identity, Task, Memory, Result, ok, slot_discrete, tallied, clear,
}
use e_bpf_based_kernel_ai_se.Behavior.Replay.{Replay, ◌>>=◌, modify}
use e_bpf_based_kernel_ai_se.Behavior.Tasks.{task, root, block_thread, slot_of}

-- `struct.unpack_from("<IIIIQ", event, 88)`
pub record ForkPayload : Type 0 where
  pub parent : ℕ
  pub child : ℕ
  pub reserved : ℕ
  pub child_tgid : ℕ
  pub child_start : ℕ

unfoldable pub fork_payload : List ℕ → ForkPayload
fork_payload event = record {
  parent = u32 88 event;
  child = u32 92 event;
  reserved = u32 96 event;
  child_tgid = u32 100 event;
  child_start = u64 104 event;
}

-- `old_child is not None and (old_child[0] == child_start or old_child[0] == 0)`
unfoldable pub already_born : Option Task → ℕ → Bool
already_born none child_start = false
already_born (some old) child_start = (old.start == child_start) || (old.start == 0)

-- `state[2], state[3] = root, True; child_state[2] = root`
unfoldable pub join_family : Slot → Task → Slot → Task → Identity → Memory → Memory
join_family slot state child_slot child_state family m =
    let joined =
      put slot_discrete slot (record state { root = some family; has_children = true }) m.tasks in
    tallied "verified_fork_edges" (record m {
      tasks = put slot_discrete child_slot (record child_state { root = some family }) joined;
    })

-- The parent's family is looked up again, since the admission of the child may have dropped it.
unfoldable pub rejoin : Identity → Task → Slot → Task → Identity → Option Identity → Memory → Memory
rejoin key state child_slot child_state family none m =
    join_family (slot_of key) state child_slot child_state family m
rejoin key state child_slot child_state family (some _) m =
    let (m', again) = root key state m in
    elim again [
      | none ↦ m'
      | some _ ↦ join_family (slot_of key) state child_slot child_state family m'
    ]

-- `self.tasks.get((key[1], key[2])) is not state`
unfoldable pub attach : Identity → Task → Slot → Task → Identity → Memory → Memory
attach key state child_slot child_state family m = elim (get slot_discrete (slot_of key) m.tasks) [
  | none ↦ clear "fork_family_invalidated" true m
  | some now ↦
      if now.ref == state.ref
      then rejoin key now child_slot child_state family now.root m
      else clear "fork_family_invalidated" true m
]

unfoldable pub bear : Identity → Task → Slot → ℕ → Identity → Replay (Unit {0})
bear key state child_slot child_start family m =
    if already_born (get slot_discrete child_slot m.tasks) child_start
    then (clear "unresolved_fork_generation" true m, ok tt)
    else (do
      child_state ← task child_slot child_start
      modify (attach key state child_slot child_state family))
        m

-- The family of the parent, once the edge itself is beyond doubt.
unfoldable pub bear_under :
    Identity → Task → Slot → ℕ → Memory × Option Identity → Memory × Result (Unit {0})
bear_under key state child_slot child_start (m, none) = (m, ok tt)
bear_under key state child_slot child_start (m, some family) =
    bear key state child_slot child_start family m

unfoldable pub fork_known : Identity → Task → ForkPayload → Replay (Unit {0})
fork_known key state p m =
    if not (p.reserved == 0) || ((p.child_tgid == 0) || (p.child_start == 0))
    then (clear "unresolved_fork_generation" true m, ok tt)
    else if not (p.child == p.child_tgid)
    then block_thread (slot_of key) m
    else if state.blocked
    then (tallied "blocked_thread_generation" m, ok tt)
    else bear_under key state (record { cgroup = key.cgroup; pid = p.child }) p.child_start
        (root key state m)

-- `flags & FORK_CHILD_ID_VALID`, bit 11.
unfoldable pub fork : List ℕ → Identity → Task → ℕ → Replay (Unit {0})
fork event key state flags m =
    let p = fork_payload event in
    if not (p.parent == key.pid) || ((p.child == 0) || (p.child == p.parent))
    then (clear "unresolved_fork" true m, ok tt)
    else if bit_and flags 2048 == 0
    then (
      clear "missing_fork_identity" true (tallied "descendant_correlation_unsupported" m),
      ok tt,
    )
    else fork_known key state p m
