-- ===== src/Behavior/Invariant/Roots.antt =====
-- behavior_memory.py, `root` and `block_thread` on a well-formed memory.
use e_bpf_based_kernel_ai_se.Prelude.{
  ℕ, ◌≡◌, refl, ap, sym, ◌∙◌, ◌⊎◌, inl, inr, ◌≢◌, Option, none, some, true, arith, String,
}
use e_bpf_based_kernel_ai_se.Dict.{get}
use e_bpf_based_kernel_ai_se.Dict.Laws.{get-put, Distinct-put, length-put}
use e_bpf_based_kernel_ai_se.Behavior.State.{
  Slot, Identity, Task, Precursor, Memory, Result, ok, raise, slot_discrete, clear,
}
use e_bpf_based_kernel_ai_se.Behavior.Replay.{continue_with}
use e_bpf_based_kernel_ai_se.Behavior.Tasks.{
  root_or, find_root, root, is_live_root, leader_start, task, set_blocked, block_thread,
}
use e_bpf_based_kernel_ai_se.Behavior.Invariant.{task_at, evidence_at, Inv, Known, Valid}
use e_bpf_based_kernel_ai_se.Behavior.Invariant.Shared.{
  task_at-clear, clear-Inv, clear-Forgets, Forgets-Known,
}
use e_bpf_based_kernel_ai_se.Behavior.Invariant.Admission.{Admitted, TaskPost}
use e_bpf_based_kernel_ai_se.Behavior.Invariant.Admitting.{task-TaskPost, excluded}

find_root_resolves :
    (key : Identity) (s : Slot) (state : Task) (o : Option Identity) (m : Memory)
    → Inv m
    → task_at s m ≡ some state
    → state.root ≡ o
    → find_root key o m ≡ (m, some (root_or o key))
unfolding find_root is_live_root
find_root_resolves key s state none m i e r = refl
find_root_resolves key s state (some q) m i e r =
    let (h, k, x, y) = i.families s state q e r in ground (arith, k.at, k.generation, k.usable)

-- In a memory that satisfies the invariant, for a task that its table holds, `root` changes nothing
-- and returns the recorded family root, or the task itself where there is none: the branch that
-- gives up with "unresolved_root_generation" is not taken.
pub root_resolves :
    (key : Identity) (s : Slot) (state : Task) (m : Memory)
    → Inv m
    → task_at s m ≡ some state
    → root key state m ≡ (m, some (root_or state.root key))
unfolding root
root_resolves key s state m i e = find_root_resolves key s state state.root m i e refl

-- A memory with no evidence and no family.
record IsQuiet (m : Memory) : Type 0 where
  evidence : (q : Identity) (p : Precursor) → evidence_at q m ≢ some p
  tasks : (s : Slot) (t : Task) → task_at s m ≡ some t → t.root ≡ none

clear-IsQuiet : (reason : String) (m : Memory) → Inv m → IsQuiet (clear reason true m)
unfolding clear get
clear-IsQuiet reason m i = record {
  evidence = λ q p e. cc;
  tasks = λ s t e. (task_at-clear s reason true m t i.distinct_tasks e).5;
}

Admitted-IsQuiet :
    (slot : Slot) (start : ℕ) (m m' : Memory) (state : Task)
    → IsQuiet m
    → Admitted slot start m m' state
    → IsQuiet m'
Admitted-IsQuiet slot start m m' state z a = record {
  evidence = λ q p e. z.evidence q p (a.evidence q p e);
  tasks = λ s t e. elim (slot_discrete s slot) [
    | yes p ↦ let f : t ≡ state = ground (arith, a.entry) in ap (λ v. v.root) f ∙ own a.origin
    | no p ↦ let (u, eu, su, c) = a.others s t p e in other s t u eu c
  ];
}
  where
    other :
        (s : Slot) (t u : Task)
        → task_at s m ≡ some u
        → ((t ≡ u) ⊎ ((u.blocked ≡ true) × (t.blocked ≡ true) × (t.root ≡ none)))
        → t.root ≡ none
    other s t u e (inl x) = ap (λ v. v.root) x ∙ z.tasks s u e
    other s t u e (inr x) = x.2

    own :
        ((state.root ≡ none) ⊎ ((u : Task) × (task_at slot m ≡ some u) × (state.root ≡ u.root)))
        → state.root ≡ none
    own (inl x) = x
    own (inr (u, e, x)) = x ∙ z.tasks slot u e

-- Excluding the task of a slot in a quiet memory.
module _ (slot : Slot) (state : Task) (m : Memory) (i : Inv m) (z : IsQuiet m)
    (e : task_at slot m ≡ some state) where
  blocked_root :
      (s : Slot) (t : Task)
      → task_at s (set_blocked slot state m).0 ≡ some t
      → (t.root ≡ none) × ((s ≡ slot) × (t.blocked ≡ true) ⊎ (s ≢ slot) × (task_at s m ≡ some t))
  unfolding set_blocked
  blocked_root s t g = elim (slot_discrete s slot) [
    | yes p ↦
        let f : t ≡ record state { blocked = true } =
          ground (arith, get-put slot_discrete s slot (record state { blocked = true }) m.tasks) in
        (ap (λ v. v.root) f ∙ z.tasks slot state e, inl (p, ap (λ v. v.blocked) f))
    | no p ↦
        let f : task_at s m ≡ some t =
          ground (arith, get-put slot_discrete s slot (record state { blocked = true }) m.tasks) in
        (z.tasks s t f, inr (p, f))
  ]

  set_blocked-Inv : Inv (set_blocked slot state m).0
  unfolding set_blocked
  set_blocked-Inv = record {
    capacity = i.capacity;
    retention = i.retention;
    distinct_tasks = Distinct-put slot_discrete slot _ m.tasks i.distinct_tasks;
    distinct_evidence = i.distinct_evidence;
    bounded =
        ground (
          arith,
          i.bounded,
          length-put slot_discrete slot (record state { blocked = true }) m.tasks,
        );
    ordered = i.ordered;
    families = λ s t q g f. absurd (ground (arith, (blocked_root s t g).0));
    alive = λ q p g. absurd (z.evidence q p g);
  }

block_after :
    (slot : Slot) (start : ℕ) (m : Memory) (r : Memory × Result Task)
    → Known m
    → IsQuiet m
    → TaskPost slot start m r
    → Valid (continue_with (set_blocked slot) r).0
block_after slot start m (m', raise e) k z (i, f) = record { inv = i; known = Forgets-Known f k }
block_after slot start m (m', ok state) k z a = record {
  inv = set_blocked-Inv slot state m' a.inv z' a.entry;
  known = λ s t e g. known s t g (blocked_root slot state m' a.inv z' a.entry s t e).1;
}
  where
    z' : IsQuiet m'
    z' = Admitted-IsQuiet slot start m m' state z a

    known :
        (s : Slot) (t : Task)
        → t.start ≡ 0
        → ((s ≡ slot) × (t.blocked ≡ true) ⊎ (s ≢ slot) × (task_at s m' ≡ some t))
        → t.blocked ≡ true
    known s t g (inl x) = x.1
    known s t g (inr (ne, x)) =
        let (u, eu, su, c) = a.others s t ne x in excluded t u c (k s u eu (sym su ∙ g))

-- A worker thread excludes its leader and clears the memory, and the table stays well formed.
pub block_thread-Valid : (slot : Slot) (m : Memory) → Valid m → Valid (block_thread slot m).0
unfolding block_thread
block_thread-Valid slot m v =
    let start = leader_start (task_at slot m) in
    let n = clear "unsupported_thread" true m in
    let k : Known n = Forgets-Known (clear-Forgets "unsupported_thread" true m v.inv) v.known in
    let i : Inv n = clear-Inv "unsupported_thread" true m v.inv in
    block_after slot start n (task slot start n) k (clear-IsQuiet "unsupported_thread" m v.inv)
      (task-TaskPost slot start n i (inl k))
