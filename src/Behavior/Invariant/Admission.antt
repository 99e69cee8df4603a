-- ===== src/Behavior/Invariant/Admission.antt =====
-- behavior_memory.py, `task`: the invariant where a slot is refreshed or enters a table with room.
use e_bpf_based_kernel_ai_se.Prelude.{
  ℕ, ◌<◌, ◌≡◌, refl, sym, ◌∙◌, ◌⊎◌, inl, inr, ◌≢◌, none, some, true, false, length, ite, if_neg,
  if_pos, arith, Option-cases,
}
use e_bpf_based_kernel_ai_se.Dict.{put}
use e_bpf_based_kernel_ai_se.Dict.Laws.{
  get-put, get-move_to_end, Distinct-put, Distinct-move_to_end, length-put, length-move_to_end,
}
use e_bpf_based_kernel_ai_se.Behavior.State.{
  Slot, Identity, Task, Precursor, Memory, Result, ok, raise, slot_discrete,
}
use e_bpf_based_kernel_ai_se.Behavior.Tasks.{store_task}
use e_bpf_based_kernel_ai_se.Behavior.Invariant.{task_at, evidence_at, Heads, Inv}
use e_bpf_based_kernel_ai_se.Behavior.Invariant.Shared.{Forgets}

pub Forgets-absent :
    {m m' : Memory} (s : Slot) → Forgets m m' → task_at s m ≡ none → task_at s m' ≡ none
Forgets-absent {m} {m'} s f e = elim (Option-cases (task_at s m')) [
  | inl z ↦ z
  | inr (t, z) ↦ let (u, eu, _, _) = f.tasks s t z in absurd (ground arith)
]

-- What a `task` call that returns has done to the memory.
pub record Admitted (slot : Slot) (start : ℕ) (m m' : Memory) (state : Task) : Type 0 where
  pub inv : Inv m'
  pub ttl : m'.ttl ≡ m.ttl
  pub max_tasks : m'.max_tasks ≡ m.max_tasks
  pub epoch : m'.epoch ≡ m.epoch
  pub last_ts : m'.last_ts ≡ m.last_ts
  pub entry : task_at slot m' ≡ some state
  pub generation : state.start ≡ start
  pub origin :
      (state.root ≡ none) ⊎ ((u : Task) × (task_at slot m ≡ some u) × (state.root ≡ u.root))
  pub evidence :
      (q : Identity) (p : Precursor) → evidence_at q m' ≡ some p → evidence_at q m ≡ some p
  pub others :
      (s : Slot) (t : Task)
      → s ≢ slot
      → task_at s m' ≡ some t
      → (u : Task) × (task_at s m ≡ some u)
        × (t.start ≡ u.start)
        × ((t ≡ u) ⊎ ((u.blocked ≡ true) × (t.blocked ≡ true) × (t.root ≡ none)))

abbrev pub TaskPost : Slot → ℕ → Memory → Memory × Result Task → Type 0
TaskPost slot start m (m', raise e) = Inv m' × Forgets m m'
TaskPost slot start m (m', ok state) = Admitted slot start m m' state

pub task_at-store_task :
    (s slot : Slot) (state : Task) (m : Memory)
    → Inv m
    → task_at s (store_task slot state m) ≡ ite (slot_discrete slot s) (some state) (task_at s m)
unfolding store_task
task_at-store_task s slot state m i =
    get-move_to_end slot_discrete s slot _
      (Distinct-put slot_discrete slot state m.tasks i.distinct_tasks)
    ∙ get-put slot_discrete s slot state m.tasks

pub store_task_self :
    (slot : Slot) (state : Task) (m : Memory)
    → Inv m
    → task_at slot (store_task slot state m) ≡ some state
store_task_self slot state m i =
    task_at-store_task slot slot state m i ∙ if_pos (slot_discrete slot slot) refl _ _

pub store_task_ne :
    (s slot : Slot) (state : Task) (m : Memory)
    → Inv m
    → slot ≢ s
    → task_at s (store_task slot state m) ≡ task_at s m
store_task_ne s slot state m i ne =
    task_at-store_task s slot state m i ∙ if_neg (slot_discrete slot s) ne _ _

length-store_task :
    (slot : Slot) (state : Task) (m : Memory)
    → length (store_task slot state m).tasks ≡ length (put slot_discrete slot state m.tasks)
unfolding store_task
length-store_task slot state m = length-move_to_end slot_discrete slot _

-- A new entry in a table with room stands beside every family.
module _ (slot : Slot) (state : Task) (m : Memory) (i : Inv m)
    (absent : task_at slot m ≡ none) where
  keeps_other :
      (s : Slot) (h : Task) → task_at s m ≡ some h → task_at s (store_task slot state m) ≡ some h
  keeps_other s h e = store_task_ne s slot state m i (λ p. absurd (ground arith)) ∙ e

  Heads-store_new : (r : Identity) (h : Task) → Heads m r h → Heads (store_task slot state m) r h
  unfolding store_task
  Heads-store_new r h k = record {
    epoch = k.epoch;
    at = keeps_other _ h k.at;
    generation = k.generation;
    usable = k.usable;
  }

  pub store_new-Inv :
      length m.tasks < m.max_tasks → state.root ≡ none → Inv (store_task slot state m)
  unfolding store_task
  store_new-Inv room r = record {
    capacity = i.capacity;
    retention = i.retention;
    distinct_tasks =
        Distinct-move_to_end slot_discrete slot _
          (Distinct-put slot_discrete slot state m.tasks i.distinct_tasks);
    distinct_evidence = i.distinct_evidence;
    bounded =
        ground (arith, length-store_task slot state m, length-put slot_discrete slot state m.tasks);
    ordered = i.ordered;
    families = λ s t q e f. elim (slot_discrete slot s) [
      | yes p ↦ absurd (ground (arith, store_task_self slot state m i))
      | no p ↦
          let (h, k, x, y) = i.families s t q (sym (store_task_ne s slot state m i p) ∙ e) f in
          (h, Heads-store_new q h k, x, y)
    ];
    alive = λ q p e. let (h, k, x) = i.alive q p e in (h, Heads-store_new q h k, x);
  }

-- Storing a present task again, with its family and its exclusion as they were, changes no head.
module _ (slot : Slot) (state old : Task) (m : Memory) (i : Inv m) (e : task_at slot m ≡ some old)
    (same_root : state.root ≡ old.root) (same : (old.blocked ≡ true) ⊎ (state ≡ old)) where
  head_stays :
      (s : Slot) (h : Task)
      → task_at s m ≡ some h
      → h.blocked ≡ false
      → task_at s (store_task slot state m) ≡ some h
  head_stays s h at usable = elim (slot_discrete slot s) [
    | yes p ↦ ground (arith, store_task_self slot state m i)
    | no p ↦ store_task_ne s slot state m i p ∙ at
  ]

  Heads-store_old : (r : Identity) (h : Task) → Heads m r h → Heads (store_task slot state m) r h
  unfolding store_task
  Heads-store_old r h k = record {
    epoch = k.epoch;
    at = head_stays _ h k.at k.usable;
    generation = k.generation;
    usable = k.usable;
  }

  pub store_old-Inv : Inv (store_task slot state m)
  unfolding store_task
  store_old-Inv = record {
    capacity = i.capacity;
    retention = i.retention;
    distinct_tasks =
        Distinct-move_to_end slot_discrete slot _
          (Distinct-put slot_discrete slot state m.tasks i.distinct_tasks);
    distinct_evidence = i.distinct_evidence;
    bounded = ground (
      arith,
      i.bounded,
      length-store_task slot state m,
      length-put slot_discrete slot state m.tasks,
    );
    ordered = i.ordered;
    families = λ s t q g f. elim (slot_discrete slot s) [
      | yes p ↦
          let own : t.root ≡ old.root = ground (arith, store_task_self slot state m i) in
          let (h, k, x, y) = i.families slot old q e (sym own ∙ f) in
          (h, Heads-store_old q h k, x, y)
      | no p ↦
          let (h, k, x, y) = i.families s t q (sym (store_task_ne s slot state m i p) ∙ g) f in
          (h, Heads-store_old q h k, x, y)
    ];
    alive = λ q p g. let (h, k, x) = i.alive q p g in (h, Heads-store_old q h k, x);
  }
