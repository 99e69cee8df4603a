-- ===== src/Behavior/Invariant.antt =====
-- The well-formedness of a `BehaviorMemory`: the table is bounded and has one entry for each slot,
-- the evidence is in the order of time, and every family has a living root to stand on.
pub mod Shared
pub mod Admission
pub mod Admitting
pub mod Roots
pub mod Families
pub mod Forking
pub mod Expiry
pub mod Steps
pub mod Observing
use e_bpf_based_kernel_ai_se.Prelude.{
  ℕ, ◌≤◌, ◌<◌, ◌≡◌, ◌⊎◌, [], ◌∷◌, Option, none, some, true, false, length,
}
use e_bpf_based_kernel_ai_se.Dict.{Dict, get, Distinct}
use e_bpf_based_kernel_ai_se.Behavior.State.{
  Slot, Identity, Task, Precursor, Memory, slot_discrete, identity_discrete,
}
use e_bpf_based_kernel_ai_se.Behavior.Tasks.{slot_of}

-- The timestamps of the evidence rise from `lo` to `hi`.
abbrev pub Ascends : ℕ → Dict Identity Precursor → ℕ → Type 0
Ascends lo [] hi = lo ≤ hi
Ascends lo ((k, p) ∷ d) hi = (lo ≤ p.ts) × Ascends p.ts d hi

abbrev pub latest : Option ℕ → ℕ
latest none = 0
latest (some ts) = ts

abbrev pub task_at : Slot → Memory → Option Task
task_at s m = get slot_discrete s m.tasks

abbrev pub evidence_at : Identity → Memory → Option Precursor
evidence_at r m = get identity_discrete r m.evidence

-- `r` is the root of a family: the entry in its slot is that generation, usable, and knows it.
pub record Heads (m : Memory) (r : Identity) (h : Task) : Type 0 where
  pub epoch : r.epoch ≡ m.epoch
  pub at : task_at (slot_of r) m ≡ some h
  pub generation : h.start ≡ r.start
  pub usable : h.blocked ≡ false

pub record Inv (m : Memory) : Type 0 where
  pub capacity : 0 < m.max_tasks
  pub retention : 0 < m.ttl
  pub distinct_tasks : Distinct slot_discrete m.tasks
  pub distinct_evidence : Distinct identity_discrete m.evidence
  pub bounded : length m.tasks ≤ m.max_tasks
  pub ordered : Ascends 0 m.evidence (latest m.last_ts)
  pub families :
      (s : Slot) (t : Task) (r : Identity)
      → task_at s m ≡ some t
      → t.root ≡ some r
      → (h : Task) × Heads m r h × (h.root ≡ some r) × (h.has_children ≡ true)
  pub alive :
      (r : Identity) (p : Precursor)
      → evidence_at r m ≡ some p
      → (h : Task) × Heads m r h × ((h.root ≡ none) ⊎ (h.root ≡ some r))

-- A start token is unknown only where the task is excluded.
abbrev pub Known : Memory → Type 0
Known m = (s : Slot) (t : Task) → task_at s m ≡ some t → t.start ≡ 0 → t.blocked ≡ true

-- What holds between two events.
pub record Valid (m : Memory) : Type 0 where
  pub inv : Inv m
  pub known : Known m
