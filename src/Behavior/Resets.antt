-- ===== src/Behavior/Resets.antt =====
-- behavior_memory.py, `clear`: what a reset forgets, and what it must keep.
use mathlib.Core.Option
use e_bpf_based_kernel_ai_se.Prelude.{
  ℕ, suc, ◌≡◌, refl, ap, ◌∙◌, [], ◌∷◌, Option, none, some, Bool, true, false, ◌&&◌, String, arith,
  if◌then◌else◌,
}
use e_bpf_based_kernel_ai_se.Dict.{Dict, keep, get}
use e_bpf_based_kernel_ai_se.Dict.Laws.{get-keep}
use e_bpf_based_kernel_ai_se.Behavior.State.{
  Slot, Task, Memory, Identity, slot_discrete, rebuild, clear,
}
use e_bpf_based_kernel_ai_se.Behavior.Invariant.{Inv, task_at}

-- The facts of an entry that code reads, without the identity of the object.
abbrev pub Facts : Type 0
Facts = ℕ × Bool × Option Identity × Bool

abbrev pub facts : Task → Facts
facts t = (t.start, t.blocked, t.root, t.has_children)

-- What stays of a slot: the generation of an excluded task, excluded and in no family.
abbrev pub exclusion : Option Task → Option Facts
exclusion none = none
exclusion (some t) = if t.blocked then some (t.start, true, none, false) else none

get-rebuild :
    (s : Slot) (n : ℕ) (d : Dict Slot Task)
    → Option.map facts (get slot_discrete s (rebuild n d))
      ≡ Option.map (λ t. (t.start, true, none, false)) (get slot_discrete s d)
unfolding get rebuild
get-rebuild s n [] = refl
get-rebuild s n ((k, v) ∷ d) = ground (arith, get-rebuild s (suc n) d)

-- A reset with `keep_blocks` drops all evidence. A slot whose task is excluded keeps the exclusion
-- for the same generation, outside every family; a slot that is free or whose task is usable is
-- free afterwards. The memory is one that satisfies the invariant.
pub clear-exclusions :
    (reason : String) (s : Slot) (m : Memory)
    → Inv m
    → ((clear reason true m).evidence ≡ [])
      × (Option.map facts (task_at s (clear reason true m)) ≡ exclusion (task_at s m))
unfolding clear
clear-exclusions reason s m i = (
  refl,
  get-rebuild s m.next_ref (keep (λ _ v. true && v.blocked) m.tasks)
      ∙ ap (Option.map (λ t. (t.start, true, none, false)))
          (get-keep slot_discrete (λ _ v. true && v.blocked) s m.tasks i.distinct_tasks)
      ∙ excluded (task_at s m),
)
  where
    excluded :
        (o : Option Task)
        → Option.map
            (λ t. (t.start, true, none, false))
            (elim o [ none ↦ none | some v ↦ if v.blocked then some v else none ])
          ≡ exclusion o
    excluded none = refl
    excluded (some t) = ground arith
