-- ===== src/Behavior/Invariant/Admitting.antt =====
-- behavior_memory.py, `task` and its parts, up to the state that a caller finds (`TaskPost`).
use e_bpf_based_kernel_ai_se.Prelude.{
  ℕ, suc, ◌+◌, ◌≤◌, ◌<◌, ◌≡◌, refl, ap, sym, ◌∙◌, ◌⊎◌, inl, inr, ◌≢◌, Option, none, some, true,
  false, not, leb, ◌==◌, length, String, if◌then◌else◌, arith, Option-cases, Bool-cases,
}
use e_bpf_based_kernel_ai_se.Dict.{find_item}
use e_bpf_based_kernel_ai_se.Dict.Laws.{find_item-get, length-keep-lt}
use e_bpf_based_kernel_ai_se.Behavior.State.{
  Slot, Task, Memory, Result, ok, raise, slot_discrete, tallied, clear, identity_of, in_family,
  drop_family,
}
use e_bpf_based_kernel_ai_se.Behavior.Replay.{continue_with}
use e_bpf_based_kernel_ai_se.Behavior.Tasks.{
  root_or, moved_cgroup, make_room, start_matches, fresh_task, store_task, enter, admit, refresh,
  task,
}
use e_bpf_based_kernel_ai_se.Behavior.Invariant.{task_at, Inv, Known}
use e_bpf_based_kernel_ai_se.Behavior.Invariant.Shared.{
  Inv-rest, Inv-counts, clear-Inv, drop_family-Inv, Forgets, Forgets-same, Forgets-refl,
  Forgets-trans, clear-Forgets, drop_family-Forgets, task_at-drop_family,
}
use e_bpf_based_kernel_ai_se.Behavior.Invariant.Admission.{
  Forgets-absent, Admitted, TaskPost, store_task_self, store_task_ne, store_new-Inv, store_old-Inv,
}

-- The object counter does not matter to the invariant.
Inv-next_ref : {m : Memory} (n : ℕ) → Inv m → Inv (record m { next_ref = n })
Inv-next_ref {m} n i = Inv-rest m.counts m.last_ts m.health n i.ordered i

module _ (slot : Slot) (start : ℕ) {l m : Memory} (i : Inv m) (f : Forgets l m) where
  enter-Admitted :
      task_at slot m ≡ none
      → length m.tasks < m.max_tasks
      → Admitted slot start l (enter slot start m).0 (fresh_task slot start m)
  unfolding enter store_task fresh_task
  enter-Admitted absent room =
      let n : Memory = record m { next_ref = suc m.next_ref } in
      let j : Inv n = Inv-next_ref (suc m.next_ref) i in
      record {
        inv = store_new-Inv slot (fresh_task slot start m) n j absent room refl;
        ttl = f.ttl;
        max_tasks = f.max_tasks;
        epoch = f.epoch;
        last_ts = f.last_ts;
        entry = store_task_self slot (fresh_task slot start m) n j;
        generation = refl;
        origin = inl refl;
        evidence = f.evidence;
        others = λ s t ne e.
            f.tasks s t
              (sym (store_task_ne s slot (fresh_task slot start m) n j (λ p. ne (sym p))) ∙ e);
      }

  -- The entry that `refresh` stores: only an unknown start token changes.
  abbrev refreshed : Task → Task
  refreshed state = if state.start == 0 then record state { start = start } else state

  root_origin :
      {t : Task} (u : Task)
      → task_at slot l ≡ some u
      → ((t ≡ u) ⊎ ((u.blocked ≡ true) × (t.blocked ≡ true) × (t.root ≡ none)))
      → ((refreshed t).root ≡ none)
        ⊎ ((v : Task) × (task_at slot l ≡ some v) × ((refreshed t).root ≡ v.root))
  root_origin u eu (inl a) = inr (u, eu, ground arith)
  root_origin u eu (inr a) = inl (ground arith)

  refresh-Admitted :
      (state : Task)
      → task_at slot m ≡ some state
      → start_matches start state.start ≡ true
      → ((state.start ≡ 0 → state.blocked ≡ true) ⊎ (start ≡ 0))
      → Admitted slot start l (refresh slot start state m).0 (refreshed state)
  unfolding refresh store_task
  refresh-Admitted state e matches known = record {
    inv = store_old-Inv slot (refreshed state) state m i e (ground arith) (ground (arith, known));
    ttl = f.ttl;
    max_tasks = f.max_tasks;
    epoch = f.epoch;
    last_ts = f.last_ts;
    entry = store_task_self slot (refreshed state) m i;
    generation = ground arith;
    origin = let (u, eu, su, c) = f.tasks slot state e in root_origin u eu c;
    evidence = f.evidence;
    others = λ s t ne g.
        f.tasks s t (sym (store_task_ne s slot (refreshed state) m i (λ p. ne (sym p))) ∙ g);
  }

-- Dropping a family takes the entry that named it.
own_family :
    (e : String) (s : Slot) (v : Task)
    → in_family e (root_or v.root (identity_of e s v.start)) s v ≡ true
unfolding in_family
own_family e s v = ground arith

drop_own :
    (slot : Slot) (v : Task) (c : String) (m : Memory)
    → Inv m
    → task_at slot m ≡ some v
    → task_at slot (drop_family (root_or v.root (identity_of m.epoch slot v.start)) c m) ≡ none
drop_own slot v c m i e = ground (
  arith,
  task_at-drop_family slot (root_or v.root (identity_of m.epoch slot v.start)) c m i.distinct_tasks,
  own_family m.epoch slot v,
)

shrinks :
    (slot : Slot) (v : Task) (c : String) (m : Memory)
    → task_at slot m ≡ some v
    → length (drop_family (root_or v.root (identity_of m.epoch slot v.start)) c m).tasks + 1
      ≤ length m.tasks
unfolding drop_family
shrinks slot v c m e =
    length-keep-lt _ slot_discrete m.tasks slot v e (ap not (own_family m.epoch slot v))

abbrev RoomPost : Memory → Memory × Result (Unit {0}) → Type 0
RoomPost m (m', raise e) = Inv m' × Forgets m m'
RoomPost m (m', ok _) = Inv m' × Forgets m m' × (length m'.tasks < m'.max_tasks)

evict-RoomPost :
    (slot : Slot) (m : Memory) (o : Option (Slot × Task))
    → Inv m
    → find_item (λ _ v. not v.blocked) m.tasks ≡ o
    → RoomPost m (elim o [
      | none ↦ (clear "capacity_exhausted" false m, raise "TASK_CAPACITY_EXHAUSTED")
      | some (victim, old) ↦ (
        drop_family
            (root_or old.root (identity_of m.epoch victim old.start))
            "capacity_precursors_dropped"
            (tallied "capacity_tasks_dropped" m),
        ok tt,
      )
    ])
evict-RoomPost slot m none i e =
    (clear-Inv "capacity_exhausted" false m i, clear-Forgets "capacity_exhausted" false m i)
evict-RoomPost slot m (some (victim, old)) i e =
    let n = tallied "capacity_tasks_dropped" m in
    let j : Inv n = Inv-counts _ i in
    let r = root_or old.root (identity_of m.epoch victim old.start) in
    let found : task_at victim n ≡ some old =
      (find_item-get _ slot_discrete m.tasks victim old i.distinct_tasks e).0 in
    (
      drop_family-Inv r "capacity_precursors_dropped" n j,
      Forgets-trans (Forgets-same _ (Forgets-refl m))
          (drop_family-Forgets r "capacity_precursors_dropped" n j),
      unfold drop_family in
          omega (arith, shrinks victim old "capacity_precursors_dropped" n found, i.bounded),
    )

make_room-RoomPost :
    (slot : Slot) (m : Memory) → Inv m → task_at slot m ≡ none → RoomPost m (make_room slot m)
unfolding make_room
make_room-RoomPost slot m i absent = elim (Bool-cases (leb m.max_tasks (length m.tasks))) [
  | inl full ↦ rw (absent, full) (evict-RoomPost slot m _ i refl)
  | inr room ↦ rw (absent, room) (i, Forgets-refl m, ground arith)
]

-- A table entry that was only forgotten is as excluded as before.
pub excluded :
    (t u : Task)
    → ((t ≡ u) ⊎ ((u.blocked ≡ true) × (t.blocked ≡ true) × (t.root ≡ none)))
    → u.blocked ≡ true
    → t.blocked ≡ true
excluded t u (inl a) h = ap (λ w. w.blocked) a ∙ h
excluded t u (inr a) h = a.1

-- What a fresh entry is: outside every family.
abbrev pub FreshPost : Memory × Result Task → Type 0
FreshPost (m', raise e) = Unit {0}
FreshPost (m', ok state) = (state.root ≡ none) × (state.has_children ≡ false)

module _ (slot : Slot) (start : ℕ) {l : Memory} where
  admit_after :
      (m : Memory) (r : Memory × Result (Unit {0}))
      → Forgets l m
      → RoomPost m r
      → task_at slot m ≡ none
      → TaskPost slot start l (continue_with (λ _. enter slot start) r)
        × FreshPost (continue_with (λ _. enter slot start) r)
  unfolding enter fresh_task
  admit_after m (m', raise e) f (i, g) absent = ((i, Forgets-trans f g), tt)
  admit_after m (m', ok u) f (i, g, room) absent = (
    enter-Admitted slot start i (Forgets-trans f g) (Forgets-absent slot g absent) room,
    (refl, refl),
  )

  admit-TaskPost :
      (m : Memory)
      → Inv m
      → Forgets l m
      → task_at slot m ≡ none
      → TaskPost slot start l (admit slot start m) × FreshPost (admit slot start m)
  unfolding admit
  admit-TaskPost m i f absent =
      admit_after m (make_room slot m) f (make_room-RoomPost slot m i absent) absent

moved_cgroup-Inv : (slot : Slot) (m : Memory) → Inv m → Inv (moved_cgroup slot m)
unfolding moved_cgroup
moved_cgroup-Inv slot m i = ground (arith, clear-Inv "cgroup_identity_changed" true m i)

moved_cgroup-Forgets : (slot : Slot) (m : Memory) → Inv m → Forgets m (moved_cgroup slot m)
unfolding moved_cgroup
moved_cgroup-Forgets slot m i =
    ground (arith, clear-Forgets "cgroup_identity_changed" true m i, Forgets-refl m)

-- Two cases of `task`: the slot is free or held by another generation, and the entry is new; or
-- the generation matches.
module _ (slot : Slot) (start : ℕ) (m : Memory) (i : Inv m) where
  pub task_fresh :
      (o : Option Task)
      → task_at slot m ≡ o
      → ((t : Task) → o ≡ some t → start_matches start t.start ≡ false)
      → TaskPost slot start m (task slot start m) × FreshPost (task slot start m)
  unfolding task
  task_fresh none e other =
      rw (e, task)
        (admit-TaskPost slot start (moved_cgroup slot m) (moved_cgroup-Inv slot m i)
          (moved_cgroup-Forgets slot m i) (Forgets-absent slot (moved_cgroup-Forgets slot m i) e))
  task_fresh (some t) e other =
      let n = tallied "pid_reuse" m in
      let j : Inv n = Inv-counts _ i in
      let r = root_or t.root (identity_of m.epoch slot t.start) in
      rw (e, task, other t refl)
        (admit-TaskPost slot start (drop_family r "reuse_precursors_dropped" n)
          (drop_family-Inv r "reuse_precursors_dropped" n j)
          (Forgets-trans (Forgets-same _ (Forgets-refl m))
            (drop_family-Forgets r "reuse_precursors_dropped" n j))
          (drop_own slot t "reuse_precursors_dropped" n j e))

  Known-entry :
      (t : Task)
      → task_at slot m ≡ some t
      → (Known m ⊎ (start ≡ 0))
      → ((t.start ≡ 0 → t.blocked ≡ true) ⊎ (start ≡ 0))
  Known-entry t e (inl k) = inl (k slot t e)
  Known-entry t e (inr z) = inr z

  pub task-TaskPost : (Known m ⊎ (start ≡ 0)) → TaskPost slot start m (task slot start m)
  unfolding task refresh
  task-TaskPost k = elim (Option-cases (task_at slot m)) [
    | inl e ↦ (task_fresh none e (λ t z. absurd (ground arith))).0
    | inr (t, e) ↦ elim (Bool-cases (start_matches start t.start)) [
      | inl same ↦
          rw (e, task, same)
            (refresh-Admitted slot start i (Forgets-refl m) t e same (Known-entry t e k))
      | inr other ↦ (task_fresh (some t) e (λ u z. ground arith)).0
    ]
  ]

-- The table after a call of `task` with a known start token has no new unknown entry.
pub Admitted-Known :
    (slot : Slot) (start : ℕ) (m m' : Memory) (state : Task)
    → start ≢ 0
    → Known m
    → Admitted slot start m m' state
    → Known m'
Admitted-Known slot start m m' state ne k a s t e z = elim (slot_discrete s slot) [
  | yes p ↦ absurd (ne (ground (arith, a.entry, a.generation)))
  | no p ↦ let (u, eu, su, c) = a.others s t p e in excluded t u c (k s u eu (sym su ∙ z))
]
