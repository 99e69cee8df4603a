-- ===== src/Behavior/Invariant/Families.antt =====
-- behavior_memory.py, `fork`: the invariant where a child joins the family of its parent.
use e_bpf_based_kernel_ai_se.Prelude.{
  ◌≡◌, refl, ap, sym, ◌∙◌, ◌⊎◌, inl, inr, ◌≢◌, subst, Option, none, some, true, false, ite, if_neg,
  if_pos, arith,
}
use e_bpf_based_kernel_ai_se.Dict.{put}
use e_bpf_based_kernel_ai_se.Dict.Laws.{get-put, Distinct-put, length-put_present}
use e_bpf_based_kernel_ai_se.Behavior.State.{Slot, Identity, Task, Precursor, Memory, slot_discrete}
use e_bpf_based_kernel_ai_se.Behavior.Tasks.{root_or, slot_of}
use e_bpf_based_kernel_ai_se.Behavior.Forks.{join_family}
use e_bpf_based_kernel_ai_se.Behavior.Invariant.{task_at, evidence_at, Heads, Inv, Known}

module _ (key : Identity) (state child : Task) (child_slot : Slot) (m : Memory) (i : Inv m)
    (epoch : key.epoch ≡ m.epoch) (at : task_at (slot_of key) m ≡ some state)
    (generation : state.start ≡ key.start) (usable : state.blocked ≡ false)
    (child_at : task_at child_slot m ≡ some child) (child_root : child.root ≡ none)
    (apart : child_slot ≢ slot_of key)
    (clean : (q : Identity) (p : Precursor)
      → evidence_at q m ≡ some p
      → slot_of q ≡ child_slot
      → child.start ≢ q.start) where
  abbrev family : Identity
  family = root_or state.root key

  abbrev joined : Memory
  joined = join_family (slot_of key) state child_slot child family m

  abbrev state' : Task
  state' = record state { root = some family; has_children = true }

  abbrev child' : Task
  child' = record child { root = some family }

  task_at-joined :
      (s : Slot)
      → task_at s joined
        ≡ ite
            (slot_discrete child_slot s)
            (some child')
            (ite (slot_discrete (slot_of key) s) (some state') (task_at s m))
  unfolding join_family
  task_at-joined s =
      get-put slot_discrete s child_slot child' (put slot_discrete (slot_of key) state' m.tasks)
      ∙ ap (ite (slot_discrete child_slot s) (some child'))
          (get-put slot_discrete s (slot_of key) state' m.tasks)

  joined_parent : task_at (slot_of key) joined ≡ some state'
  joined_parent =
      task_at-joined (slot_of key)
      ∙ (if_neg (slot_discrete child_slot (slot_of key)) apart _ _
          ∙ if_pos (slot_discrete (slot_of key) (slot_of key)) refl _ _)

  joined_other : (s : Slot) → child_slot ≢ s → slot_of key ≢ s → task_at s joined ≡ task_at s m
  joined_other s a b =
      task_at-joined s
      ∙ (if_neg (slot_discrete child_slot s) a _ _ ∙ if_neg (slot_discrete (slot_of key) s) b _ _)

  -- A head keeps its place, and the parent becomes one if it was none.
  head_stays :
      (q : Identity) (h : Task)
      → Heads m q h
      → ((h.root ≡ none) ⊎ (h.root ≡ some q))
      → child_slot ≢ slot_of q
      → (h' : Task) × Heads joined q h'
        × ((h'.root ≡ none) ⊎ (h'.root ≡ some q))
        × (h.root ≡ some q → h.has_children ≡ true → (h'.root ≡ some q) × (h'.has_children ≡ true))
  unfolding join_family
  head_stays q h k r ne = elim (slot_discrete (slot_of key) (slot_of q)) [
    | yes p ↦
        let same : h ≡ state = ground (arith, k.at) in
        let it : q ≡ key = ground (arith, k.epoch, k.generation) in
        let f : some family ≡ some q = ground arith in
        (
          state',
          record {
            epoch = k.epoch;
            at = rw (← p) joined_parent;
            generation = ap (λ t. t.start) (sym same) ∙ k.generation;
            usable = usable;
          },
          inr f,
          λ _ _. (f, refl),
        )
    | no p ↦ (
      h,
      record {
        epoch = k.epoch;
        at = joined_other (slot_of q) ne p ∙ k.at;
        generation = k.generation;
        usable = k.usable;
      },
      r,
      λ a b. (a, b),
    )
  ]

  not_child : (q : Identity) (h : Task) → Heads m q h → h.root ≡ some q → child_slot ≢ slot_of q
  not_child q h k r p = absurd (ground (arith, k.at))

  abbrev HasHead : Identity → Type 0
  HasHead f = (h : Task) × Heads joined f h × (h.root ≡ some f) × (h.has_children ≡ true)

  family_is : {o : Option Identity} → state.root ≡ o → root_or o key ≡ family
  family_is e = ap (λ o. root_or o key) (sym e)

  -- The family that the two entries join has a head, the parent itself if it had none.
  family_head : HasHead family
  unfolding join_family
  family_head = go state.root refl
    where
      go : (o : Option Identity) → state.root ≡ o → HasHead family
      go none e = subst HasHead (family_is e) (
        state',
        record { epoch = epoch; at = joined_parent; generation = generation; usable = usable },
        ap some (sym (family_is e)),
        refl,
      )
      go (some q) e =
          let (h, k, x, y) = i.families (slot_of key) state q at e in
          let (h', k', _, c) = head_stays q h k (inr x) (not_child q h k x) in
          subst HasHead (family_is e) (h', k', (c x y).0, (c x y).1)

  root_of_joined :
      (s : Slot) (t : Task)
      → task_at s joined ≡ some t
      → (t.root ≡ some family) ⊎ (task_at s m ≡ some t)
  root_of_joined s t e = ground (arith, task_at-joined s)

  joined_families :
      (t : Task) (q : Identity) (s : Slot)
      → t.root ≡ some q
      → ((t.root ≡ some family) ⊎ (task_at s m ≡ some t))
      → HasHead q
  joined_families t q s f (inl x) =
      let e : family ≡ q = ground (arith) in subst HasHead e family_head
  joined_families t q s f (inr e) =
      let (h, k, x, y) = i.families s t q e f in
      let (h', k', _, c) = head_stays q h k (inr x) (not_child q h k x) in
      (h', k', (c x y).0, (c x y).1)

  child_start :
      {q : Identity} (h : Task) → Heads m q h → child_slot ≡ slot_of q → child.start ≡ q.start
  child_start h k z =
      let same : h ≡ child = ground (arith, k.at) in ap (λ t. t.start) (sym same) ∙ k.generation

  pub join_family-Inv : Inv joined
  unfolding join_family
  join_family-Inv = record {
    capacity = i.capacity;
    retention = i.retention;
    distinct_tasks =
        Distinct-put slot_discrete child_slot child' _
          (Distinct-put slot_discrete (slot_of key) state' m.tasks i.distinct_tasks);
    distinct_evidence = i.distinct_evidence;
    bounded = ground (
      arith,
      i.bounded,
      length-put_present slot_discrete (slot_of key) state' state m.tasks at,
      length-put_present slot_discrete child_slot child' child
          (put slot_discrete (slot_of key) state' m.tasks)
          (get-put slot_discrete child_slot (slot_of key) state' m.tasks
            ∙ (if_neg (slot_discrete (slot_of key) child_slot) (λ p. apart (sym p)) _ _
                ∙ child_at)),
    );
    ordered = i.ordered;
    families = λ s t q e f. joined_families t q s f (root_of_joined s t e);
    alive = λ q p e.
        let (h, k, x) = i.alive q p e in
        let (h', k', y, _) = head_stays q h k x (λ z. clean q p e (sym z) (child_start h k z)) in
        (h', k', y);
  }

  pub join_family-Known : Known m → Known joined
  join_family-Known k s t e z =
      ground (arith, task_at-joined s, k s t, k (slot_of key) state at, k child_slot child child_at)
