-- ===== src/Behavior/Invariant/Steps.antt =====
-- behavior_memory.py: the invariant across the exit of a task and the memory of an open.
use e_bpf_based_kernel_ai_se.Prelude.{
  ℕ, ◌≡◌, refl, ap, sym, ◌∙◌, ◌⊎◌, inl, inr, ◌≢◌, subst, [], ◌∷◌, ◌++◌, Option, none, some, true,
  false, ite, if_neg, arith, Bool-cases, String,
}
use e_bpf_based_kernel_ai_se.Dict.{put, pop}
use e_bpf_based_kernel_ai_se.Dict.Laws.{
  put_absent, get-pop_self, Distinct-pop, Distinct-put, get-put, get-pop, length-pop,
}
use e_bpf_based_kernel_ai_se.Behavior.State.{
  Slot, Identity, Task, Precursor, Memory, slot_discrete, identity_discrete, drop_family,
  identity_of,
}
use e_bpf_based_kernel_ai_se.Behavior.Tasks.{root_or, slot_of}
use e_bpf_based_kernel_ai_se.Behavior.Activity.{remember}
use e_bpf_based_kernel_ai_se.Behavior.Observe.{is_leaf, observe_exit}
use e_bpf_based_kernel_ai_se.Behavior.Invariant.{latest, task_at, evidence_at, Heads, Valid}
use e_bpf_based_kernel_ai_se.Behavior.Invariant.Shared.{
  drop_family-Inv, drop_family-Forgets, Forgets-Known, Ascends-pop,
}
use e_bpf_based_kernel_ai_se.Behavior.Invariant.Forking.{tallied-Valid}
use e_bpf_based_kernel_ai_se.Behavior.Invariant.Expiry.{Ascends-append}

-- The task of an event, as `observe` has it after `task`.
module _ (key : Identity) (state : Task) (m : Memory) (v : Valid m) (epoch : key.epoch ≡ m.epoch)
    (at : task_at (slot_of key) m ≡ some state) (generation : state.start ≡ key.start) where
  own : identity_of m.epoch (slot_of key) state.start ≡ key
  own = rw (← epoch, generation)

  pub family_lives :
      state.blocked ≡ false
      → (h : Task) × Heads m (root_or state.root key) h
        × ((h.root ≡ none) ⊎ (h.root ≡ some (root_or state.root key)))
  family_lives usable = go state.root refl
    where
      Lives : Identity → Type 0
      Lives f = (h : Task) × Heads m f h × ((h.root ≡ none) ⊎ (h.root ≡ some f))

      go : (o : Option Identity) → state.root ≡ o → Lives (root_or state.root key)
      go none e = subst Lives (ap (λ o. root_or o key) (sym e)) (
        state,
        record { epoch = epoch; at = at; generation = generation; usable = usable },
        inl e,
      )
      go (some q) e =
          let (h, k, x, _) = v.inv.families (slot_of key) state q at e in
          subst Lives (ap (λ o. root_or o key) (sym e)) (h, k, inr x)

  -- The leaf that leaves is the head of no family, nor of evidence.
  not_leaf :
      (q : Identity) (h : Task)
      → is_leaf key state ≡ true
      → Heads m q h
      → ((h.root ≡ none) ⊎ (h.root ≡ some q))
      → slot_of key ≢ slot_of q
  unfolding is_leaf
  not_leaf q h leaf k r p =
      let same : h ≡ state = ground (arith, k.at) in
      let it : q ≡ key = ground (arith, k.epoch, k.generation) in absurd (ground arith)

  abbrev without : Memory
  without = record m { tasks = pop slot_discrete (slot_of key) m.tasks }

  task_at-without :
      (s : Slot) → task_at s without ≡ ite (slot_discrete (slot_of key) s) none (task_at s m)
  task_at-without s = get-pop slot_discrete s (slot_of key) m.tasks v.inv.distinct_tasks

  was_there : (s : Slot) (t : Task) → task_at s without ≡ some t → task_at s m ≡ some t
  was_there s t e = ground (arith, task_at-without s)

  head_remains :
      is_leaf key state ≡ true
      → (q : Identity) (h : Task) → Heads m q h
      → ((h.root ≡ none) ⊎ (h.root ≡ some q))
      → Heads without q h
  head_remains leaf q h k r = record {
    epoch = k.epoch;
    at =
        task_at-without (slot_of q)
        ∙ (if_neg (slot_discrete (slot_of key) (slot_of q)) (not_leaf q h leaf k r) _ _ ∙ k.at);
    generation = k.generation;
    usable = k.usable;
  }

  without-Valid : is_leaf key state ≡ true → Valid without
  without-Valid leaf = record {
    inv = record {
      capacity = v.inv.capacity;
      retention = v.inv.retention;
      distinct_tasks = Distinct-pop slot_discrete (slot_of key) m.tasks v.inv.distinct_tasks;
      distinct_evidence = v.inv.distinct_evidence;
      bounded = omega (arith, length-pop slot_discrete (slot_of key) m.tasks, v.inv.bounded);
      ordered = v.inv.ordered;
      families = λ s t q e f.
          let (h, k, x, y) = v.inv.families s t q (was_there s t e) f in
          (h, head_remains leaf q h k (inr x), x, y);
      alive = λ q p e. let (h, k, x) = v.inv.alive q p e in (h, head_remains leaf q h k x, x);
    };
    known = λ s t e. v.known s t (was_there s t e);
  }

  drop_family-Valid : (r : Identity) (c : String) → Valid (drop_family r c m)
  drop_family-Valid r c = record {
    inv = drop_family-Inv r c m v.inv;
    known = Forgets-Known (drop_family-Forgets r c m v.inv) v.known;
  }

  pub observe_exit-Valid : Valid (observe_exit key state m)
  unfolding observe_exit
  observe_exit-Valid = elim (Bool-cases (is_leaf key state)) [
    | inl leaf ↦ rw leaf (tallied-Valid "leaf_exits" (without-Valid leaf))
    | inr rest ↦ rw rest (drop_family-Valid (root_or state.root key) "exit_precursors_dropped")
  ]

-- Evidence at a living root, no older than the last event.
module _ (family key : Identity) (ts : ℕ) (m : Memory) (v : Valid m)
    (lives : (h : Task) × Heads m family h × ((h.root ≡ none) ⊎ (h.root ≡ some family)))
    (now : latest m.last_ts ≡ ts) where
  abbrev fresh : Precursor
  fresh = record { ts = ts; source = key }

  appended :
      put identity_discrete family fresh (pop identity_discrete family m.evidence)
      ≡ pop identity_discrete family m.evidence ++ (family, fresh) ∷ []
  appended =
      put_absent identity_discrete family fresh _
        (get-pop_self identity_discrete family m.evidence v.inv.distinct_evidence)

  evidence_at-remember :
      (q : Identity)
      → evidence_at q (remember family ts key m)
        ≡ ite (identity_discrete family q) (some fresh) (evidence_at q m)
  unfolding remember
  evidence_at-remember q = ground (
    arith,
    get-put identity_discrete q family fresh (pop identity_discrete family m.evidence),
    get-pop identity_discrete q family m.evidence v.inv.distinct_evidence,
  )

  stands :
      (q : Identity) (p : Precursor)
      → evidence_at q (remember family ts key m) ≡ some p
      → (h : Task) × Heads m q h × ((h.root ≡ none) ⊎ (h.root ≡ some q))
  stands q p e = elim (identity_discrete family q) [
    | yes f ↦ subst (λ r. (h : Task) × Heads m r h × ((h.root ≡ none) ⊎ (h.root ≡ some r))) f lives
    | no f ↦
        v.inv.alive q p
          (sym (evidence_at-remember q ∙ if_neg (identity_discrete family q) f _ _) ∙ e)
  ]

  pub remember-Valid : Valid (remember family ts key m)
  unfolding remember
  remember-Valid = record {
    inv = record {
      capacity = v.inv.capacity;
      retention = v.inv.retention;
      distinct_tasks = v.inv.distinct_tasks;
      distinct_evidence =
          Distinct-put identity_discrete family fresh _
            (Distinct-pop identity_discrete family m.evidence v.inv.distinct_evidence);
      bounded = v.inv.bounded;
      ordered =
          rw (appended, now)
            (Ascends-append 0 (pop identity_discrete family m.evidence) (latest m.last_ts) family
              fresh (Ascends-pop family 0 m.evidence _ v.inv.ordered) (omega (arith, now)));
      families = λ s t r e f.
          let (h, k, x, y) = v.inv.families s t r e f in
          (
            h,
            record { epoch = k.epoch; at = k.at; generation = k.generation; usable = k.usable },
            x,
            y,
          );
      alive = λ q p e.
          let (h, k, x) = stands q p e in
          (
            h,
            record { epoch = k.epoch; at = k.at; generation = k.generation; usable = k.usable },
            x,
          );
    };
    known = v.known;
  }
