-- ===== src/Behavior/Invariant/Forking.antt =====
-- behavior_memory.py, `fork`: the invariant across a whole call, for every payload.
use e_bpf_based_kernel_ai_se.Prelude.{
  ℕ, ◌≡◌, refl, ap, sym, subst, ◌∙◌, ◌⊎◌, inl, inr, ◌≢◌, Option, none, some, Bool, true, false, not,
  ◌||◌, ◌==◌, arith, List, String, Bool-cases, Option-cases,
}
use e_bpf_based_kernel_ai_se.Behavior.State.{
  Slot, Identity, Task, Precursor, Memory, Result, ok, raise, tallied, clear,
}
use e_bpf_based_kernel_ai_se.Behavior.Replay.{continue_with, modify}
use e_bpf_based_kernel_ai_se.Behavior.Tasks.{root_or, slot_of, start_matches, task, root}
use e_bpf_based_kernel_ai_se.Behavior.Forks.{
  ForkPayload, already_born, join_family, rejoin, attach, bear, bear_under, fork_known,
  fork_payload, fork,
}
use e_bpf_based_kernel_ai_se.Behavior.Invariant.{task_at, evidence_at, Inv, Valid}
use e_bpf_based_kernel_ai_se.Behavior.Invariant.Shared.{
  Inv-counts, clear-Inv, clear-Forgets, Forgets-Known,
}
use e_bpf_based_kernel_ai_se.Behavior.Invariant.Admission.{Admitted, TaskPost}
use e_bpf_based_kernel_ai_se.Behavior.Invariant.Admitting.{task_fresh, FreshPost, Admitted-Known}
use e_bpf_based_kernel_ai_se.Behavior.Invariant.Roots.{root_resolves, block_thread-Valid}
use e_bpf_based_kernel_ai_se.Behavior.Invariant.Families.{join_family-Inv, join_family-Known}

pub clear-Valid : (reason : String) (b : Bool) {m : Memory} → Valid m → Valid (clear reason b m)
clear-Valid reason b {m} v = record {
  inv = clear-Inv reason b m v.inv;
  known = Forgets-Known (clear-Forgets reason b m v.inv) v.known;
}

pub tallied-Valid : (reason : String) {m : Memory} → Valid m → Valid (tallied reason m)
tallied-Valid reason v = record { inv = Inv-counts _ v.inv; known = v.known }

-- The family of the parent was found before, and is found again.
rejoin_joins :
    (key : Identity) (state child : Task) (child_slot : Slot) (family : Identity) (m : Memory)
    (o : Option Identity)
    → Inv m
    → task_at (slot_of key) m ≡ some state
    → rejoin key state child_slot child family o m
      ≡ join_family (slot_of key) state child_slot child family m
unfolding rejoin
rejoin_joins key state child child_slot family m none i e = refl
rejoin_joins key state child child_slot family m (some q) i e =
    let r = root_resolves key (slot_of key) state m i e in
    rw (r, rejoin) (ap (λ x. join_family (slot_of key) state child_slot child family x.0) r)

module _ (key : Identity) (state : Task) (m : Memory) (v : Valid m) (epoch : key.epoch ≡ m.epoch)
    (at : task_at (slot_of key) m ≡ some state) (generation : state.start ≡ key.start)
    (usable : state.blocked ≡ false) where
  abbrev family : Identity
  family = root_or state.root key

  -- An entry of the parent's slot that is still there is the parent's.
  still :
      (now u : Task)
      → task_at (slot_of key) m ≡ some u
      → ((now ≡ u) ⊎ ((u.blocked ≡ true) × (now.blocked ≡ true) × (now.root ≡ none)))
      → now ≡ state
  still now u e (inl x) = ground arith
  still now u e (inr x) = absurd (ground arith)

  module _ (child_slot : Slot) (child_start : ℕ) (apart : child_slot ≢ slot_of key)
      (known : child_start ≢ 0)
      (born : already_born (task_at child_slot m) child_start ≡ false) where
    -- No evidence is kept for a generation that is only now born.
    clean :
        (q : Identity) (p : Precursor)
        → evidence_at q m ≡ some p
        → slot_of q ≡ child_slot
        → child_start ≢ q.start
    unfolding already_born
    clean q p e z s =
        let (h, k, _) = v.inv.alive q p e in absurd (ground (arith, k.at, k.generation))

    attach-Valid :
        (m' : Memory) (child : Task)
        → Admitted child_slot child_start m m' child
        → child.root ≡ none
        → Valid (attach key state child_slot child family m')
    unfolding attach
    attach-Valid m' child a r = elim (Option-cases (task_at (slot_of key) m')) [
      | inl e ↦ rw (e, attach) (clear-Valid _ true v')
      | inr (now, e) ↦ elim (Bool-cases (now.ref == state.ref)) [
        | inr other ↦ rw (e, attach, other) (clear-Valid _ true v')
        | inl same ↦
            let (u, eu, _, c) = a.others (slot_of key) now (λ p. apart (sym p)) e in
            let it = still now u eu c in
            let e' : task_at (slot_of key) m' ≡ some state = e ∙ ap some it in
            rw
              (
                e,
                attach,
                same,
                it,
                rejoin_joins key state child child_slot family m' state.root a.inv e',
              )
              (joined e')
      ]
    ]
      where
        v' : Valid m'
        v' = record {
          inv = a.inv;
          known = Admitted-Known child_slot child_start m m' child known v.known a;
        }

        clean' :
            (q : Identity) (p : Precursor)
            → evidence_at q m' ≡ some p
            → slot_of q ≡ child_slot
            → child.start ≢ q.start
        clean' q p e z s = clean q p (a.evidence q p e) z (sym a.generation ∙ s)

        joined :
            task_at (slot_of key) m' ≡ some state
            → Valid (join_family (slot_of key) state child_slot child family m')
        joined e = record {
          inv =
              join_family-Inv key state child child_slot m' a.inv (epoch ∙ sym a.epoch) e generation
                usable a.entry r apart clean';
          known =
              join_family-Known key state child child_slot m' a.inv (epoch ∙ sym a.epoch) e
                generation usable a.entry r apart clean' v'.known;
        }

    bear_after :
        (r : Memory × Result Task)
        → TaskPost child_slot child_start m r
        → FreshPost r
        → Valid (continue_with (λ child. modify (attach key state child_slot child family)) r).0
    bear_after (m', raise e) (i, f) _ = record { inv = i; known = Forgets-Known f v.known }
    bear_after (m', ok child) a r = attach-Valid m' child a r.0

    unborn : (t : Task) → task_at child_slot m ≡ some t → start_matches child_start t.start ≡ false
    unfolding already_born
    unborn t e = ground arith

    bear-Valid : Valid (bear key state child_slot child_start family m).0
    unfolding bear
    bear-Valid = rw born (
        let (p, f) = task_fresh child_slot child_start m v.inv (task_at child_slot m) refl unborn in
        bear_after (task child_slot child_start m) p f)

  bear_any :
      (child_slot : Slot) (child_start : ℕ)
      → child_slot ≢ slot_of key
      → child_start ≢ 0
      → Valid (bear key state child_slot child_start family m).0
  unfolding bear
  bear_any child_slot child_start apart known =
      elim (Bool-cases (already_born (task_at child_slot m) child_start)) [
        | inl twice ↦ rw (twice, bear) (clear-Valid "unresolved_fork_generation" true v)
        | inr born ↦ bear-Valid child_slot child_start apart known born
      ]

fresh_start :
    (p : ForkPayload)
    → (not (p.reserved == 0) || ((p.child_tgid == 0) || (p.child_start == 0))) ≡ false
    → p.child_start ≢ 0
fresh_start p e = ground arith

module _ (key : Identity) (state : Task) (m : Memory) (v : Valid m) (epoch : key.epoch ≡ m.epoch)
    (at : task_at (slot_of key) m ≡ some state) (generation : state.start ≡ key.start) where
  bear_under-Valid :
      (child_slot : Slot) (child_start : ℕ)
      → state.blocked ≡ false
      → child_slot ≢ slot_of key
      → child_start ≢ 0
      → Valid (bear_under key state child_slot child_start (root key state m)).0
  unfolding bear_under
  bear_under-Valid child_slot child_start usable apart known =
      subst (λ r. Valid (bear_under key state child_slot child_start r).0)
        (sym (root_resolves key (slot_of key) state m v.inv at))
        (bear_any key state m v epoch at generation usable child_slot child_start apart known)

  not_parent :
      (child : ℕ) → child ≢ key.pid → record { cgroup = key.cgroup; pid = child } ≢ slot_of key
  not_parent child ne e = ne (ap (λ (s : Slot). s.pid) e)

  fork_known-Valid : (p : ForkPayload) → p.child ≢ key.pid → Valid (fork_known key state p m).0
  unfolding fork_known
  fork_known-Valid p ne = ground (
    arith,
    clear-Valid "unresolved_fork_generation" true v,
    block_thread-Valid (slot_of key) m v,
    tallied-Valid "blocked_thread_generation" v,
    λ (u : state.blocked ≡ false).
        bear_under-Valid (record { cgroup = key.cgroup; pid = p.child }) p.child_start u
          (not_parent p.child ne),
  )

  -- A fork event leaves a well-formed memory, on every branch and whether or not it raises.
  pub fork-Valid : (event : List ℕ) (flags : ℕ) → Valid (fork event key state flags m).0
  unfolding fork
  fork-Valid event flags =
      let p = fork_payload event in
      ground (
        arith,
        clear-Valid "unresolved_fork" true v,
        clear-Valid "missing_fork_identity" true
            (tallied-Valid "descendant_correlation_unsupported" v),
        fork_known-Valid p,
      )
