-- ===== src/Behavior/Invariant/Shared.antt =====
-- behavior_memory.py: the invariant across `clear`, `drop_family` and the reordering of the table.
use e_bpf_based_kernel_ai_se.Prelude.{
  ℕ, suc, ◌≤◌, ◌≡◌, refl, ap, sym, ◌∙◌, ◌⊎◌, inl, inr, [], ◌∷◌, Option, none, some, Bool, true,
  false, not, ◌&&◌, length, String, arith, if_neg, ◌≢◌,
}
use e_bpf_based_kernel_ai_se.Dict.{Dict, keep, get, pop, Distinct}
use e_bpf_based_kernel_ai_se.Dict.Laws.{
  get-keep, get-pop, kept, Distinct-keep, Distinct-pop, length-keep-le,
}
use e_bpf_based_kernel_ai_se.Behavior.State.{
  Slot, Identity, Task, Precursor, Loss, Memory, slot_discrete, identity_discrete, rebuild, clear,
  identity_of, in_family, drop_family,
}
use e_bpf_based_kernel_ai_se.Behavior.Tasks.{slot_of}
use e_bpf_based_kernel_ai_se.Behavior.Invariant.{
  Ascends, latest, task_at, evidence_at, Heads, Inv, Known,
}

-- The invariant speaks of the tables and of the last timestamp, and of nothing else.
pub Inv-rest :
    {m : Memory} (c : Dict String ℕ) (last : Option ℕ) (health : Option Loss) (n : ℕ)
    → Ascends 0 m.evidence (latest last)
    → Inv m
    → Inv (record m { counts = c; last_ts = last; health = health; next_ref = n })
Inv-rest {m} c last health n a i = record {
  capacity = i.capacity;
  retention = i.retention;
  distinct_tasks = i.distinct_tasks;
  distinct_evidence = i.distinct_evidence;
  bounded = i.bounded;
  ordered = a;
  families = λ s t r e f.
      let (h, k, x, y) = i.families s t r e f in
      (
        h,
        record { epoch = k.epoch; at = k.at; generation = k.generation; usable = k.usable },
        x,
        y,
      );
  alive = λ r p e.
      let (h, k, x) = i.alive r p e in
      (h, record { epoch = k.epoch; at = k.at; generation = k.generation; usable = k.usable }, x);
}

pub Inv-counts : {m : Memory} (c : Dict String ℕ) → Inv m → Inv (record m { counts = c })
Inv-counts {m} c i = Inv-rest c m.last_ts m.health m.next_ref i.ordered i

-- What `clear` rebuilds: the same slots, excluded and with no family left.
pub get-rebuild-none :
    (s : Slot) (n : ℕ) (d : Dict Slot Task)
    → get slot_discrete s d ≡ none
    → get slot_discrete s (rebuild n d) ≡ none
unfolding get rebuild
get-rebuild-none s n [] h = refl
get-rebuild-none s n ((k, v) ∷ d) h = ground (arith, get-rebuild-none s (suc n) d)

pub get-rebuild-some :
    (s : Slot) (n : ℕ) (d : Dict Slot Task) (t : Task)
    → get slot_discrete s (rebuild n d) ≡ some t
    → (u : Task) × (get slot_discrete s d ≡ some u)
      × (t.start ≡ u.start)
      × (t.blocked ≡ true)
      × (t.root ≡ none)
unfolding get rebuild
get-rebuild-some s n [] t e = cc
get-rebuild-some s n ((k, v) ∷ d) t e = elim (slot_discrete k s) [
  | yes p ↦ (v, ground arith, ground arith, ground arith, ground arith)
  | no p ↦ rw (if_neg _ p) (get-rebuild-some s (suc n) d t (ground arith))
]

pub Distinct-rebuild :
    (n : ℕ) (d : Dict Slot Task) → Distinct slot_discrete d → Distinct slot_discrete (rebuild n d)
unfolding rebuild
Distinct-rebuild n [] h = tt
Distinct-rebuild n ((k, v) ∷ d) h =
    (get-rebuild-none k (suc n) d h.0, Distinct-rebuild (suc n) d h.1)

pub length-rebuild : (n : ℕ) (d : Dict Slot Task) → length (rebuild n d) ≡ length d
unfolding rebuild
length-rebuild n [] = refl
length-rebuild n ((k, v) ∷ d) = ap suc (length-rebuild (suc n) d)

-- Every task that `clear` leaves was excluded before, in the same generation, and has no family.
pub task_at-clear :
    (s : Slot) (reason : String) (b : Bool) (m : Memory) (t : Task)
    → Distinct slot_discrete m.tasks
    → task_at s (clear reason b m) ≡ some t
    → (u : Task) × (task_at s m ≡ some u)
      × (t.start ≡ u.start)
      × (u.blocked ≡ true)
      × (t.blocked ≡ true)
      × (t.root ≡ none)
unfolding clear
task_at-clear s reason b m t d e = ground (
  arith,
  get-rebuild-some s m.next_ref (keep (λ _ v. b && v.blocked) m.tasks) t,
  get-keep slot_discrete (λ _ v. b && v.blocked) s m.tasks d,
)

pub clear-Inv : (reason : String) (b : Bool) (m : Memory) → Inv m → Inv (clear reason b m)
unfolding clear
clear-Inv reason b m i = record {
  capacity = i.capacity;
  retention = i.retention;
  distinct_tasks = Distinct-rebuild _ _ (Distinct-keep slot_discrete _ m.tasks i.distinct_tasks);
  distinct_evidence = tt;
  bounded = omega (
    arith,
    length-rebuild m.next_ref (keep (λ _ v. b && v.blocked) m.tasks),
    length-keep-le (λ (_ : Slot) (v : Task). b && v.blocked) m.tasks,
    i.bounded,
  );
  ordered = omega arith;
  families =
      λ s t r e f. absurd (ground (arith, (task_at-clear s reason b m t i.distinct_tasks e).5));
  alive = λ r p e. absurd (unfold get in cc);
}

-- The tasks that `drop_family` leaves are those outside the family, unchanged.
pub task_at-drop_family :
    (s : Slot) (r : Identity) (c : String) (m : Memory)
    → Distinct slot_discrete m.tasks
    → task_at s (drop_family r c m) ≡ kept (λ s v. not (in_family m.epoch r s v)) s (task_at s m)
unfolding drop_family
task_at-drop_family s r c m d = get-keep slot_discrete _ s m.tasks d

identity_of-slot_of :
    (e : String) (q : Identity) (n : ℕ)
    → q.epoch ≡ e
    → n ≡ q.start
    → identity_of e (slot_of q) n ≡ q
identity_of-slot_of e q n a b = rw (← a, b)

-- The entry that heads one family is in no other.
in_family-other :
    (m : Memory) (r q : Identity) (h : Task)
    → r ≢ q
    → q.epoch ≡ m.epoch
    → h.start ≡ q.start
    → ((h.root ≡ none) ⊎ (h.root ≡ some q))
    → in_family m.epoch r (slot_of q) h ≡ false
unfolding in_family
in_family-other m r q h ne e g root = ground (arith, identity_of-slot_of m.epoch q h.start e g)

-- A root other than `r` keeps its entry when the family of `r` is dropped.
Heads-drop_family :
    (r q : Identity) (c : String) (m : Memory) (h : Task)
    → Distinct slot_discrete m.tasks
    → r ≢ q
    → Heads m q h
    → ((h.root ≡ none) ⊎ (h.root ≡ some q))
    → Heads (drop_family r c m) q h
unfolding drop_family
Heads-drop_family r q c m h d ne k root = record {
  epoch = k.epoch;
  at = ground (
    arith,
    task_at-drop_family (slot_of q) r c m d,
    in_family-other m r q h ne k.epoch k.generation root,
  );
  generation = k.generation;
  usable = k.usable;
}

-- A task that `drop_family` leaves has another root.
task_at-drop_family-some :
    (s : Slot) (r : Identity) (c : String) (m : Memory) (t : Task)
    → Distinct slot_discrete m.tasks
    → task_at s (drop_family r c m) ≡ some t
    → (task_at s m ≡ some t) × (t.root ≢ some r)
unfolding in_family
task_at-drop_family-some s r c m t d e = ground (arith, task_at-drop_family s r c m d)

evidence_at-drop_family-some :
    (q r : Identity) (c : String) (m : Memory) (p : Precursor)
    → Distinct identity_discrete m.evidence
    → evidence_at q (drop_family r c m) ≡ some p
    → (evidence_at q m ≡ some p) × (r ≢ q)
unfolding drop_family
evidence_at-drop_family-some q r c m p d e =
    ground (arith, get-pop identity_discrete q r m.evidence d)

Ascends-weaken :
    (lo lo' : ℕ) (d : Dict Identity Precursor) (hi : ℕ)
    → lo' ≤ lo
    → Ascends lo d hi
    → Ascends lo' d hi
Ascends-weaken lo lo' [] hi h a = omega arith
Ascends-weaken lo lo' ((k, p) ∷ d) hi h a = (omega arith, a.1)

pub Ascends-pop :
    (r : Identity) (lo : ℕ) (d : Dict Identity Precursor) (hi : ℕ)
    → Ascends lo d hi
    → Ascends lo (pop identity_discrete r d) hi
unfolding pop
Ascends-pop r lo [] hi a = a
Ascends-pop r lo ((k, p) ∷ d) hi a =
    ground (arith, Ascends-pop r p.ts d hi a.1, Ascends-weaken p.ts lo d hi a.0 a.1)

pub drop_family-Inv : (r : Identity) (c : String) (m : Memory) → Inv m → Inv (drop_family r c m)
unfolding drop_family
drop_family-Inv r c m i = record {
  capacity = i.capacity;
  retention = i.retention;
  distinct_tasks = Distinct-keep slot_discrete _ m.tasks i.distinct_tasks;
  distinct_evidence = Distinct-pop identity_discrete r m.evidence i.distinct_evidence;
  bounded = omega (
    arith,
    length-keep-le (λ (s : Slot) (v : Task). not (in_family m.epoch r s v)) m.tasks,
    i.bounded,
  );
  ordered = Ascends-pop r 0 m.evidence _ i.ordered;
  families = λ s t q e f.
      let (e', ne) = task_at-drop_family-some s r c m t i.distinct_tasks e in
      let (h, k, x, y) = i.families s t q e' f in
      (
        h,
        Heads-drop_family r q c m h i.distinct_tasks (λ z. ne (f ∙ ap some (sym z))) k (inr x),
        x,
        y,
      );
  alive = λ q p e.
      let (e', ne) = evidence_at-drop_family-some q r c m p i.distinct_evidence e in
      let (h, k, x) = i.alive q p e' in (h, Heads-drop_family r q c m h i.distinct_tasks ne k x, x);
}

-- A state that came about by forgetting: evidence is only lost, and a task stays as it was, or
-- was excluded already and is so still, with no family.
pub record Forgets (m m' : Memory) : Type 0 where
  pub ttl : m'.ttl ≡ m.ttl
  pub max_tasks : m'.max_tasks ≡ m.max_tasks
  pub epoch : m'.epoch ≡ m.epoch
  pub last_ts : m'.last_ts ≡ m.last_ts
  pub evidence :
      (q : Identity) (p : Precursor) → evidence_at q m' ≡ some p → evidence_at q m ≡ some p
  pub tasks :
      (s : Slot) (t : Task)
      → task_at s m' ≡ some t
      → (u : Task) × (task_at s m ≡ some u)
        × (t.start ≡ u.start)
        × ((t ≡ u) ⊎ ((u.blocked ≡ true) × (t.blocked ≡ true) × (t.root ≡ none)))

pub Forgets-same :
    {m m' : Memory} (c : Dict String ℕ) → Forgets m m' → Forgets m (record m' { counts = c })
Forgets-same c f = record {
  ttl = f.ttl;
  max_tasks = f.max_tasks;
  epoch = f.epoch;
  last_ts = f.last_ts;
  evidence = f.evidence;
  tasks = f.tasks;
}

pub Forgets-refl : (m : Memory) → Forgets m m
Forgets-refl m = record {
  ttl = refl;
  max_tasks = refl;
  epoch = refl;
  last_ts = refl;
  evidence = λ q p e. e;
  tasks = λ s t e. (t, e, refl, inl refl);
}

step_back :
    (t u v : Task)
    → ((t ≡ u) ⊎ ((u.blocked ≡ true) × (t.blocked ≡ true) × (t.root ≡ none)))
    → ((u ≡ v) ⊎ ((v.blocked ≡ true) × (u.blocked ≡ true) × (u.root ≡ none)))
    → ((t ≡ v) ⊎ ((v.blocked ≡ true) × (t.blocked ≡ true) × (t.root ≡ none)))
step_back t u v (inl a) (inl b) = inl (a ∙ b)
step_back t u v (inl a) (inr b) = inr (b.0, ap (λ w. w.blocked) a ∙ b.1, ap (λ w. w.root) a ∙ b.2)
step_back t u v (inr a) (inl b) = inr (ap (λ w. w.blocked) (sym b) ∙ a.0, a.1, a.2)
step_back t u v (inr a) (inr b) = inr (b.0, a.1, a.2)

pub Forgets-trans : {l m n : Memory} → Forgets l m → Forgets m n → Forgets l n
Forgets-trans f g = record {
  ttl = g.ttl ∙ f.ttl;
  max_tasks = g.max_tasks ∙ f.max_tasks;
  epoch = g.epoch ∙ f.epoch;
  last_ts = g.last_ts ∙ f.last_ts;
  evidence = λ q p e. f.evidence q p (g.evidence q p e);
  tasks = λ s t e.
      let (u, eu, su, cu) = g.tasks s t e in
      let (v, ev, sv, cv) = f.tasks s u eu in (v, ev, su ∙ sv, step_back t u v cu cv);
}

pub clear-Forgets : (reason : String) (b : Bool) (m : Memory) → Inv m → Forgets m (clear reason b m)
unfolding clear
clear-Forgets reason b m i = record {
  ttl = refl;
  max_tasks = refl;
  epoch = refl;
  last_ts = refl;
  evidence = λ q p e. absurd (unfold get in cc);
  tasks = λ s t e.
      let (u, eu, su, bu, bt, rt) = task_at-clear s reason b m t i.distinct_tasks e in
      (u, eu, su, inr (bu, bt, rt));
}

pub drop_family-Forgets :
    (r : Identity) (c : String) (m : Memory) → Inv m → Forgets m (drop_family r c m)
unfolding drop_family
drop_family-Forgets r c m i = record {
  ttl = refl;
  max_tasks = refl;
  epoch = refl;
  last_ts = refl;
  evidence = λ q p e. (evidence_at-drop_family-some q r c m p i.distinct_evidence e).0;
  tasks = λ s t e. (t, (task_at-drop_family-some s r c m t i.distinct_tasks e).0, refl, inl refl);
}

pub Forgets-Known : {m m' : Memory} → Forgets m m' → Known m → Known m'
Forgets-Known f k s t e z =
    let (u, eu, su, c) = f.tasks s t e in excluded t u c (k s u eu (sym su ∙ z))
  where
    excluded :
        (t u : Task)
        → ((t ≡ u) ⊎ ((u.blocked ≡ true) × (t.blocked ≡ true) × (t.root ≡ none)))
        → u.blocked ≡ true
        → t.blocked ≡ true
    excluded t u (inl a) h = ap (λ w. w.blocked) a ∙ h
    excluded t u (inr a) h = a.1
