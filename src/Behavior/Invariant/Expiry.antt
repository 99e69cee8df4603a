-- ===== src/Behavior/Invariant/Expiry.antt =====
-- behavior_memory.py, `expire`: the loop on the ordered evidence, and the invariant across the
-- passing of time.
use e_bpf_based_kernel_ai_se.Prelude.{
  ℕ, ◌+◌, ◌≤◌, ◌<◌, ◌≡◌, refl, ap, ◌∙◌, [], ◌∷◌, ◌++◌, some, Bool, not, leb, arith, String,
}
use e_bpf_based_kernel_ai_se.Dict.{Dict, keep, get}
use e_bpf_based_kernel_ai_se.Dict.Laws.{get-keep, Distinct-keep, kept}
use e_bpf_based_kernel_ai_se.Behavior.State.{
  Identity, Precursor, Memory, identity_discrete, tally, expire_loop, expire,
}
use e_bpf_based_kernel_ai_se.Behavior.Invariant.{Ascends, evidence_at, Inv}

-- Within the retention: `ts - t < ttl` over the integers.
abbrev pub is_young : ℕ → ℕ → Identity → Precursor → Bool
is_young ttl ts _ p = not (leb (p.ts + ttl) ts)

keep_all :
    (ttl ts lo : ℕ) (d : Dict Identity Precursor) (hi : ℕ)
    → Ascends lo d hi
    → ts < lo + ttl
    → keep (is_young ttl ts) d ≡ d
unfolding keep
keep_all ttl ts lo [] hi a h = refl
keep_all ttl ts lo ((k, p) ∷ d) hi a h = ground (arith, keep_all ttl ts p.ts d hi a.1)

expire_loop-keep :
    (ttl ts lo : ℕ) (d : Dict Identity Precursor) (hi : ℕ) (c : Dict String ℕ)
    → Ascends lo d hi
    → (expire_loop ttl ts d c).0 ≡ keep (is_young ttl ts) d
unfolding expire_loop keep
expire_loop-keep ttl ts lo [] hi c a = refl
expire_loop-keep ttl ts lo ((k, p) ∷ d) hi c a = ground (
  arith,
  expire_loop-keep ttl ts p.ts d hi (tally "retention_precursors_dropped" 1 c) a.1,
  keep_all ttl ts p.ts d hi a.1,
)

-- In a memory that satisfies the invariant, what `expire` leaves of the evidence is, in the same
-- order, exactly the entries whose age at `ts` is below the retention, although the loop stops at
-- the first such entry.
pub expire-keep :
    (ts : ℕ) (m : Memory) → Inv m → (expire ts m).evidence ≡ keep (is_young m.ttl ts) m.evidence
unfolding expire
expire-keep ts m i = expire_loop-keep m.ttl ts 0 m.evidence _ m.counts i.ordered

Ascends-lower :
    (lo lo' : ℕ) (d : Dict Identity Precursor) (hi : ℕ)
    → lo' ≤ lo
    → Ascends lo d hi
    → Ascends lo' d hi
Ascends-lower lo lo' [] hi h a = omega arith
Ascends-lower lo lo' ((k, p) ∷ d) hi h a = (omega arith, a.1)

pub Ascends-higher :
    (lo : ℕ) (d : Dict Identity Precursor) (hi hi' : ℕ)
    → hi ≤ hi'
    → Ascends lo d hi
    → Ascends lo d hi'
Ascends-higher lo [] hi hi' h a = omega arith
Ascends-higher lo ((k, p) ∷ d) hi hi' h a = (a.0, Ascends-higher p.ts d hi hi' h a.1)

Ascends-keep :
    (f : Identity → Precursor → Bool) (lo : ℕ) (d : Dict Identity Precursor) (hi : ℕ)
    → Ascends lo d hi
    → Ascends lo (keep f d) hi
unfolding keep
Ascends-keep f lo [] hi a = a
Ascends-keep f lo ((k, p) ∷ d) hi a =
    ground (arith, Ascends-keep f p.ts d hi a.1, Ascends-lower p.ts lo (keep f d) hi a.0)

pub Ascends-append :
    (lo : ℕ) (d : Dict Identity Precursor) (hi : ℕ) (k : Identity) (p : Precursor)
    → Ascends lo d hi
    → hi ≤ p.ts
    → Ascends lo (d ++ (k, p) ∷ []) p.ts
Ascends-append lo [] hi k p a h = (omega arith, omega arith)
Ascends-append lo ((j, q) ∷ d) hi k p a h = (a.0, Ascends-append q.ts d hi k p a.1 h)

evidence_at-expire :
    (q : Identity) (ts : ℕ) (m : Memory)
    → Inv m
    → evidence_at q (expire ts m) ≡ kept (is_young m.ttl ts) q (evidence_at q m)
evidence_at-expire q ts m i =
    ap (get identity_discrete q) (expire-keep ts m i)
    ∙ get-keep identity_discrete _ q m.evidence i.distinct_evidence

-- What is left after `expire` was there before, and is within the retention.
pub evidence_at-expire-some :
    (q : Identity) (p : Precursor) (ts : ℕ) (m : Memory)
    → Inv m
    → evidence_at q (expire ts m) ≡ some p
    → (evidence_at q m ≡ some p) × (ts < p.ts + m.ttl)
evidence_at-expire-some q p ts m i e = ground (arith, evidence_at-expire q ts m i)

pub expire-Inv : (ts : ℕ) (m : Memory) → Inv m → Inv (expire ts m)
unfolding expire
expire-Inv ts m i = record {
  capacity = i.capacity;
  retention = i.retention;
  distinct_tasks = i.distinct_tasks;
  distinct_evidence =
      rw (expire-keep ts m i) (Distinct-keep identity_discrete _ m.evidence i.distinct_evidence);
  bounded = i.bounded;
  ordered = rw (expire-keep ts m i) (Ascends-keep _ 0 m.evidence _ i.ordered);
  families = λ s t r e f.
      let (h, k, x, y) = i.families s t r e f in
      (
        h,
        record { epoch = k.epoch; at = k.at; generation = k.generation; usable = k.usable },
        x,
        y,
      );
  alive = λ r p e.
      let (h, k, x) = i.alive r p (evidence_at-expire-some r p ts m i e).0 in
      (h, record { epoch = k.epoch; at = k.at; generation = k.generation; usable = k.usable }, x);
}
