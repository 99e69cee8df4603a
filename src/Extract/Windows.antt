-- ===== src/Extract/Windows.antt =====
-- extract.py: the sizes of the windows and of the samples.
use e_bpf_based_kernel_ai_se.Prelude.{
  ℕ, zero, suc, ◌≤◌, ◌<◌, ◌≡◌, refl, ap, List, [], ◌∷◌, ◌++◌, Option, none, some, Bool, ltb, length,
  max, arith, Bool-cases, Option-cases, inl, inr, All, All-append, length-append,
}
use e_bpf_based_kernel_ai_se.Dict.{Dict, get, put}
use e_bpf_based_kernel_ai_se.Dict.Values.{Values, Values-put, Values-get}
use e_bpf_based_kernel_ai_se.Extract.State.{
  Key, key_discrete, Stratum, stratum_discrete, Options, Calls, full, slim, Rec, State, list_at,
}
use e_bpf_based_kernel_ai_se.Extract.Flush.{
  forget, reset, record_of, replace_at, sample, after_draw, strata_at, sample_unit, sample_all,
  emit, flush_as, stratum_of, flush,
}

abbrev pub size : Calls → ℕ
size (full seq) = length seq
size (slim n u) = n

-- The longest window: the first length at which it may go out.
abbrev pub limit : Options → ℕ
limit o = max o.window o.min_len

module _ (o : Options) where
  abbrev pub IsSized : Rec → Type 0
  IsSized r = (o.min_len ≤ size r.calls) × (size r.calls ≤ limit o)

  -- A sample of at most `cap` windows of the right size.
  abbrev pub IsSample : ℕ → List Rec → Type 0
  IsSample cap rs = All IsSized rs × (length rs ≤ cap)

  -- What was kept of the windows so far.
  pub record Kept (s : State) : Type 0 where
    pub out : All IsSized s.out
    pub strata : Values (IsSample o.max_per_unit) s.strata
    pub reservoir : IsSample o.max_records s.reservoir

  pub record Inv (s : State) : Type 0 where
    pub queues : Values (λ (seq : List ℕ). length seq < limit o) s.sysq
    pub kept : Kept s

  replace_at-IsSample :
      (cap j : ℕ) (r : Rec) (rs : List Rec)
      → IsSized r
      → IsSample cap rs
      → IsSample cap (replace_at j r rs)
  unfolding replace_at
  replace_at-IsSample cap j r [] z h = h
  replace_at-IsSample cap zero r (x ∷ xs) z h = ((z, h.0.1), h.1)
  replace_at-IsSample zero (suc j) r (x ∷ xs) z h = absurd (omega (arith, h.1))
  replace_at-IsSample (suc cap) (suc j) r (x ∷ xs) z h =
      let (a, b) = replace_at-IsSample cap j r xs z (h.0.1, omega (arith, h.1)) in
      ((h.0.0, a), omega (arith, b))

  sample-IsSample :
      (cap j : ℕ) (r : Rec) (rs : List Rec)
      → IsSized r
      → IsSample cap rs
      → IsSample cap (sample cap j r rs)
  unfolding sample
  sample-IsSample cap j r rs z h = elim (Bool-cases (ltb (length rs) cap)) [
    | inl room ↦
        rw room
          (All-append IsSized rs (r ∷ []) h.0 (z, tt), ground (arith, length-append rs (r ∷ [])))
    | inr no_room ↦ elim (Bool-cases (ltb j cap)) [
      | inl drawn ↦ rw (no_room, drawn) (replace_at-IsSample cap j r rs z h)
      | inr missed ↦ rw (no_room, missed) h
    ]
  ]

  strata_at-IsSample :
      (u : Stratum) (d : Dict Stratum (List Rec))
      → Values (IsSample o.max_per_unit) d
      → IsSample o.max_per_unit (strata_at u d)
  unfolding strata_at
  strata_at-IsSample u d v = elim (Option-cases (get stratum_discrete u d)) [
    | inl e ↦ rw (e, strata_at) (tt, omega arith)
    | inr (rs, e) ↦
        rw (e, strata_at) (Values-get (IsSample o.max_per_unit) stratum_discrete u rs d v e)
  ]

  after_draw-Kept : (cap : ℕ) (rs : List Rec) (s : State) → Kept s → Kept (after_draw cap rs s)
  after_draw-Kept cap rs s k = elim (Bool-cases (ltb (length rs) cap)) [
    | inl room ↦ rw room k
    | inr full' ↦ rw full' (record { out = k.out; strata = k.strata; reservoir = k.reservoir })
  ]

  emit-Kept : (r : Rec) (s : State) → IsSized r → Kept s → Kept (emit o r s)
  unfolding emit sample_unit sample_all
  emit-Kept r s z k =
      let written : Kept (record s { out = s.out ++ r ∷ [] }) = record {
        out = All-append IsSized s.out (r ∷ []) k.out (z, tt);
        strata = k.strata;
        reservoir = k.reservoir;
      } in
      let by_unit : Kept (sample_unit o r s) =
        let res = strata_at r.stratum s.strata in
        after_draw-Kept o.max_per_unit res _ (record {
          out = k.out;
          strata =
              Values-put (IsSample o.max_per_unit) stratum_discrete r.stratum _ s.strata k.strata (
                sample-IsSample o.max_per_unit _ r res z
                  (strata_at-IsSample r.stratum s.strata k.strata));
          reservoir = k.reservoir;
        }) in
      let at_random : Kept (sample_all o r s) =
        after_draw-Kept o.max_records s.reservoir _ (record {
          out = k.out;
          strata = k.strata;
          reservoir = sample-IsSample o.max_records _ r s.reservoir z k.reservoir;
        }) in
      ground (arith, written, by_unit, at_random)

  record_of-size :
      (k : Key) (u : Stratum) (s : State)
      → size (record_of o k u s).calls ≡ length (list_at k s.sysq)
  unfolding record_of
  record_of-size k u s = ground arith

  pub flush_as-Kept :
      (k : Key) (u : Option Stratum) (s : State)
      → o.min_len ≤ length (list_at k s.sysq)
      → length (list_at k s.sysq) ≤ limit o
      → Kept s
      → Kept (flush_as o k u s)
  unfolding flush_as reset
  flush_as-Kept k none s l h kept = record {
    out = kept.out;
    strata = kept.strata;
    reservoir = kept.reservoir;
  }
  flush_as-Kept k (some u) s l h kept =
      let z = record_of-size k u s in
      let e = emit-Kept (record_of o k u s) s (omega (arith, z), omega (arith, z)) kept in
      record { out = e.out; strata = e.strata; reservoir = e.reservoir }

  emit-sysq : (r : Rec) (s : State) → (emit o r s).sysq ≡ s.sysq
  unfolding emit sample_unit sample_all
  emit-sysq r s = ground arith

  pub flush_as-sysq :
      (k : Key) (u : Option Stratum) (s : State)
      → (flush_as o k u s).sysq ≡ put key_discrete k [] s.sysq
  unfolding flush_as reset
  flush_as-sysq k none s = refl
  flush_as-sysq k (some u) s = ap (put key_discrete k []) (emit-sysq (record_of o k u s) s)

  pub flush-Kept :
      (force : Bool) (k : Key) (s : State)
      → length (list_at k s.sysq) ≤ limit o
      → Kept s
      → Kept (flush o force k s)
  unfolding flush forget
  flush-Kept force k s h kept = elim (Bool-cases (ltb (length (list_at k s.sysq)) o.min_len)) [
    | inl short ↦
        let dropped : Kept (forget k s) = record {
          out = kept.out;
          strata = kept.strata;
          reservoir = kept.reservoir;
        } in
        rw short (ground (arith, dropped, kept))
    | inr long ↦ rw long (flush_as-Kept k (stratum_of o k) s (ground arith) h kept)
  ]
