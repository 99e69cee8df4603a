-- ===== src/Traces/Bounds.antt =====
-- bin2traces.py: the sizes, the numbers and the shares of the traces.
use e_bpf_based_kernel_ai_se.Prelude.{
  ℕ, zero, suc, ◌≤◌, ◌<◌, ◌≡◌, refl, ap, ◌∙◌, subst, List, [], ◌∷◌, ◌++◌, Option, none, some, ◌||◌,
  ite, ltb, leb, ◌==◌, length, map, arith, Bool-cases, Option-cases, inl, inr, All, All-append,
  length-append,
}
use e_bpf_based_kernel_ai_se.Bytes.{u16, u32}
use e_bpf_based_kernel_ai_se.Dict.{Dict, get, put}
use e_bpf_based_kernel_ai_se.Dict.Laws.{get-put, put-put}
use e_bpf_based_kernel_ai_se.Dict.Values.{Values, Values-put, Values-get}
use e_bpf_based_kernel_ai_se.Extract.State.{Key, key_discrete, list_at}
use e_bpf_based_kernel_ai_se.Traces.Convert.{
  name_discrete, Options, Trace, State, emitted_of, comm_of, write_trace, flush, note_comm, clear,
  note_call, convert, flush_all,
}

-- How many traces a program has.
unfoldable pub traces_of : List ℕ → List Trace → ℕ
traces_of c [] = 0
traces_of c (t ∷ ts) = ite (name_discrete t.comm c) (suc (traces_of c ts)) (traces_of c ts)

-- 0, 1, ..., n - 1
unfoldable pub upto : ℕ → List ℕ
upto zero = []
upto (suc n) = upto n ++ n ∷ []

traces_of-append :
    (c : List ℕ) (t : Trace) (ts : List Trace)
    → traces_of c (ts ++ t ∷ [])
      ≡ ite (name_discrete t.comm c) (suc (traces_of c ts)) (traces_of c ts)
unfolding traces_of
traces_of-append c t [] = refl
traces_of-append c t (x ∷ ts) = ground (arith, traces_of-append c t ts)

numbers-append :
    (t : Trace) (ts : List Trace)
    → map (λ (t : Trace). t.number) (ts ++ t ∷ [])
      ≡ map (λ (t : Trace). t.number) ts ++ t.number ∷ []
numbers-append t [] = refl
numbers-append t (x ∷ ts) = ap (◌∷◌ x.number) (numbers-append t ts)

module _ (o : Options) where
  -- The traces that a run may have written.
  pub record Fair (s : State) : Type 0 where
    pub sizes :
        All (λ (t : Trace). (o.min_len ≤ length t.values) × (length t.values ≤ o.window)) s.traces
    pub numbers : map (λ (t : Trace). t.number) s.traces ≡ upto s.written
    pub shares :
        (c : List ℕ)
        → (traces_of c s.traces ≡ emitted_of c s.emitted) × (traces_of c s.traces ≤ o.max_per_comm)

  emitted_of-put :
      (c d : List ℕ) (n : ℕ) (e : Dict (List ℕ) ℕ)
      → emitted_of c (put name_discrete d n e) ≡ ite (name_discrete d c) n (emitted_of c e)
  unfolding emitted_of
  emitted_of-put c d n e = ground (arith, get-put name_discrete c d n e)

  share_after :
      (c : List ℕ) (t : Trace) (ts : List Trace) (e : Dict (List ℕ) ℕ)
      → (traces_of c ts ≡ emitted_of c e) × (traces_of c ts ≤ o.max_per_comm)
      → emitted_of t.comm e < o.max_per_comm
      → (traces_of c (ts ++ t ∷ [])
          ≡ emitted_of c (put name_discrete t.comm (suc (emitted_of t.comm e)) e))
        × (traces_of c (ts ++ t ∷ []) ≤ o.max_per_comm)
  share_after c t ts e (h, l) m = elim (name_discrete t.comm c) [
    | yes p ↦ ground (
      arith,
      traces_of-append c t ts,
      emitted_of-put c t.comm (suc (emitted_of t.comm e)) e,
      ap (λ (c : List ℕ). emitted_of c e) p,
    )
    | no p ↦
        ground
          (arith, traces_of-append c t ts, emitted_of-put c t.comm (suc (emitted_of t.comm e)) e)
  ]

  write_trace-Fair :
      (k : Key) (comm values : List ℕ) (s : State)
      → o.min_len ≤ length values
      → length values ≤ o.window
      → emitted_of comm s.emitted < o.max_per_comm
      → Fair s
      → Fair (write_trace k comm values s)
  unfolding write_trace upto
  write_trace-Fair k comm values s a b m f =
      let t : Trace = record { comm = comm; key = k; number = s.written; values = values } in
      record {
        sizes = All-append _ s.traces (t ∷ []) f.sizes ((a, b), tt);
        numbers = numbers-append t s.traces ∙ ap (λ (ns : List ℕ). ns ++ s.written ∷ []) f.numbers;
        shares = λ c. share_after c t s.traces s.emitted (f.shares c) m;
      }

  flush-Fair :
      (k : Key) (s : State) → length (list_at k s.pending) ≤ o.window → Fair s → Fair (flush o k s)
  unfolding flush
  flush-Fair k s h f =
      let comm = comm_of k s.comms in
      let values = list_at k s.pending in
      elim (Bool-cases
        (ltb (length values) o.min_len || leb o.max_per_comm (emitted_of comm s.emitted))) [
          | inl stays ↦ rw stays f
          | inr goes ↦ rw goes (write_trace-Fair k comm values s (ground arith) h (ground arith) f)
        ]

  flush-pending : (k : Key) (s : State) → (flush o k s).pending ≡ s.pending
  unfolding flush write_trace
  flush-pending k s = ground arith

  same-Fair :
      (s t : State)
      → s.traces ≡ t.traces
      → s.written ≡ t.written
      → s.emitted ≡ t.emitted
      → Fair s
      → Fair t
  same-Fair s t a b c f = record {
    sizes = subst (All _) a f.sizes;
    numbers = rw (← a, ← b) f.numbers;
    shares = λ n. rw (← a, ← c) (f.shares n);
  }

  note_comm-keeps :
      (k : Key) (p : List ℕ) (s : State)
      → ((note_comm k p s).pending ≡ s.pending)
        × (s.traces ≡ (note_comm k p s).traces)
        × (s.written ≡ (note_comm k p s).written)
        × (s.emitted ≡ (note_comm k p s).emitted)
  unfolding note_comm
  note_comm-keeps k p s = ground arith

  module _ (window : 0 < o.window) where
    abbrev pub IsShort : List ℕ → Type 0
    IsShort values = length values < o.window

    pub record Inv (s : State) : Type 0 where
      pub pending : Values IsShort s.pending
      pub fair : Fair s

    list_at-IsShort : (k : Key) (d : Dict Key (List ℕ)) → Values IsShort d → IsShort (list_at k d)
    unfolding list_at
    list_at-IsShort k d v = elim (Option-cases (get key_discrete k d)) [
      | inl e ↦ rw (e, list_at) window
      | inr (q, e) ↦ rw (e, list_at) (Values-get IsShort key_discrete k q d v e)
    ]

    list_at-put :
        (k : Key) (values : List ℕ) (d : Dict Key (List ℕ))
        → list_at k (put key_discrete k values d) ≡ values
    unfolding list_at
    list_at-put k values d = ground (arith, get-put key_discrete k k values d)

    -- The state that `note_call` flushes, and what it leaves.
    full_window-Inv :
        (k : Key) (values : List ℕ) (s : State)
        → length values ≡ o.window
        → Inv s
        → Inv (clear k (flush o k (record s { pending = put key_discrete k values s.pending })))
    unfolding clear
    full_window-Inv k values s e i =
        let s' = record s { pending = put key_discrete k values s.pending } in
        let f =
          flush-Fair k s' (omega (arith, ap length (list_at-put k values s.pending)))
            (same-Fair s s' refl refl refl i.fair) in
        record {
          pending =
              rw (flush-pending k s', put-put key_discrete k [] values s.pending)
                (Values-put IsShort key_discrete k [] s.pending i.pending window);
          fair = same-Fair (flush o k s') _ refl refl refl f;
        }

    note_call-Inv :
        (k : Key) (p : List ℕ) (n : Option ℕ) (s : State) → Inv s → Inv (note_call o k p n s)
    unfolding note_call
    note_call-Inv k p none s i = i
    note_call-Inv k p (some n) s i =
        let t = note_comm k p s in
        let (q, a, b, c) = note_comm-keeps k p s in
        let j : Inv t = record { pending = rw q i.pending; fair = same-Fair s t a b c i.fair } in
        let values = list_at k t.pending ++ n ∷ [] in
        let l = length-append (list_at k t.pending) (n ∷ []) in
        let h = list_at-IsShort k t.pending j.pending in
        elim (Bool-cases (length values == o.window)) [
          | inl whole ↦ rw whole (full_window-Inv k values t (ground arith) j)
          | inr part ↦ rw part (record {
            pending =
                Values-put IsShort key_discrete k values t.pending j.pending (ground (arith, l));
            fair = same-Fair t _ refl refl refl j.fair;
          })
        ]

    pub convert-Inv : (p : List ℕ) (s : State) → Inv s → Inv (convert o p s)
    unfolding convert
    convert-Inv p s i = elim (Bool-cases (u16 70 p == 14)) [
      | inl a ↦ rw a (record { pending = i.pending; fair = same-Fair s _ refl refl refl i.fair })
      | inr a ↦ elim (Bool-cases (u16 70 p == 4)) [
        | inl b ↦ rw (a, b) (note_call-Inv _ p (o.number_map (u32 88 p)) s i)
        | inr b ↦ rw (a, b) i
      ]
    ]

    pub flush_all-Fair : (ks : List Key) (s : State) → Inv s → Fair (flush_all o ks s)
    unfolding flush_all
    flush_all-Fair [] s i = i.fair
    flush_all-Fair (k ∷ ks) s i = flush_all-Fair ks (flush o k s) (record {
      pending = rw (flush-pending k s) i.pending;
      fair = flush-Fair k s (omega (arith, list_at-IsShort k s.pending i.pending)) i.fair;
    })
