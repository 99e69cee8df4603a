-- ===== src/Scan/Balance.antt =====
-- audit_unlink_buckets.py: how the counters of a scan belong together.
use e_bpf_based_kernel_ai_se.Prelude.{
  ℕ, suc, ◌+◌, ◌*◌, ◌/◌, ◌≤◌, ◌≡◌, refl, ap, List, [], ◌∷◌, some, ◌==◌, length, arith, Bool-cases,
  Option-cases, inl, inr, length-append, take, ℕ_discrete,
}
use e_bpf_based_kernel_ai_se.Bytes.{u32, u64}
use e_bpf_based_kernel_ai_se.Dict.{Dict, get, put}
use e_bpf_based_kernel_ai_se.Dict.Sums.{at, total, total-put}
use e_bpf_based_kernel_ai_se.Dict.Values.{Values, Values-put, Values-get}
use e_bpf_based_kernel_ai_se.Chunks.{feed}
use e_bpf_based_kernel_ai_se.Chunks.Keeps.{AfterEvent, AfterChunk, feed-keeps}
use e_bpf_based_kernel_ai_se.Detector.Event.{header_of}
use e_bpf_based_kernel_ai_se.Unlinks.Audit.{second, natural}
use e_bpf_based_kernel_ai_se.Scan.Npz.{NpzRow}
use e_bpf_based_kernel_ai_se.Scan.Unlinks.{
  Scope, add_scope, Counts, State, empty_rows, start, check_frame, bad_event, note_attempt,
  note_scope, note_flags, note_unlink, handle_event,
}

-- No attempt is counted as known and unknown, and a directory needs an attempt.
abbrev pub Covered : Counts → Type 0
Covered c = c.unknown + length c.scopes ≤ c.attempts

-- The counts stand in the order of the rows.
abbrev pub Aligned : List NpzRow → Dict ℕ Counts → Type 0
Aligned [] [] = Unit
Aligned [] ((b, c) ∷ d) = ⊥
Aligned (r ∷ rs) [] = ⊥
Aligned (r ∷ rs) ((b, c) ∷ d) = (b ≡ natural r.bucket_ns) × Aligned rs d

abbrev pub attempts_in : Dict ℕ Counts → ℕ
attempts_in = total (λ (c : Counts). c.attempts)

-- `k` events are counted and wait for their place.
pub record Balanced (rows : List NpzRow) (k : ℕ) (s : State) : Type 0 where
  pub sum : s.total ≡ k + (attempts_in s.rows + s.outside)
  pub lost : s.outside_unknown ≤ s.outside
  pub covered : Values Covered s.rows
  pub aligned : Aligned rows s.rows

add_scope-length : (x : Scope) (xs : List Scope) → length (add_scope x xs) ≤ suc (length xs)
unfolding add_scope
add_scope-length x xs = ground (arith, length-append xs (x ∷ []))

note_attempt-Covered : (x : Scope) (c : Counts) → Covered c → Covered (note_attempt x c)
unfolding note_attempt
note_attempt-Covered x c h = ground (arith, add_scope-length x c.scopes)

note_attempt-attempts : (x : Scope) (c : Counts) → (note_attempt x c).attempts ≡ suc c.attempts
unfolding note_attempt
note_attempt-attempts x c = refl

put-Aligned :
    (rows : List NpzRow) (b : ℕ) (c c' : Counts) (d : Dict ℕ Counts)
    → get ℕ_discrete b d ≡ some c
    → Aligned rows d
    → Aligned rows (put ℕ_discrete b c' d)
unfolding get put
put-Aligned [] b c c' [] e h = cc
put-Aligned [] b c c' ((j, x) ∷ d) e h = absurd h
put-Aligned (r ∷ rs) b c c' [] e h = absurd h
put-Aligned (r ∷ rs) b c c' ((j, x) ∷ d) e h = elim (ℕ_discrete j b) [
  | yes p ↦ ground (arith, h)
  | no p ↦ ground (arith, h, put-Aligned rs b c c' d)
]

module _ (rows : List NpzRow) where
  note_scope-Balanced :
      (b : ℕ) (x : Scope) (s : State) → Balanced rows 1 s → Balanced rows 0 (note_scope b x s)
  unfolding note_scope
  note_scope-Balanced b x s i = elim (Option-cases (get ℕ_discrete b s.rows)) [
    | inl q ↦
        rw (q, note_scope)
          (record {
            sum = omega (arith, i.sum);
            lost = ground (arith, i.lost);
            covered = i.covered;
            aligned = i.aligned;
          })
    | inr (c, q) ↦
        let c' = note_attempt x c in
        rw (q, note_scope)
          (record {
            sum = omega (
              arith,
              i.sum,
              total-put (λ (c : Counts). c.attempts) ℕ_discrete b c' s.rows,
              ap (at (λ (c : Counts). c.attempts)) q,
              note_attempt-attempts x c,
            );
            lost = i.lost;
            covered =
                Values-put Covered ℕ_discrete b c' s.rows i.covered
                  (note_attempt-Covered x c (Values-get Covered ℕ_discrete b c s.rows i.covered q));
            aligned = put-Aligned rows b c c' s.rows q i.aligned;
          })
  ]

  note_flags-Balanced :
      (ev : List ℕ) (s : State) → Balanced rows 0 s → Balanced rows 1 (note_flags ev s)
  unfolding note_flags
  note_flags-Balanced ev s i = record {
    sum = omega (arith, i.sum);
    lost = i.lost;
    covered = i.covered;
    aligned = i.aligned;
  }

  note_unlink-Balanced :
      (ts : ℕ) (ev : List ℕ) (s : State)
      → Balanced rows 0 s
      → AfterEvent (Balanced rows 0) (note_unlink ts ev s)
  unfolding note_unlink
  note_unlink-Balanced ts ev s i = elim (Bool-cases (u32 116 ev == 2)) [
    | inl e ↦ rw e (
        note_scope-Balanced (ts / second * second)
          (record { device = u32 104 ev; directory_inode = u64 96 ev }) (note_flags ev s)
          (note_flags-Balanced ev s i))
    | inr e ↦ rw e i
  ]

  handle_event-Balanced :
      (n : ℕ) (rest : List ℕ) (s : State)
      → Balanced rows 0 s
      → AfterEvent (Balanced rows 0) (handle_event n rest s)
  unfolding handle_event
  handle_event-Balanced n rest s i =
      let ev = take n rest in
      let h = header_of ev in
      let s' = record s { frames = suc s.frames } in
      let i' : Balanced rows 0 s' = record {
        sum = i.sum;
        lost = i.lost;
        covered = i.covered;
        aligned = i.aligned;
      } in
      elim (Bool-cases (bad_event n h)) [
        | inl e ↦ rw e i
        | inr e ↦ rw e (elim (Bool-cases (h.etype == 7)) [
          | inl f ↦ rw f (note_unlink-Balanced h.ts ev s' i')
          | inr f ↦ rw f i'
        ])
      ]

empty_rows-Aligned : (rows : List NpzRow) → Aligned rows (empty_rows rows)
unfolding empty_rows
empty_rows-Aligned [] = tt
empty_rows-Aligned (r ∷ rs) = (refl, empty_rows-Aligned rs)

empty_rows-Covered : (rows : List NpzRow) → Values Covered (empty_rows rows)
unfolding empty_rows
empty_rows-Covered [] = tt
empty_rows-Covered (r ∷ rs) = (omega arith, empty_rows-Covered rs)

empty_rows-attempts_in : (rows : List NpzRow) → attempts_in (empty_rows rows) ≡ 0
unfolding empty_rows total
empty_rows-attempts_in [] = refl
empty_rows-attempts_in (r ∷ rs) = omega (arith, empty_rows-attempts_in rs)

start-Balanced : (rows : List NpzRow) → Balanced rows 0 (start rows)
unfolding start
start-Balanced rows = record {
  sum = omega (arith, empty_rows-attempts_in rows);
  lost = omega arith;
  covered = empty_rows-Covered rows;
  aligned = empty_rows-Aligned rows;
}

pub scan-Balanced :
    (rows : List NpzRow) (chunks : List (List ℕ))
    → AfterChunk (Balanced rows 0) (feed check_frame handle_event chunks [] (start rows))
scan-Balanced rows chunks =
    feed-keeps (Balanced rows 0) check_frame handle_event (handle_event-Balanced rows) chunks []
      (start rows) (start-Balanced rows)
