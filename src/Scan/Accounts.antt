-- ===== src/Scan/Accounts.antt =====
-- audit_unlink_buckets.py: what a report counts, and that chunks of any size give the same.
use mathlib.Core.List.{append-nil}
use e_bpf_based_kernel_ai_se.Prelude.{
  ℕ, ◌+◌, ◌≤◌, ◌≡◌, refl, ap, sym, ◌∙◌, List, [], ◌∷◌, subst, arith, Option-cases, inl, inr,
  take-append_le,
}
use e_bpf_based_kernel_ai_se.Dict.{Dict}
use e_bpf_based_kernel_ai_se.Dict.Sums.{total}
use e_bpf_based_kernel_ai_se.Dict.Values.{Values}
use e_bpf_based_kernel_ai_se.Chunks.{run, joined}
use e_bpf_based_kernel_ai_se.Chunks.Laws.{feed-joined, IsLocal}
use e_bpf_based_kernel_ai_se.Scan.Npz.{NpzRow, npz_error}
use e_bpf_based_kernel_ai_se.Scan.Unlinks.{
  Counts, State, start, check_frame, handle_event, Bucket, Report, audited, buckets_of, report_of,
  after_scan, audit,
}
use e_bpf_based_kernel_ai_se.Scan.Runs.{audit-Run, audit-invalid, audit-valid}
use e_bpf_based_kernel_ai_se.Scan.Balance.{Covered, Aligned, attempts_in, Balanced}

abbrev pub matched : List Bucket → ℕ
matched [] = 0
matched (b ∷ bs) = b.counts.attempts + matched bs

matched-buckets_of :
    (rows : List NpzRow) (d : Dict ℕ Counts)
    → Aligned rows d
    → matched (buckets_of rows d) ≡ attempts_in d
unfolding buckets_of total
matched-buckets_of [] [] h = refl
matched-buckets_of [] ((b, c) ∷ d) h = absurd h
matched-buckets_of (r ∷ rs) [] h = absurd h
matched-buckets_of (r ∷ rs) ((b, c) ∷ d) h = omega (arith, matched-buckets_of rs d h.1)

abbrev pub AddsUp : ℕ → Report → Type 0
AddsUp expected r =
    (r.recorded_file_unlink ≡ expected)
    × (r.matched_unlink_attempts + r.dropped_outside_npz ≡ expected)
    × (matched r.buckets ≡ r.matched_unlink_attempts)
    × (r.unknown_scope_attempts ≤ expected)

unknown-attempts :
    (d : Dict ℕ Counts) → Values Covered d → total (λ (c : Counts). c.unknown) d ≤ attempts_in d
unfolding total
unknown-attempts [] v = omega arith
unknown-attempts ((b, c) ∷ d) v = omega (arith, v.0, unknown-attempts d v.1)

report_of-AddsUp :
    (rows : List NpzRow) (s : State) → Balanced rows 0 s → AddsUp s.total (report_of rows s)
unfolding report_of
report_of-AddsUp rows s i = (
  refl,
  omega (arith, i.sum),
  matched-buckets_of rows s.rows i.aligned,
  omega (arith, i.sum, i.lost, unknown-attempts s.rows i.covered),
)

-- A report counts as many attempts as were expected; each is in the bucket of one row or outside of
-- all rows, the buckets of the report add up to the first kind, and no more attempts have an
-- unknown directory than there are.
pub audit-AddsUp :
    (rows : List NpzRow) (expected : ℕ) (chunks : List (List ℕ)) (r : Report)
    → audit rows expected chunks ≡ audited r
    → AddsUp expected r
audit-AddsUp rows expected chunks r h =
    let run = audit-Run rows expected chunks r h in
    subst (λ (q : Report). AddsUp expected q) run.is_report
      (subst (λ (n : ℕ). AddsUp n (report_of rows run.state)) run.as_expected
        (report_of-AddsUp rows run.state run.balanced))

handle_event-IsLocal : IsLocal check_frame handle_event
unfolding handle_event
handle_event-IsLocal n xs ys s h = rw (take-append_le n xs ys h, handle_event)

-- How the decompressed bytes are cut into chunks shows neither in the report nor in the error.
pub audit-joined :
    (rows : List NpzRow) (expected : ℕ) (chunks : List (List ℕ))
    → audit rows expected chunks ≡ audit rows expected (joined chunks ∷ [])
audit-joined rows expected chunks = elim (Option-cases (npz_error rows)) [
  | inr (e, q) ↦ audit-invalid rows expected chunks e q ∙ sym (audit-invalid rows expected _ e q)
  | inl q ↦
      audit-valid rows expected chunks q
      ∙ ap (after_scan rows expected) (
          feed-joined check_frame handle_event handle_event-IsLocal chunks (start rows)
          ∙ ap (λ (b : List ℕ). run check_frame handle_event b (start rows))
              (sym (append-nil (joined chunks)))
          ∙ sym (
              feed-joined check_frame handle_event handle_event-IsLocal (joined chunks ∷ [])
                (start rows)))
      ∙ sym (audit-valid rows expected _ q)
]
