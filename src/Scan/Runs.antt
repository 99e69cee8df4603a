-- ===== src/Scan/Runs.antt =====
-- audit_unlink_buckets.py: what a run of the audit that ends with a report has gone through.
use e_bpf_based_kernel_ai_se.Prelude.{
  ℕ, ◌≡◌, refl, sym, ◌∙◌, List, [], ◌∷◌, none, some, not, subst, if◌then◌else◌, ◌==◌, arith,
  Option-cases, inl, inr,
}
use e_bpf_based_kernel_ai_se.Chunks.{Progress, more, stopped, feed}
use e_bpf_based_kernel_ai_se.Chunks.Keeps.{AfterChunk}
use e_bpf_based_kernel_ai_se.Scan.Npz.{Error, count_mismatch, NpzRow, npz_error}
use e_bpf_based_kernel_ai_se.Scan.Unlinks.{
  State, start, check_frame, handle_event, Report, failed, audited, report_of, after_scan, audit,
}
use e_bpf_based_kernel_ai_se.Scan.Balance.{Balanced, scan-Balanced}

-- What a run that ends with a report has gone through.
pub record Run (rows : List NpzRow) (expected : ℕ) (chunks : List (List ℕ)) (r : Report)
    : Type 0 where
  pub state : State
  pub valid : npz_error rows ≡ none
  pub whole : feed check_frame handle_event chunks [] (start rows) ≡ more state []
  pub as_expected : state.total ≡ expected
  pub is_report : report_of rows state ≡ r
  pub balanced : Balanced rows 0 state

counted :
    (a b : ℕ) (f : Error) (q r : Report)
    → (if not (a == b) then failed f else audited q) ≡ audited r
    → (a ≡ b) × (q ≡ r)
counted a b f q r h = ground arith

after_scan-audited :
    (rows : List NpzRow) (expected : ℕ) (p : Progress Error State) (r : Report)
    → after_scan rows expected p ≡ audited r
    → (s : State) × ((p ≡ more s []) × (s.total ≡ expected) × (report_of rows s ≡ r))
unfolding after_scan
after_scan-audited rows expected (stopped e s) r h = cc
after_scan-audited rows expected (more s (x ∷ xs)) r h = cc
after_scan-audited rows expected (more s []) r h =
    let c = counted s.total expected count_mismatch (report_of rows s) r h in (s, (refl, c.0, c.1))

pub audit-invalid :
    (rows : List NpzRow) (expected : ℕ) (chunks : List (List ℕ)) (e : Error)
    → npz_error rows ≡ some e
    → audit rows expected chunks ≡ failed e
unfolding audit
audit-invalid rows expected chunks e q = rw (q, audit)

pub audit-valid :
    (rows : List NpzRow) (expected : ℕ) (chunks : List (List ℕ))
    → npz_error rows ≡ none
    → audit rows expected chunks
      ≡ after_scan rows expected (feed check_frame handle_event chunks [] (start rows))
unfolding audit
audit-valid rows expected chunks q = rw (q, audit)

pub audit-Run :
    (rows : List NpzRow) (expected : ℕ) (chunks : List (List ℕ)) (r : Report)
    → audit rows expected chunks ≡ audited r
    → Run rows expected chunks r
audit-Run rows expected chunks r h = elim (Option-cases (npz_error rows)) [
  | inr (e, q) ↦ let f = sym h ∙ audit-invalid rows expected chunks e q in cc
  | inl q ↦
      let p = feed check_frame handle_event chunks [] (start rows) in
      let a = after_scan-audited rows expected p r (sym (audit-valid rows expected chunks q) ∙ h) in
      record {
        state = a.0;
        valid = q;
        whole = a.1.0;
        as_expected = a.1.1;
        is_report = a.1.2;
        balanced = subst (AfterChunk (Balanced rows 0)) a.1.0 (scan-Balanced rows chunks);
      }
]
