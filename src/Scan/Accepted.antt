-- ===== src/Scan/Accepted.antt =====
-- audit_unlink_buckets.py and temporal_unlinks.py: the second reads what the first writes.
use e_bpf_based_kernel_ai_se.Prelude.{
  ℕ, suc, ◌-◌, ◌*◌, ◌%◌, ◌≤◌, ◌≡◌, refl, ap, sym, ◌∙◌, List, [], ◌∷◌, Option, none, some, Bool,
  true, false, not, ◌||◌, subst, if◌then◌else◌, ◌==◌, ltb, any, map, length, arith, All,
}
use e_bpf_based_kernel_ai_se.Dict.{Dict}
use e_bpf_based_kernel_ai_se.Dict.Sums.{total}
use e_bpf_based_kernel_ai_se.Dict.Values.{Values}
use e_bpf_based_kernel_ai_se.Decoder.Event.{ℤ, pos}
use e_bpf_based_kernel_ai_se.Aggregate.Files.{same_int}
use e_bpf_based_kernel_ai_se.Unlinks.Audit.{
  Entry, Audit, second, int64_max, is_negative, natural, has_twice, bad_time, bad_times, bad_count,
  bad_scopes, entry_error, total_of, total_error, audit_error, too_many, sum_mismatch, incomplete,
  outside_npz, invalid_times,
}
use e_bpf_based_kernel_ai_se.Scan.Npz.{invalid_buckets, NpzRow, bad_bucket, npz_error}
use e_bpf_based_kernel_ai_se.Scan.Unlinks.{
  Counts, State, Bucket, Report, audited, buckets_of, report_of, audit,
}
use e_bpf_based_kernel_ai_se.Scan.Runs.{audit-Run}
use e_bpf_based_kernel_ai_se.Scan.Balance.{Covered, Aligned, attempts_in, Balanced}

-- The report as the JSON that `temporal_features` reads.
unfoldable pub entry_of : Bucket → Entry
entry_of b = record {
  bucket_ns = b.row.bucket_ns;
  unlink_attempts = pos b.counts.attempts;
  unique_directory_scopes = pos (length b.counts.scopes);
  unknown_scope_attempts = pos b.counts.unknown;
}

unfoldable pub audit_of : Report → Audit
unfolding entry_of
audit_of r = record {
  buckets = map entry_of r.buckets;
  dropped_outside_npz = pos r.dropped_outside_npz;
  npz_buckets = pos r.npz_buckets;
  matched_unlink_attempts = pos r.matched_unlink_attempts;
  recorded_file_unlink = pos r.recorded_file_unlink;
}

abbrev entries : List NpzRow → Dict ℕ Counts → List Entry
entries rows d = map entry_of (buckets_of rows d)

abbrev time_of : NpzRow → ℤ
time_of r = r.bucket_ns

entries-times :
    (rows : List NpzRow) (d : Dict ℕ Counts)
    → Aligned rows d
    → map (λ (e : Entry). e.bucket_ns) (entries rows d) ≡ map time_of rows
unfolding buckets_of entry_of
entries-times [] [] h = refl
entries-times [] ((b, c) ∷ d) h = absurd h
entries-times (r ∷ rs) [] h = absurd h
entries-times (r ∷ rs) ((b, c) ∷ d) h = ap (◌∷◌ r.bucket_ns) (entries-times rs d h.1)

entries-length :
    (rows : List NpzRow) (d : Dict ℕ Counts)
    → Aligned rows d
    → length (entries rows d) ≡ length rows
unfolding buckets_of
entries-length [] [] h = refl
entries-length [] ((b, c) ∷ d) h = absurd h
entries-length (r ∷ rs) [] h = absurd h
entries-length (r ∷ rs) ((b, c) ∷ d) h = ap suc (entries-length rs d h.1)

entries-total :
    (rows : List NpzRow) (d : Dict ℕ Counts)
    → Aligned rows d
    → total_of (entries rows d) ≡ attempts_in d
unfolding buckets_of total_of total entry_of natural
entries-total [] [] h = refl
entries-total [] ((b, c) ∷ d) h = absurd h
entries-total (r ∷ rs) [] h = absurd h
entries-total (r ∷ rs) ((b, c) ∷ d) h = omega (arith, entries-total rs d h.1)

entries-fine :
    (rows : List NpzRow) (d : Dict ℕ Counts)
    → Values Covered d
    → entry_error (entries rows d) ≡ none
unfolding buckets_of entry_error entry_of natural bad_count bad_scopes is_negative
entries-fine [] d v = refl
entries-fine (r ∷ rs) [] v = refl
entries-fine (r ∷ rs) ((b, c) ∷ d) v = ground (arith, entries-fine rs d v.1, v.0)

-- The last window of the row fits in 64 bits.
abbrev pub Fits : NpzRow → Type 0
Fits r = natural r.bucket_ns ≤ int64_max - 60 * second

or_false : (a b c : Bool) → a || b ≡ false → c ≡ false → a || (b || c) ≡ false
or_false a b c e f = ground arith

either_false : (a b : Bool) → a || b ≡ false → (a ≡ false) × (b ≡ false)
either_false a b e = ground arith

both_false : (a b : Bool) → a ≡ false → b ≡ false → a || b ≡ false
both_false a b e f = ground arith

ltb_le : (m n : ℕ) → n ≤ m → ltb m n ≡ false
ltb_le m n h = ground arith

fitting_time : (r : NpzRow) → bad_bucket r ≡ false → Fits r → bad_time r.bucket_ns ≡ false
unfolding bad_bucket bad_time
fitting_time r e f =
    or_false (is_negative r.bucket_ns) (not (natural r.bucket_ns % second == 0)) _ e
      (ltb_le (int64_max - 60 * second) (natural r.bucket_ns) f)

fitting-times :
    (rows : List NpzRow)
    → any bad_bucket rows ≡ false
    → All Fits rows
    → any bad_time (map time_of rows) ≡ false
fitting-times [] e f = refl
fitting-times (r ∷ rs) e f =
    let q = either_false (bad_bucket r) (any bad_bucket rs) e in
    both_false (bad_time r.bucket_ns) (any bad_time (map time_of rs)) (fitting_time r q.0 f.0)
      (fitting-times rs q.1 f.1)

map-natural :
    (rows : List NpzRow)
    → map natural (map time_of rows) ≡ map (λ (q : NpzRow). natural q.bucket_ns) rows
map-natural [] = refl
map-natural (r ∷ rs) = ap (◌∷◌ (natural r.bucket_ns)) (map-natural rs)

if_none :
    {A : Type 0} (b : Bool) (e : A) (o : Option A)
    → (if b then some e else o) ≡ none
    → (b ≡ false) × (o ≡ none)
if_none b e o h = ground arith

good-times :
    (rows : List NpzRow)
    → npz_error rows ≡ none
    → All Fits rows
    → bad_times (map time_of rows) ≡ false
unfolding npz_error bad_times
good-times [] e f = cc
good-times (r ∷ rs) e f =
    let q = if_none _ invalid_buckets _ e in
    let t = either_false _ _ q.0 in
    both_false _ _ (fitting-times (r ∷ rs) t.0 f) (ap has_twice (map-natural (r ∷ rs)) ∙ t.1)

passing :
    {A : Type 0} (a b c : Bool) (x y z : A) (o : Option A)
    → a ≡ true
    → b ≡ false
    → c ≡ true
    → o ≡ none
    → (if not a then some x else if b then some y else if not c then some z else o) ≡ none
passing a b c x y z o p q r s = ground arith

passing_total :
    {A : Type 0} (a b c : Bool) (x y z : A)
    → a ≡ false
    → b ≡ true
    → c ≡ true
    → (if a then some x else if not b then some y else if not c then some z else none) ≡ none
passing_total a b c x y z p q r = ground arith

same : (m n : ℕ) → m ≡ n → (m == n) ≡ true
same m n e = ground arith

good-total :
    (rows : List NpzRow) (s : State)
    → Balanced rows 0 s
    → s.outside ≡ 0
    → s.total ≤ int64_max
    → total_error (audit_of (report_of rows s)) ≡ none
unfolding audit_of report_of total_error same_int
good-total rows s i o l =
    let t = entries-total rows s.rows i.aligned in
    passing_total _ _ _ too_many sum_mismatch incomplete
      (ltb_le int64_max (total_of (entries rows s.rows)) (omega (arith, t, i.sum))) (same _ _ t)
      (same _ _ (omega (arith, i.sum)))

entry_or :
    {A : Type 0} (o t : Option A)
    → o ≡ none
    → t ≡ none
    → (elim o [ some e ↦ some e | none ↦ t ]) ≡ none
entry_or none t p q = q
entry_or (some e) t p q = cc

-- On the report of a finished run, each check of the reader passes.
accepted :
    (rows : List NpzRow) (s : State)
    → npz_error rows ≡ none
    → All Fits rows
    → Balanced rows 0 s
    → s.outside ≡ 0
    → s.total ≤ int64_max
    → audit_error (audit_of (report_of rows s)) ≡ none
unfolding audit_error audit_of report_of same_int
accepted rows s v f i o l =
    let es = entries rows s.rows in
    passing _ _ _ outside_npz invalid_times e_bpf_based_kernel_ai_se.Unlinks.Audit.count_mismatch _
      (same _ _ o) (ap bad_times (entries-times rows s.rows i.aligned) ∙ good-times rows v f)
      (same _ _ (sym (entries-length rows s.rows i.aligned)))
      (entry_or _ _ (entries-fine rows s.rows i.covered) (good-total rows s i o l))

-- A report of the audit of a capture, written to JSON, is accepted by `temporal_features` if no
-- attempt fell outside of all rows, the last window of every row ends within 64 bits, and the
-- number of attempts fits in 64 bits.
pub audit-Accepted :
    (rows : List NpzRow) (expected : ℕ) (chunks : List (List ℕ)) (r : Report)
    → audit rows expected chunks ≡ audited r
    → r.dropped_outside_npz ≡ 0
    → All Fits rows
    → r.recorded_file_unlink ≤ int64_max
    → audit_error (audit_of r) ≡ none
unfolding report_of
audit-Accepted rows expected chunks r h o f l =
    let run = audit-Run rows expected chunks r h in
    ap (λ (q : Report). audit_error (audit_of q)) (sym run.is_report)
    ∙ accepted rows run.state run.valid f run.balanced
        (ap (λ (q : Report). q.dropped_outside_npz) run.is_report ∙ o)
        (subst (λ (q : Report). q.recorded_file_unlink ≤ int64_max) (sym run.is_report) l)
