-- ===== src/Dataset/Accounts.antt =====
-- build_event_time_dataset.py: what the counts of a dataset add up to.
use e_bpf_based_kernel_ai_se.Prelude.{
  ℕ, suc, ◌+◌, ◌≡◌, refl, ap, ◌∙◌, List, [], ◌∷◌, ◌++◌, Option, ◌||◌, length, length-append, String,
  arith, Bool-cases, Option-cases, inl, inr, subst, same_text,
}
use e_bpf_based_kernel_ai_se.Dict.{Dict}
use e_bpf_based_kernel_ai_se.Unlinks.Audit.{second}
use e_bpf_based_kernel_ai_se.Dataset.Timeline.{Interval, Read, failed, success, read_timeline}
use e_bpf_based_kernel_ai_se.Dataset.Log.{Diagnostic, Line, Log, empty_log, read_buckets}
use e_bpf_based_kernel_ai_se.Dataset.Classes.{ByClass, number_of, count_class-ByClass}
use e_bpf_based_kernel_ai_se.Dataset.Recorded.{Recorded, WhenRead, read_buckets-Recorded}
use e_bpf_based_kernel_ai_se.Dataset.Sorting.{sorted, sorted-length}
use e_bpf_based_kernel_ai_se.Dataset.Rows.{
  features_of, span_of, judge, Verdict, kept, skipped_unlabeled, skipped_mixed, skipped_boundary,
  skipped_unknown, row_of, count_class, note_verdict, Built, nothing,
}
use e_bpf_based_kernel_ai_se.Dataset.Sweep.{
  Swept, raised, swept, visit, starting_later, and_then, is_in, renew, sweep, bucket_lt,
  starts_late, ends_early, Outcome, invalid_log, uncovered, invalid_timeline, invalid_bucket, built,
  outcome_of, label_buckets, build,
}

-- The buckets that were looked at.
abbrev pub skipped : Built → ℕ
skipped b = b.duplicate + (b.unlabeled + (b.mixed + (b.boundary + b.unknown)))

abbrev pub classes : Built → ℕ
classes b = b.normal + (b.attack + b.precursor)

-- `n` buckets are done.
abbrev Done : ℕ → Built → Type 0
Done n b = (length b.rows + skipped b ≡ n) × (classes b ≡ length b.rows) × ByClass b

abbrev AfterVisit : ℕ → Swept → Type 0
AfterVisit n (raised e) = Unit
AfterVisit n (swept b) = Done n b

count_class-classes : (cls : String) (b : Built) → classes (count_class cls b) ≡ suc (classes b)
unfolding count_class
count_class-classes cls b = ground arith

count_class-rest :
    (cls : String) (b : Built)
    → ((count_class cls b).rows ≡ b.rows) × (skipped (count_class cls b) ≡ skipped b)
unfolding count_class
count_class-rest cls b = elim (Bool-cases (same_text cls "attack")) [
  | inl e ↦ rw (e, count_class) (refl, refl)
  | inr e ↦ elim (Bool-cases (same_text cls "precursor")) [
    | inl f ↦ rw (e, f, count_class) (refl, refl)
    | inr f ↦ rw (e, f, count_class) (refl, refl)
  ]
]

note_verdict-Done :
    (session : String) (start : ℕ) (features : List ℕ) (v : Verdict) (n : ℕ) (b : Built)
    → Done n b
    → Done (suc n) (note_verdict session start features v b)
unfolding note_verdict
note_verdict-Done session start features (kept i) n b h =
    let row = row_of session start features i in
    let b' = record b { rows = b.rows ++ row ∷ [] } in
    let r = count_class-rest i.cls b' in
    let l = ap length r.0 ∙ length-append b.rows (row ∷ []) in
    (
      omega (arith, h.0, l, r.1),
      omega (arith, h.1, l, count_class-classes i.cls b'),
      count_class-ByClass session start features i b h.2,
    )
note_verdict-Done session start features skipped_unlabeled n b h = (omega (arith, h.0), h.1, h.2)
note_verdict-Done session start features skipped_mixed n b h = (omega (arith, h.0), h.1, h.2)
note_verdict-Done session start features skipped_boundary n b h = (omega (arith, h.0), h.1, h.2)
note_verdict-Done session start features skipped_unknown n b h = (omega (arith, h.0), h.1, h.2)

visit-Done :
    (session : String) (start : ℕ) (d : Diagnostic) (over : ℕ → ℕ → List Interval) (n : ℕ)
    (b : Built)
    → Done n b
    → AfterVisit (suc n) (visit session start d over b)
unfolding visit
visit-Done session start d over n b h = elim (Option-cases (features_of d.features)) [
  | inl q ↦ rw (q, visit) tt
  | inr (row, q) ↦ elim (Option-cases (span_of start d.first_event_ns d.last_event_ns)) [
    | inl r ↦ rw (q, r, visit) tt
    | inr ((from, to), r) ↦
        rw (q, r, visit) (note_verdict-Done session start row (judge from to (over from to)) n b h)
  ]
]

and_then-Done :
    (m n : ℕ) (r : Swept) (k : Built → Swept)
    → AfterVisit m r
    → ((b : Built) → Done m b → AfterVisit n (k b))
    → AfterVisit n (and_then r k)
and_then-Done m n (raised e) k h g = tt
and_then-Done m n (swept b) k h g = g b h

sweep-Done :
    (session : String) (dups : List ℕ) (ds : Dict ℕ Diagnostic) (active next : List Interval)
    (n m : ℕ) (b : Built)
    → Done n b
    → n + length ds ≡ m
    → AfterVisit m (sweep session dups ds active next b)
unfolding sweep
sweep-Done session dups [] active next n m b h e = (omega (arith, h.0, e), h.1, h.2)
sweep-Done session dups ((start, d) ∷ ds) active next n m b h e =
    elim (Bool-cases (is_in start dups)) [
      | inl q ↦
          rw (q, sweep)
            (sweep-Done session dups ds active next (suc n) m
              (record b { duplicate = suc b.duplicate }) ((omega (arith, h.0), h.1, h.2))
              (omega (arith, e)))
      | inr q ↦
          rw (q, sweep)
            (and_then-Done (suc n) m _ _ (visit-Done session start d _ n b h) (λ b' h'.
              sweep-Done session dups ds (renew start active next)
                (starting_later (start + second) next) (suc n) m b' h' (omega (arith, e))))
    ]

abbrev pub AddsUp : Log → Built → Type 0
AddsUp s b =
    (length b.rows + skipped b ≡ length s.buckets)
    × (classes b ≡ length b.rows)
    × ByClass b
    × (length s.buckets + s.duplicate_buckets ≡ s.bucket_records)

abbrev WhenBuilt : Outcome → Type 0
WhenBuilt invalid_log = Unit
WhenBuilt uncovered = Unit
WhenBuilt (invalid_timeline e) = Unit
WhenBuilt (invalid_bucket e) = Unit
WhenBuilt (built s is b) = AddsUp s b

outcome_of-WhenBuilt :
    (s : Log) (is : List Interval) (r : Swept)
    → Recorded s
    → AfterVisit (length s.buckets) r
    → WhenBuilt (outcome_of s is r)
unfolding outcome_of
outcome_of-WhenBuilt s is (raised e) h v = tt
outcome_of-WhenBuilt s is (swept b) h v = (v.0, v.1, v.2, h)

label_buckets-WhenBuilt :
    (session : String) (s : Log) (r : Read (List Interval))
    → Recorded s
    → WhenBuilt (label_buckets session s r)
unfolding label_buckets number_of
label_buckets-WhenBuilt session s (failed e) h = tt
label_buckets-WhenBuilt session s (success is) h = outcome_of-WhenBuilt s is _ h (
    sweep-Done session s.duplicates (sorted bucket_lt s.buckets) [] is 0 (length s.buckets) nothing
      (omega arith, omega arith, (refl, refl, refl))
      (omega (arith, sorted-length bucket_lt s.buckets)))

build-WhenBuilt :
    (log : List Line) (timeline : List (List String)) (session : String) (before after : Option ℕ)
    → WhenBuilt (build log timeline session before after)
unfolding build
build-WhenBuilt log timeline session before after =
    elim (Option-cases (read_buckets log empty_log)) [
      | inl q ↦ rw (q, build) tt
      | inr (s, q) ↦
          let h = subst WhenRead q (read_buckets-Recorded log empty_log (omega arith)) in
          elim (Bool-cases (starts_late before s.earliest_ns || ends_early after s.latest_ns)) [
            | inl e ↦ rw (q, e, build) tt
            | inr e ↦
                rw (q, e, build) (label_buckets-WhenBuilt session s (read_timeline timeline) h)
          ]
    ]

-- In any dataset that is built, every bucket of the log is kept or is counted by exactly one of the
-- five counters of skipped buckets, and every record of a bucket is there or is counted as a
-- duplicate. The counter of attacks is the number of rows with that label, the counter of precursors
-- the number of rows whose technique is the mark of a precursor before the name of the unit, the
-- counter of normal buckets the number of the other rows, and the three add up to all rows.
pub build-AddsUp :
    (log : List Line) (timeline : List (List String)) (session : String) (before after : Option ℕ)
    (s : Log) (is : List Interval) (b : Built)
    → build log timeline session before after ≡ built s is b
    → AddsUp s b
build-AddsUp log timeline session before after s is b h =
    subst WhenBuilt h (build-WhenBuilt log timeline session before after)
