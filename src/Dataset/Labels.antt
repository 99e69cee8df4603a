-- ===== src/Dataset/Labels.antt =====
-- build_event_time_dataset.py: what the label of a row rests on.
use e_bpf_based_kernel_ai_se.Prelude.{
  ℕ, suc, ◌≤◌, ◌≡◌, refl, ap, sym, ◌∙◌, List, [], ◌∷◌, ◌++◌, Option, some, Bool, false, ◌||◌,
  if◌then◌else◌, ltb, All, All-append, String, arith, Bool-cases, Option-cases, inl, inr, subst,
  same_text,
}
use e_bpf_based_kernel_ai_se.Dict.{Dict}
use e_bpf_based_kernel_ai_se.Dataset.Timeline.{Interval, Read, failed, success, read_timeline}
use e_bpf_based_kernel_ai_se.Dataset.Log.{Diagnostic, Line, Log, empty_log, read_buckets}
use e_bpf_based_kernel_ai_se.Dataset.Spans.{Spans, In, features_of-same, span_of-Spans, All-In}
use e_bpf_based_kernel_ai_se.Dataset.Sorting.{sorted, sorted-All}
use e_bpf_based_kernel_ai_se.Dataset.Direct.{collect, label_direct, build_direct, build-direct}
use e_bpf_based_kernel_ai_se.Dataset.Rows.{
  features_of, span_of, filter, overlaps, judge, Verdict, kept, skipped_unlabeled, skipped_mixed,
  skipped_boundary, skipped_unknown, Row, row_of, count_class, note_verdict, Built, nothing,
}
use e_bpf_based_kernel_ai_se.Dataset.Sweep.{
  Swept, raised, swept, visit, and_then, is_in, bucket_lt, starts_late, ends_early, Outcome,
  invalid_log, uncovered, invalid_timeline, invalid_bucket, built, outcome_of, build,
}

-- The row comes from a bucket of the log. The events of that bucket, as recorded, lie in one interval
-- of the timeline, which alone overlaps them and gives the row its label.
pub record Labelled (s : Log) (is : List Interval) (r : Row) : Type 0 where
  pub bucket : Diagnostic
  pub from : ℕ
  pub to : ℕ
  pub interval : Interval
  pub logged : In (r.bucket_ns, bucket) s.buckets
  pub single : is_in r.bucket_ns s.duplicates ≡ false
  pub features : bucket.features ≡ some r.features
  pub spans : Spans r.bucket_ns bucket from to
  pub alone : filter (overlaps from to) is ≡ interval ∷ []
  pub begins : interval.start ≤ from
  pub ends : to ≤ interval.end
  pub label : r.label ≡ (if same_text interval.cls "attack" then "attack" else "normal")
  pub unit : r.unit ≡ interval.unit

first_kept :
    (a b c : Bool) (j i : Interval)
    → (if a || b then skipped_boundary else if c then skipped_unknown else kept j) ≡ kept i
    → (a ≡ false) × (b ≡ false) × (j ≡ i)
first_kept a b c j i h = ground arith

not_ltb : (m n : ℕ) → ltb m n ≡ false → n ≤ m
not_ltb m n e = ground arith

judged :
    (from to : ℕ) (is : List Interval) (i : Interval)
    → judge from to is ≡ kept i
    → (is ≡ i ∷ []) × (i.start ≤ from) × (to ≤ i.end)
unfolding judge
judged from to [] i h = cc
judged from to (j ∷ []) i h =
    let k = first_kept (ltb from j.start) (ltb j.end to) _ j i h in
    (
      ap (λ x. x ∷ []) k.2,
      subst (λ (x : Interval). x.start ≤ from) k.2 (not_ltb from j.start k.0),
      subst (λ (x : Interval). to ≤ x.end) k.2 (not_ltb j.end to k.1),
    )
judged from to (j ∷ k ∷ is) i h = cc

count_class-rows : (cls : String) (b : Built) → (count_class cls b).rows ≡ b.rows
unfolding count_class
count_class-rows cls b = elim (Bool-cases (same_text cls "attack")) [
  | inl e ↦ rw (e, count_class) refl
  | inr e ↦ elim (Bool-cases (same_text cls "precursor")) [
    | inl f ↦ rw (e, f, count_class) refl
    | inr f ↦ rw (e, f, count_class) refl
  ]
]

module _ (s : Log) (is : List Interval) where
  abbrev AllLabelled : Built → Type 0
  AllLabelled b = All (Labelled s is) b.rows

  abbrev AfterVisit : Swept → Type 0
  AfterVisit (raised e) = Unit
  AfterVisit (swept b) = AllLabelled b

  note_verdict-Labelled :
      (session : String) (start : ℕ) (features : List ℕ) (v : Verdict) (b : Built)
      → ((i : Interval) → v ≡ kept i → Labelled s is (row_of session start features i))
      → AllLabelled b
      → AllLabelled (note_verdict session start features v b)
  unfolding note_verdict
  note_verdict-Labelled session start features (kept i) b g h =
      let row = row_of session start features i in
      subst (All (Labelled s is))
        (sym (count_class-rows i.cls (record b { rows = b.rows ++ row ∷ [] })))
        (All-append (Labelled s is) b.rows (row ∷ []) h (g i refl, tt))
  note_verdict-Labelled session start features skipped_unlabeled b g h = h
  note_verdict-Labelled session start features skipped_mixed b g h = h
  note_verdict-Labelled session start features skipped_boundary b g h = h
  note_verdict-Labelled session start features skipped_unknown b g h = h

  row_of-Labelled :
      (session : String) (start : ℕ) (features : List ℕ) (d : Diagnostic) (from to : ℕ)
      (i : Interval)
      → In (start, d) s.buckets
      → is_in start s.duplicates ≡ false
      → features_of d.features ≡ some features
      → span_of start d.first_event_ns d.last_event_ns ≡ some (from, to)
      → judge from to (filter (overlaps from to) is) ≡ kept i
      → Labelled s is (row_of session start features i)
  unfolding row_of
  row_of-Labelled session start features d from to i m q f r j =
      let k = judged from to _ i j in
      record {
        bucket = d;
        from = from;
        to = to;
        interval = i;
        logged = m;
        single = q;
        features = features_of-same d.features features f;
        spans = span_of-Spans start d d.first_event_ns d.last_event_ns from to refl refl r;
        alone = k.0;
        begins = k.1;
        ends = k.2;
        label = refl;
        unit = refl;
      }

  visit-Labelled :
      (session : String) (start : ℕ) (d : Diagnostic) (b : Built)
      → In (start, d) s.buckets
      → is_in start s.duplicates ≡ false
      → AllLabelled b
      → AfterVisit (visit session start d (λ from to. filter (overlaps from to) is) b)
  unfolding visit
  visit-Labelled session start d b m e h = elim (Option-cases (features_of d.features)) [
    | inl q ↦ rw (q, visit) tt
    | inr (row, q) ↦ elim (Option-cases (span_of start d.first_event_ns d.last_event_ns)) [
      | inl r ↦ rw (q, r, visit) tt
      | inr ((from, to), r) ↦
          rw (q, r, visit)
            (note_verdict-Labelled session start row (judge from to (filter (overlaps from to) is))
              b (λ i j. row_of-Labelled session start row d from to i m e q r j) h)
    ]
  ]

  and_then-Labelled :
      (r : Swept) (k : Built → Swept)
      → AfterVisit r
      → ((b : Built) → AllLabelled b → AfterVisit (k b))
      → AfterVisit (and_then r k)
  and_then-Labelled (raised e) k h g = tt
  and_then-Labelled (swept b) k h g = g b h

  collect-Labelled :
      (session : String) (ds : Dict ℕ Diagnostic) (b : Built)
      → All (λ x. In x s.buckets) ds
      → AllLabelled b
      → AfterVisit (collect session s.duplicates ds is b)
  unfolding collect
  collect-Labelled session [] b m h = h
  collect-Labelled session ((start, d) ∷ ds) b m h = elim (Bool-cases (is_in start s.duplicates)) [
    | inl q ↦
        rw (q, collect)
          (collect-Labelled session ds (record b { duplicate = suc b.duplicate }) m.1 h)
    | inr q ↦
        rw (q, collect)
          (and_then-Labelled _ _ (visit-Labelled session start d b m.0 q h)
            (λ b' h'. collect-Labelled session ds b' m.1 h'))
  ]

abbrev WhenBuilt : Outcome → Type 0
WhenBuilt invalid_log = Unit
WhenBuilt uncovered = Unit
WhenBuilt (invalid_timeline e) = Unit
WhenBuilt (invalid_bucket e) = Unit
WhenBuilt (built s is b) = All (Labelled s is) b.rows

outcome_of-WhenBuilt :
    (s : Log) (is : List Interval) (r : Swept) → AfterVisit s is r → WhenBuilt (outcome_of s is r)
unfolding outcome_of
outcome_of-WhenBuilt s is (raised e) v = tt
outcome_of-WhenBuilt s is (swept b) v = v

label_direct-WhenBuilt :
    (session : String) (s : Log) (r : Read (List Interval)) → WhenBuilt (label_direct session s r)
unfolding label_direct
label_direct-WhenBuilt session s (failed e) = tt
label_direct-WhenBuilt session s (success is) = outcome_of-WhenBuilt s is _ (
    collect-Labelled s is session (sorted bucket_lt s.buckets) nothing
      (sorted-All bucket_lt (λ x. In x s.buckets) s.buckets (All-In s.buckets)) tt)

build_direct-WhenBuilt :
    (log : List Line) (timeline : List (List String)) (session : String) (before after : Option ℕ)
    → WhenBuilt (build_direct log timeline session before after)
unfolding build_direct
build_direct-WhenBuilt log timeline session before after =
    elim (Option-cases (read_buckets log empty_log)) [
      | inl q ↦ rw (q, build_direct) tt
      | inr (s, q) ↦
          elim (Bool-cases (starts_late before s.earliest_ns || ends_early after s.latest_ns)) [
            | inl e ↦ rw (q, e, build_direct) tt
            | inr e ↦
                rw (q, e, build_direct) (label_direct-WhenBuilt session s (read_timeline timeline))
          ]
    ]

-- Every row of a dataset comes from a bucket of the log that occurs once, with its features. The events
-- of that bucket, from the first recorded time to the last, or its whole second where no times are
-- recorded, lie in one interval of the timeline; no other interval overlaps them, and this one
-- gives the row its label and its unit.
pub build-Labelled :
    (log : List Line) (timeline : List (List String)) (session : String) (before after : Option ℕ)
    (s : Log) (is : List Interval) (b : Built)
    → build log timeline session before after ≡ built s is b
    → All (Labelled s is) b.rows
build-Labelled log timeline session before after s is b h =
    subst WhenBuilt (sym (build-direct log timeline session before after) ∙ h)
      (build_direct-WhenBuilt log timeline session before after)
