-- ===== src/Dataset/Direct.antt =====
-- build_event_time_dataset.py, `build`: the sweep against a search through the whole timeline.
use mathlib.Core.List.{append_assoc}
use e_bpf_based_kernel_ai_se.Prelude.{
  ℕ, suc, ◌+◌, ◌≤◌, ◌≡◌, refl, ap, ◌∙◌, List, [], ◌∷◌, ◌++◌, Option, none, some, Bool, true, false,
  ◌||◌, if◌then◌else◌, All, String, arith, Bool-cases, Option-cases, inl, inr,
}
use e_bpf_based_kernel_ai_se.Dict.{Dict}
use e_bpf_based_kernel_ai_se.Unlinks.Audit.{second}
use e_bpf_based_kernel_ai_se.Dataset.Timeline.{
  Interval, Read, failed, success, read_timeline, read_timeline-Ascending,
}
use e_bpf_based_kernel_ai_se.Dataset.Log.{Diagnostic, Line, Log, empty_log, read_buckets}
use e_bpf_based_kernel_ai_se.Dataset.Sorting.{sorted, Ascending, sorted-Ascending}
use e_bpf_based_kernel_ai_se.Dataset.Active.{
  InOrder, before-later, later-InOrder, visit_congr, Held, renew-Held, active-overlaps,
}
use e_bpf_based_kernel_ai_se.Dataset.Rows.{filter, overlaps, Built, nothing}
use e_bpf_based_kernel_ai_se.Dataset.Sweep.{
  Swept, raised, swept, visit, starting_before, starting_later, and_then, is_in, renew, sweep,
  bucket_lt, starts_late, ends_early, Outcome, invalid_log, uncovered, invalid_timeline, outcome_of,
  label_buckets, build,
}

-- The loop over the buckets, where each looks at all intervals.
unfoldable pub collect : String → List ℕ → Dict ℕ Diagnostic → List Interval → Built → Swept
unfolding visit filter
collect session dups [] all b = swept b
collect session dups ((start, d) ∷ ds) all b = elim (is_in start dups) [
  | true ↦ collect session dups ds all (record b { duplicate = suc b.duplicate })
  | false ↦
      and_then (visit session start d (λ from to. filter (overlaps from to) all) b)
        (collect session dups ds all)
]

abbrev bucket_time : ℕ × Diagnostic → ℕ
bucket_time (s, d) = s

and_then_congr :
    (r : Swept) (k l : Built → Swept) → ((b : Built) → k b ≡ l b) → and_then r k ≡ and_then r l
and_then_congr (raised e) k l h = refl
and_then_congr (swept b) k l h = h b

pub sweep-collect :
    (session : String) (dups : List ℕ) (ds : Dict ℕ Diagnostic) (s : ℕ)
    (active before next : List Interval) (b : Built)
    → All (λ d. s ≤ bucket_time d) ds
    → Ascending bucket_lt bucket_time ds
    → InOrder next
    → Held s active before
    → sweep session dups ds active next b ≡ collect session dups ds (before ++ next) b
unfolding sweep collect
sweep-collect session dups [] s active before next b l a o h = refl
sweep-collect session dups ((start, d) ∷ ds) s active before next b l a o h =
    elim (Bool-cases (is_in start dups)) [
      | inl q ↦
          rw (q, sweep, collect)
            (sweep-collect session dups ds s active before next
              (record b { duplicate = suc b.duplicate }) l.1 a.1 o h)
      | inr q ↦
          let e = start + second in
          let taken = starting_before e next in
          let left = starting_later e next in
          rw (q, sweep, collect)
            (ap (λ r. and_then r (sweep session dups ds (renew start active next) left))
                (visit_congr session start d _
                  (λ from to. filter (overlaps from to) (before ++ next)) b
                  (λ from to f t. active-overlaps s start from to active before next l.0 f t o h))
              ∙ and_then_congr _ _ _ (λ b'.
                sweep-collect session dups ds start (renew start active next) (before ++ taken) left
                  b' a.0 a.1 (later-InOrder e next o) (renew-Held s start active before next l.0 h)
                ∙ ap (λ is. collect session dups ds is b')
                    (append_assoc before taken left
                      ∙ ap (λ is. before ++ is) (before-later e next))))
    ]

All-zero : (ds : Dict ℕ Diagnostic) → All (λ d. 0 ≤ bucket_time d) ds
All-zero [] = tt
All-zero (d ∷ ds) = (omega arith, All-zero ds)

pub sorted_buckets-Ascending :
    (ds : Dict ℕ Diagnostic) → Ascending bucket_lt bucket_time (sorted bucket_lt ds)
sorted_buckets-Ascending ds =
    sorted-Ascending bucket_lt bucket_time (λ x y e. ground arith) (λ x y e. ground arith) ds

-- The whole loop, on sorted intervals.
pub sweep-direct :
    (session : String) (s : Log) (is : List Interval)
    → InOrder is
    → sweep session s.duplicates (sorted bucket_lt s.buckets) [] is nothing
      ≡ collect session s.duplicates (sorted bucket_lt s.buckets) is nothing
sweep-direct session s is o =
    let ds = sorted bucket_lt s.buckets in
    sweep-collect session s.duplicates ds 0 [] [] is nothing (All-zero ds)
      (sorted_buckets-Ascending s.buckets) o (λ p h. refl)

unfoldable pub label_direct : String → Log → Read (List Interval) → Outcome
unfolding sorted collect outcome_of
label_direct session s (failed e) = invalid_timeline e
label_direct session s (success is) =
    outcome_of s is (collect session s.duplicates (sorted bucket_lt s.buckets) is nothing)

-- `build`, where every bucket looks at the whole timeline.
unfoldable pub build_direct :
    List Line → List (List String) → String → Option ℕ → Option ℕ → Outcome
unfolding read_buckets read_timeline label_direct starts_late ends_early
build_direct log timeline session before after = elim (read_buckets log empty_log) [
  | none ↦ invalid_log
  | some s ↦
      if starts_late before s.earliest_ns || ends_early after s.latest_ns
      then uncovered
      else label_direct session s (read_timeline timeline)
]

label-direct :
    (session : String) (s : Log) (r : Read (List Interval))
    → ((is : List Interval) → r ≡ success is → InOrder is)
    → label_buckets session s r ≡ label_direct session s r
unfolding label_buckets label_direct
label-direct session s (failed e) h = refl
label-direct session s (success is) h = ap (outcome_of s is) (sweep-direct session s is (h is refl))

if_congr : {A : Type 0} (b : Bool) (x y z : A) → y ≡ z → (if b then x else y) ≡ (if b then x else z)
if_congr b x y z e = ground arith

-- On any log and timeline, `build` has the outcome that it would have if each bucket searched the
-- whole timeline for the intervals that overlap its span: no interval is dropped too early from
-- `active` and none is missing from it.
pub build-direct :
    (log : List Line) (timeline : List (List String)) (session : String) (before after : Option ℕ)
    → build log timeline session before after ≡ build_direct log timeline session before after
unfolding build build_direct
build-direct log timeline session before after = elim (Option-cases (read_buckets log empty_log)) [
  | inl q ↦ rw (q, build, build_direct)
  | inr (s, q) ↦
      rw (q, build, build_direct)
        (if_congr _ uncovered _ _
          (label-direct session s (read_timeline timeline) (read_timeline-Ascending timeline)))
]
