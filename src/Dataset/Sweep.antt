-- ===== src/Dataset/Sweep.antt =====
-- build_event_time_dataset.py, `build`: the buckets against the timeline.
use e_bpf_based_kernel_ai_se.Prelude.{
  ℕ, suc, ◌+◌, List, [], ◌∷◌, ◌++◌, Option, none, some, Bool, true, false, ◌||◌, if◌then◌else◌,
  ◌==◌, ltb, any, length, String, same_text,
}
use e_bpf_based_kernel_ai_se.Dict.{Dict}
use e_bpf_based_kernel_ai_se.Unlinks.Audit.{second}
use e_bpf_based_kernel_ai_se.Dataset.Timeline
use e_bpf_based_kernel_ai_se.Dataset.Timeline.{Interval, read_timeline, Read, failed, success}
use e_bpf_based_kernel_ai_se.Dataset.Log.{Diagnostic, Line, Log, empty_log, read_buckets}
use e_bpf_based_kernel_ai_se.Dataset.Rows.{
  Built, Row, features_of, filter, invalid_bounds, invalid_features, judge, note_verdict, nothing,
  overlaps, span_of, Error,
}
use e_bpf_based_kernel_ai_se.Dataset.Sorting.{sorted, add_name}

pub data Swept : Type 0 where
  raised : Error → Swept
  swept : Built → Swept

-- A bucket that is not a duplicate, where `over from to` are the intervals that overlap its span.
unfoldable pub visit : String → ℕ → Diagnostic → (ℕ → ℕ → List Interval) → Built → Swept
unfolding features_of span_of judge note_verdict
visit session start d over b = elim (features_of d.features) [
  | none ↦ raised invalid_features
  | some row ↦ elim (span_of start d.first_event_ns d.last_event_ns) [
    | none ↦ raised invalid_bounds
    | some (from, to) ↦ swept (note_verdict session start row (judge from to (over from to)) b)
  ]
]

-- The intervals from the next one on that begin before a time, and those that do not.
unfoldable pub starting_before : ℕ → List Interval → List Interval
starting_before end [] = []
starting_before end (i ∷ is) =
    let rest = starting_before end is in if ltb i.start end then i ∷ rest else []

unfoldable pub starting_later : ℕ → List Interval → List Interval
starting_later end [] = []
starting_later end (i ∷ is) =
    let rest = starting_later end is in if ltb i.start end then rest else i ∷ is

abbrev pub and_then : Swept → (Built → Swept) → Swept
and_then (raised e) k = raised e
and_then (swept b) k = k b

abbrev pub is_in : ℕ → List ℕ → Bool
is_in t ts = any (λ u. u == t) ts

-- `active`, once the bucket at `start` is reached.
unfoldable pub renew : ℕ → List Interval → List Interval → List Interval
unfolding filter starting_before
renew start active next =
    filter (λ (i : Interval). ltb start i.end) active ++ starting_before (start + second) next

-- The loop over the sorted buckets, with `active` and the intervals from `next_interval` on.
unfoldable pub sweep :
    String → List ℕ → Dict ℕ Diagnostic → List Interval → List Interval → Built → Swept
unfolding visit renew starting_later filter
sweep session dups [] active next b = swept b
sweep session dups ((start, d) ∷ ds) active next b = elim (is_in start dups) [
  | true ↦ sweep session dups ds active next (record b { duplicate = suc b.duplicate })
  | false ↦
      let active' = renew start active next in
      and_then (visit session start d (λ from to. filter (overlaps from to) active') b)
        (sweep session dups ds active' (starting_later (start + second) next))
]

-- `sorted(buckets.items())`; the keys differ.
abbrev pub bucket_lt : ℕ × Diagnostic → ℕ × Diagnostic → Bool
bucket_lt (s, d) (t, e) = ltb s t

-- `require_before_ns` and `require_after_ns`.
unfoldable pub starts_late : Option ℕ → Option ℕ → Bool
starts_late none earliest = false
starts_late (some t) none = true
starts_late (some t) (some e) = ltb t e

unfoldable pub ends_early : Option ℕ → Option ℕ → Bool
ends_early none latest = false
ends_early (some t) none = true
ends_early (some t) (some l) = ltb l t

pub data Outcome : Type 0 where
  invalid_log : Outcome
  uncovered : Outcome
  invalid_timeline : Timeline.Error → Outcome
  invalid_bucket : Error → Outcome
  built : Log → List Interval → Built → Outcome

unfoldable pub outcome_of : Log → List Interval → Swept → Outcome
outcome_of s is (raised e) = invalid_bucket e
outcome_of s is (swept b) = built s is b

unfoldable pub label_buckets : String → Log → Read (List Interval) → Outcome
unfolding sorted sweep outcome_of
label_buckets session s (failed e) = invalid_timeline e
label_buckets session s (success is) =
    outcome_of s is (sweep session s.duplicates (sorted bucket_lt s.buckets) [] is nothing)

-- `build` on the lines of the log and of the timeline.
unfoldable pub build : List Line → List (List String) → String → Option ℕ → Option ℕ → Outcome
unfolding read_buckets read_timeline label_buckets starts_late ends_early
build log timeline session before after = elim (read_buckets log empty_log) [
  | none ↦ invalid_log
  | some s ↦
      if starts_late before s.earliest_ns || ends_early after s.latest_ns
      then uncovered
      else label_buckets session s (read_timeline timeline)
]

-- `sorted({unit of every interval} - accepted_units)`
unfoldable pub missing_units : List Interval → List Row → List String
unfolding add_name
missing_units [] rows = []
missing_units (i ∷ is) rows =
    let rest = missing_units is rows in
    if any (λ (r : Row). same_text i.unit r.unit) rows then rest else add_name i.unit rest

-- The counts of the result that are not in `Built` or in `Log`.
pub record Stats : Type 0 where
  pub timeline_intervals : ℕ
  pub unique_buckets : ℕ
  pub kept_rows : ℕ
  pub missing : List String

unfoldable pub stats_of : Log → List Interval → Built → Stats
unfolding missing_units
stats_of s is b = record {
  timeline_intervals = length is;
  unique_buckets = length s.buckets;
  kept_rows = length b.rows;
  missing = missing_units is b.rows;
}
