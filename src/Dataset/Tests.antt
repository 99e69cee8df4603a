-- ===== src/Dataset/Tests.antt =====
-- The building of a dataset from a small log.
use e_bpf_based_kernel_ai_se.Prelude.{
  ◌*◌, ◌≡◌, refl, List, [], ◌∷◌, some, false, replicate, All, String, string_discrete, ℕ_discrete,
}
use e_bpf_based_kernel_ai_se.Bytes.{bytes_of}
use e_bpf_based_kernel_ai_se.Dict.{get, put}
use e_bpf_based_kernel_ai_se.Decoder.Event.{pos}
use e_bpf_based_kernel_ai_se.Unlinks.Audit.{second}
use e_bpf_based_kernel_ai_se.Aggregate.Buckets.{text_lt}
use e_bpf_based_kernel_ai_se.Extract.Label.{without_prefix}
use e_bpf_based_kernel_ai_se.Dataset.Timeline.{
  Interval, is_space, int_digits, int_of, interval_of, read_fields, is_blank, interval_lt,
  read_lines, read_timeline,
}
use e_bpf_based_kernel_ai_se.Dataset.Log.{
  absent, number, Diagnostic, Line, blank, unreadable, health, bucket, Log, event_bounds,
  note_bounds, note_health, put_bucket, note_bucket, read_line, read_buckets,
}
use e_bpf_based_kernel_ai_se.Dataset.Sorting.{add_name, insert, sorted}
use e_bpf_based_kernel_ai_se.Dataset.Rows.{
  is_finite, features_of, span_of, filter, judge, row_of, count_class, note_verdict, Built, nothing,
}
use e_bpf_based_kernel_ai_se.Dataset.Sweep.{
  visit, starting_before, starting_later, renew, sweep, starts_late, ends_early, built, outcome_of,
  label_buckets, build, stats_of, missing_units,
}
use e_bpf_based_kernel_ai_se.Dataset.Direct.{build_direct, build-direct}
use e_bpf_based_kernel_ai_se.Dataset.Accounts.{AddsUp, build-AddsUp}
use e_bpf_based_kernel_ai_se.Dataset.Labels.{Labelled, build-Labelled}

unfoldable plain : Diagnostic
plain = record { first_event_ns = absent; last_event_ns = absent; features = some (replicate 31 0) }

unfoldable bounded : Diagnostic
bounded = record {
  first_event_ns = number (pos 5000000001);
  last_event_ns = number (pos 5000000009);
  features = some (replicate 31 0);
}

-- The bucket at 7 s occurs twice, the last line is cut.
unfoldable log : List Line
unfolding plain bounded
log =
    health (number (pos 1))
    ∷ bucket (number (pos (7 * second))) plain
    ∷ bucket (number (pos (5 * second))) bounded
    ∷ blank
    ∷ bucket (number (pos (2 * second))) plain
    ∷ bucket (number (pos (7 * second))) plain
    ∷ unreadable false
    ∷ []

-- The attack ends within the bucket of the bounded events; a precursor covers the bucket at 2 s.
unfoldable timeline : List (List String)
timeline =
    ("5000000000" ∷ "5000000010" ∷ "attack" ∷ "t_T1070" ∷ [])
    ∷ ("" ∷ [])
    ∷ ("1999999999" ∷ " 3_000_000_000 " ∷ "precursor" ∷ "t_T1003" ∷ [])
    ∷ []

unfoldable intervals : List Interval
intervals =
    record { start = 1999999999; end = 3000000000; cls = "precursor"; unit = "t_T1003" }
    ∷ record { start = 5000000000; end = 5000000010; cls = "attack"; unit = "t_T1070" }
    ∷ []

unfoldable read_log : Log
unfolding plain bounded
read_log = record {
  buckets = (7 * second, plain) ∷ (5 * second, bounded) ∷ (2 * second, plain) ∷ [];
  duplicates = 7 * second ∷ [];
  earliest_ns = some 1;
  latest_ns = some (7 * second);
  health_records = 1;
  bucket_records = 4;
  duplicate_buckets = 1;
  other_records = 0;
  truncated_final_lines = 1;
}

unfoldable two_rows : Built
two_rows = record nothing {
  rows =
      record {
        features = replicate 31 0;
        bucket_ns = 2 * second;
        label = "normal";
        technique = "precursor:T1003";
        session = "s";
        unit = "t_T1003";
      }
      ∷ record {
        features = replicate 31 0;
        bucket_ns = 5 * second;
        label = "attack";
        technique = "T1070";
        session = "s";
        unit = "t_T1070";
      }
      ∷ [];
  attack = 1;
  precursor = 1;
  duplicate = 1;
}

log-built : build log timeline "s" (some 1) (some (7 * second)) ≡ built read_log intervals two_rows
unfolding build log timeline intervals read_log two_rows plain bounded read_buckets read_line
    note_bucket note_health note_bounds put_bucket event_bounds get put starts_late ends_early
    read_timeline read_lines read_fields interval_of int_of int_digits is_space is_blank interval_lt
    text_lt bytes_of label_buckets outcome_of sorted insert sweep renew starting_before
    starting_later filter visit features_of is_finite span_of judge note_verdict row_of count_class
    without_prefix string_discrete ℕ_discrete
log-built = refl

none_missing : (stats_of read_log intervals two_rows).missing ≡ []
unfolding stats_of missing_units add_name read_log intervals two_rows string_discrete
none_missing = refl

build-direct_example :
    build log timeline "s" (some 1) (some (7 * second))
    ≡ build_direct log timeline "s" (some 1) (some (7 * second))
build-direct_example = build-direct log timeline "s" (some 1) (some (7 * second))

build-AddsUp_example : AddsUp read_log two_rows
build-AddsUp_example =
    build-AddsUp log timeline "s" (some 1) (some (7 * second)) read_log intervals two_rows log-built

build-Labelled_example : All (Labelled read_log intervals) two_rows.rows
build-Labelled_example =
    build-Labelled log timeline "s" (some 1) (some (7 * second)) read_log intervals two_rows
      log-built
