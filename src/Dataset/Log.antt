-- ===== src/Dataset/Log.antt =====
-- build_event_time_dataset.py, `read_buckets`: the diagnostic log. Each line comes as what `json.loads`
-- makes of it; the opening of the rotated files is outside.
use e_bpf_based_kernel_ai_se.Prelude.{
  ℕ, suc, ◌+◌, ◌%◌, List, [], ◌∷◌, Option, none, some, Bool, true, false, not, ◌&&◌, if◌then◌else◌,
  ◌==◌, leb, ltb, min, max, ℕ_discrete,
}
use e_bpf_based_kernel_ai_se.Dict.{Dict, get, put}
use e_bpf_based_kernel_ai_se.Decoder.Event.{ℤ, pos}
use e_bpf_based_kernel_ai_se.Unlinks.Audit.{second}

-- An entry of a JSON object: missing, an integer, or something else.
pub data Field : Type 0 where
  absent : Field
  number : ℤ → Field
  other : Field

-- What `build` reads from the record of a bucket. The features are the bits of 32-bit floats, if NumPy
-- makes a list of them.
pub record Diagnostic : Type 0 where
  pub first_event_ns : Field
  pub last_event_ns : Field
  pub features : Option (List ℕ)

pub data Line : Type 0 where
  blank : Line
  -- Not JSON, in a line that does or does not end in a newline.
  unreadable : Bool → Line
  not_object : Line
  health : Field → Line
  bucket : Field → Diagnostic → Line
  other_type : Line

pub record Log : Type 0 where
  pub buckets : Dict ℕ Diagnostic
  pub duplicates : List ℕ
  pub earliest_ns : Option ℕ
  pub latest_ns : Option ℕ
  pub health_records : ℕ
  pub bucket_records : ℕ
  pub duplicate_buckets : ℕ
  pub other_records : ℕ
  pub truncated_final_lines : ℕ

abbrev pub empty_log : Log
empty_log = record {
  buckets = [];
  duplicates = [];
  earliest_ns = none;
  latest_ns = none;
  health_records = 0;
  bucket_records = 0;
  duplicate_buckets = 0;
  other_records = 0;
  truncated_final_lines = 0;
}

-- `type(first) is int and type(last) is int and start <= first <= last < start + BUCKET_NS`
unfoldable pub event_bounds : ℕ → Field → Field → Option (ℕ × ℕ)
event_bounds start (number (pos f)) (number (pos l)) =
    if leb start f && (leb f l && ltb l (start + second)) then some (f, l) else none
event_bounds start first last = none

abbrev pub bounds_or : ℕ → Option (ℕ × ℕ) → ℕ × ℕ
bounds_or start none = (start, start)
bounds_or start (some b) = b

-- The smaller and the larger of a bound and what was seen before.
abbrev pub earlier : ℕ → Option ℕ → ℕ
earlier f none = f
earlier f (some a) = min a f

abbrev pub later : ℕ → Option ℕ → ℕ
later l none = l
later l (some b) = max b l

unfoldable pub note_bounds : ℕ × ℕ → Log → Log
note_bounds (f, l) s = record s {
  earliest_ns = some (earlier f s.earliest_ns);
  latest_ns = some (later l s.latest_ns);
}

unfoldable pub note_health : Field → Log → Log
unfolding note_bounds
note_health (number (pos t)) s =
    note_bounds (t, t) (record s { health_records = suc s.health_records })
note_health timestamp s = record s { health_records = suc s.health_records }

-- `if start in buckets`, and the record is put in its place.
unfoldable pub put_bucket : ℕ → Diagnostic → Log → Log
put_bucket start d s = elim (get ℕ_discrete start s.buckets) [
  | none ↦ record s {
    buckets = put ℕ_discrete start d s.buckets;
    bucket_records = suc s.bucket_records;
  }
  | some q ↦ record s {
    buckets = put ℕ_discrete start d s.buckets;
    duplicates = start ∷ s.duplicates;
    bucket_records = suc s.bucket_records;
    duplicate_buckets = suc s.duplicate_buckets;
  }
]

unfoldable pub note_bucket : Field → Diagnostic → Log → Option Log
unfolding event_bounds put_bucket note_bounds
note_bucket (number (pos start)) d s =
    if not (start % second == 0)
    then none
    else some (
        note_bounds (bounds_or start (event_bounds start d.first_event_ns d.last_event_ns))
          (put_bucket start d s))
note_bucket start d s = none

-- A line, where `none` is the ValueError.
unfoldable pub read_line : Line → Log → Option Log
unfolding note_health note_bucket
read_line blank s = some s
read_line (unreadable true) s = none
read_line (unreadable false) s =
    some (record s { truncated_final_lines = suc s.truncated_final_lines })
read_line not_object s = none
read_line (health t) s = some (note_health t s)
read_line (bucket b d) s = note_bucket b d s
read_line other_type s = some (record s { other_records = suc s.other_records })

unfoldable pub read_buckets : List Line → Log → Option Log
unfolding read_line
read_buckets [] s = some s
read_buckets (line ∷ lines) s = elim (read_line line s) [
  | none ↦ none
  | some s' ↦ read_buckets lines s'
]
