-- ===== src/Dataset/Recorded.antt =====
-- build_event_time_dataset.py, `read_buckets`: what its counts add up to.
use e_bpf_based_kernel_ai_se.Prelude.{
  ℕ, ◌+◌, ◌%◌, ◌==◌, ◌≡◌, List, [], ◌∷◌, Option, none, some, true, false, length, arith, Bool-cases,
  Option-cases, inl, inr, subst, ℕ_discrete,
}
use e_bpf_based_kernel_ai_se.Dict.{get}
use e_bpf_based_kernel_ai_se.Dict.Laws.{length-put}
use e_bpf_based_kernel_ai_se.Decoder.Event.{pos, negsuc}
use e_bpf_based_kernel_ai_se.Unlinks.Audit.{second}
use e_bpf_based_kernel_ai_se.Dataset.Log.{
  Field, absent, number, other, Diagnostic, Line, blank, unreadable, not_object, health, bucket,
  other_type, Log, bounds_or, event_bounds, note_bounds, note_health, put_bucket, note_bucket,
  read_line, read_buckets,
}

-- Every record of a bucket is there or has another in its place.
abbrev pub Recorded : Log → Type 0
Recorded s = length s.buckets + s.duplicate_buckets ≡ s.bucket_records

put_bucket-Recorded :
    (start : ℕ) (d : Diagnostic) (s : Log) → Recorded s → Recorded (put_bucket start d s)
unfolding put_bucket
put_bucket-Recorded start d s h = elim (Option-cases (get ℕ_discrete start s.buckets)) [
  | inl q ↦ rw (q, put_bucket) (ground (arith, h, length-put ℕ_discrete start d s.buckets))
  | inr (x, q) ↦ rw (q, put_bucket) (ground (arith, h, length-put ℕ_discrete start d s.buckets))
]

note_bounds-Recorded : (b : ℕ × ℕ) (s : Log) → Recorded s → Recorded (note_bounds b s)
unfolding note_bounds
note_bounds-Recorded (f, l) s h = h

note_health-Recorded : (t : Field) (s : Log) → Recorded s → Recorded (note_health t s)
unfolding note_health note_bounds
note_health-Recorded (number (pos t)) s h = h
note_health-Recorded (number (negsuc t)) s h = h
note_health-Recorded absent s h = h
note_health-Recorded other s h = h

abbrev pub WhenRead : Option Log → Type 0
WhenRead none = Unit
WhenRead (some s) = Recorded s

note_bucket-Recorded :
    (f : Field) (d : Diagnostic) (s : Log) → Recorded s → WhenRead (note_bucket f d s)
unfolding note_bucket
note_bucket-Recorded (number (pos t)) d s h = elim (Bool-cases (t % second == 0)) [
  | inl e ↦
      rw (e, note_bucket)
        (note_bounds-Recorded (bounds_or t (event_bounds t d.first_event_ns d.last_event_ns))
          (put_bucket t d s) (put_bucket-Recorded t d s h))
  | inr e ↦ rw (e, note_bucket) tt
]
note_bucket-Recorded (number (negsuc t)) d s h = tt
note_bucket-Recorded absent d s h = tt
note_bucket-Recorded other d s h = tt

read_line-Recorded : (line : Line) (s : Log) → Recorded s → WhenRead (read_line line s)
unfolding read_line
read_line-Recorded blank s h = h
read_line-Recorded (unreadable true) s h = tt
read_line-Recorded (unreadable false) s h = h
read_line-Recorded not_object s h = tt
read_line-Recorded (health t) s h = note_health-Recorded t s h
read_line-Recorded (bucket f d) s h = note_bucket-Recorded f d s h
read_line-Recorded other_type s h = h

pub read_buckets-Recorded :
    (lines : List Line) (s : Log) → Recorded s → WhenRead (read_buckets lines s)
unfolding read_buckets
read_buckets-Recorded [] s h = h
read_buckets-Recorded (line ∷ lines) s h = elim (Option-cases (read_line line s)) [
  | inl q ↦ rw (q, read_buckets) tt
  | inr (s', q) ↦
      rw (q, read_buckets)
        (read_buckets-Recorded lines s' (subst WhenRead q (read_line-Recorded line s h)))
]
