-- ===== src/Evaluation/Split.antt =====
-- evaluate_event_time.py, `export_candidate_model`: the three parts of the sessions.
use e_bpf_based_kernel_ai_se.Prelude.{
  ℕ, ◌+◌, ◌≤◌, ◌≡◌, List, Option, none, some, Bool, true, false, ◌&&◌, ◌||◌, length, String,
  same_text,
}
use e_bpf_based_kernel_ai_se.Evaluation.Scores.{Row}
use e_bpf_based_kernel_ai_se.Evaluation.Data.{text_in}
use e_bpf_based_kernel_ai_se.Evaluation.Candidate.{Candidate}

-- The names of a list are those of its front and its last two, which all differ.
record Parts (ids tr : List String) (cal test : String) : Type 0 where
  pub members : (s : String) → text_in s ids ≡ text_in s tr || (same_text s cal || same_text s test)
  pub different : same_text cal test ≡ false
  pub free_cal : text_in cal tr ≡ false
  pub free_test : text_in test tr ≡ false

abbrev PartsOf : List String → Option (List String × String × String) → Type 0
PartsOf ids none = Unit
PartsOf ids (some (tr, cal, test)) = Parts ids tr cal test

-- One of three tests holds.
abbrev OneOf : Bool → Bool → Bool → Type 0
OneOf p q r =
    ((p || (q || r)) ≡ true) × ((p && q) ≡ false) × ((p && r) ≡ false) × ((q && r) ≡ false)

-- The parts of a candidate: every row is in one of them, no session is in two, and no more normal
-- rows of the calibration reach the threshold than are allowed.
pub record IsSplit (allowed : ℕ → ℕ) (rows : List Row) (c : Candidate) : Type 0 where
  pub whole : c.training.total + (c.calibration.total + c.test.total) ≡ length rows
  pub calibration_apart : text_in c.calibration_id c.training_ids ≡ false
  pub test_apart : text_in c.test_id c.training_ids ≡ false
  pub different : same_text c.calibration_id c.test_id ≡ false
  pub few_alarms : c.normal_alarms ≤ allowed c.normal_buckets_used
