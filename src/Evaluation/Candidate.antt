-- ===== src/Evaluation/Candidate.antt =====
-- evaluate_event_time.py, `export_candidate_model`, without the files that it writes.
use e_bpf_based_kernel_ai_se.Prelude.{
  ℕ, ◌-◌, List, [], ◌∷◌, Option, none, some, Bool, true, not, ◌&&◌, if◌then◌else◌, leb, ltb, any,
  length, String,
}
use e_bpf_based_kernel_ai_se.Dataset.Rows.{filter}
use e_bpf_based_kernel_ai_se.Evaluation.Scores.{
  Row, too_few_sessions, one_class, no_normals, Result, failed, and_then, map_result, Forest,
  attack_scores, fit_rf, normal_cutoff, count_nonzero, Counts, counts,
}
use e_bpf_based_kernel_ai_se.Evaluation.Data.{Npz, text_in, sessions_of}
use e_bpf_based_kernel_ai_se.Evaluation.Nested.{masked_data, of_session, judge_rows}

-- `ids[:-2]`, `ids[-2]` and `ids[-1]`.
unfoldable pub last_two {ℓ} : {A : Type ℓ} → List A → Option (List A × A × A)
last_two [] = none
last_two (a ∷ []) = none
last_two (a ∷ b ∷ []) = some ([], a, b)
last_two (a ∷ b ∷ c ∷ xs) = elim (last_two (b ∷ c ∷ xs)) [
  | none ↦ none
  | some (ys, p, q) ↦ some (a ∷ ys, p, q)
]

-- An entry of `sample_counts`.
pub record Sample : Type 0 where
  pub total : ℕ
  pub normal : ℕ
  pub attack : ℕ

unfoldable pub sample_of : (Row → Bool) → List Row → Sample
unfolding count_nonzero
sample_of p rows =
    let total = count_nonzero p rows in
    let attack = count_nonzero (λ (r : Row). p r && r.attack) rows in
    record { total = total; normal = total - attack; attack = attack }

-- What the metadata says of the model.
pub record Candidate : Type 0 where
  pub training_ids : List String
  pub calibration_id : String
  pub test_id : String
  pub training : Sample
  pub calibration : Sample
  pub test : Sample
  pub threshold : ℕ
  pub normal_buckets_used : ℕ
  pub normal_alarms : ℕ
  pub held_out_test : Counts

abbrev pub in_training : List String → Row → Bool
in_training ids r = text_in r.session ids

abbrev pub normal_in : String → Row → Bool
normal_in s r = of_session s r && not r.attack

module _ {Model : Type 0} (forest : Forest Model) (allowed : ℕ → ℕ) where
  unfoldable pub candidate :
      List Row → List String → String → String → Model → List ℕ → ℕ → Candidate
  unfolding sample_of count_nonzero counts judge_rows filter text_in
  candidate rows tr cal test_id model scores threshold = record {
    training_ids = tr;
    calibration_id = cal;
    test_id = test_id;
    training = sample_of (in_training tr) rows;
    calibration = sample_of (of_session cal) rows;
    test = sample_of (of_session test_id) rows;
    threshold = threshold;
    normal_buckets_used = length scores;
    normal_alarms = count_nonzero (leb threshold) scores;
    held_out_test =
        counts (judge_rows forest allowed model threshold (filter (of_session test_id) rows));
  }

  unfoldable pub export_split : List Row → List String → String → String → Result Candidate
  unfolding filter text_in fit_rf attack_scores normal_cutoff candidate
  export_split rows tr cal test_id =
      let train = filter (in_training tr) rows in
      let normals = filter (normal_in cal) rows in
      if not (any (λ (r : Row). r.attack) train && any (λ (r : Row). not r.attack) train)
      then failed one_class
      else if leb (length normals) 0
      then failed no_normals
      else (let model = fit_rf forest train in
          let scores = attack_scores forest model normals in
          map_result (candidate rows tr cal test_id model scores) (normal_cutoff allowed scores))

  unfoldable pub export_candidate_model : List Row → Result Candidate
  unfolding sessions_of last_two export_split
  export_candidate_model rows =
      let ids = sessions_of rows in
      if ltb (length ids) 4 then failed too_few_sessions else elim (last_two ids) [
        | none ↦ failed too_few_sessions
        | some (tr, cal, test_id) ↦ export_split rows tr cal test_id
      ]

  -- The part of `evaluate` that exports, on the arrays of the files.
  unfoldable pub export_files : List String → List Npz → Result Candidate
  unfolding masked_data export_candidate_model
  export_files excluded files = and_then (masked_data excluded true files) export_candidate_model
