-- ===== src/Evaluation/Nested.antt =====
-- evaluate_event_time.py, `evaluate`: each session is held out, and the threshold comes from a second
-- holdout among the sessions that are left. The replay of a deployed model is outside.
use e_bpf_based_kernel_ai_se.Prelude.{
  ℕ, List, [], ◌∷◌, ◌++◌, Bool, false, not, ◌&&◌, if◌then◌else◌, leb, length, map, String,
  same_text,
}
use e_bpf_based_kernel_ai_se.Dataset.Rows.{filter}
use e_bpf_based_kernel_ai_se.Evaluation.Scores.{
  Row, no_normals, Result, failed, success, and_then, map_result, Forest, attack_score,
  attack_scores, fit_rf, normal_cutoff, Judged, Counts, counts,
}
use e_bpf_based_kernel_ai_se.Evaluation.Data.{
  Npz, text_in, sessions_of, read_data, apply_feature_mask,
}

abbrev pub of_session : String → Row → Bool
of_session s r = same_text r.session s

-- `train = sessions != held_out`
abbrev pub train_mask : String → Row → Bool
train_mask held_out r = not (of_session held_out r)

-- A session with its threshold and its counts.
pub record Fold : Type 0 where
  pub session : String
  pub threshold : ℕ
  pub found : Counts

abbrev stable_excluded : List String
stable_excluded =
    "frac_missing" ∷ "frac_not_world_readable" ∷ "frac_other_owner" ∷ "frac_setuid"
    ∷ "n_net_dst_log" ∷ []

-- `read_data` and `apply_feature_mask`; the names are those of every file.
unfoldable pub masked_data : List String → Bool → List Npz → Result (List Row)
unfolding read_data apply_feature_mask filter text_in
masked_data excluded single [] = and_then (read_data excluded single []) success
masked_data excluded single (f ∷ fs) =
    and_then (read_data excluded single (f ∷ fs))
      (apply_feature_mask f.columns f.names (filter (λ n. text_in n stable_excluded) f.names))

module _ {Model : Type 0} (forest : Forest Model) (allowed : ℕ → ℕ) where
  -- `attack_scores(...) >= threshold` beside the rows.
  unfoldable pub judge_rows : Model → ℕ → List Row → List Judged
  unfolding attack_score
  judge_rows m threshold rows =
      map (λ (r : Row). record { row = r; predicted = leb threshold (attack_score forest m r) })
        rows

  -- `normal_oof` after the inner sessions, joined; `none` of them with a normal row is an error.
  unfoldable pub inner_scores : String → List Row → List String → List ℕ
  unfolding filter fit_rf attack_scores
  inner_scores held_out rows [] = []
  inner_scores held_out rows (inner ∷ inners) =
      let train = train_mask held_out in
      let inner_train = filter (λ (r : Row). train r && not (of_session inner r)) rows in
      let inner_normal =
        filter (λ (r : Row). train r && (of_session inner r && not r.attack)) rows in
      let rest = inner_scores held_out rows inners in
      if leb (length inner_normal) 0
      then rest
      else attack_scores forest (fit_rf forest inner_train) inner_normal ++ rest

  unfoldable pub threshold_of : List ℕ → Result ℕ
  unfolding normal_cutoff
  threshold_of [] = failed no_normals
  threshold_of (x ∷ xs) = normal_cutoff allowed (x ∷ xs)

  -- The forest of `train`, tested at a threshold.
  unfoldable pub tested : List Row → List Row → String → ℕ → Fold
  unfolding fit_rf judge_rows counts
  tested train test held_out threshold = record {
    session = held_out;
    threshold = threshold;
    found = counts (judge_rows (fit_rf forest train) threshold test);
  }

  unfoldable pub fold : List Row → String → Result Fold
  unfolding filter sessions_of inner_scores threshold_of tested
  fold rows held_out =
      let train = filter (train_mask held_out) rows in
      let test = filter (λ (r : Row). not (train_mask held_out r)) rows in
      map_result (tested train test held_out)
        (threshold_of (inner_scores held_out rows (sessions_of train)))

  unfoldable pub folds : List Row → List String → Result (List Fold)
  unfolding fold
  folds rows [] = success []
  folds rows (s ∷ ss) =
      and_then (fold rows s) (λ f. map_result (λ (fs : List Fold). f ∷ fs) (folds rows ss))

  -- `evaluate` from the masked rows on.
  unfoldable pub evaluate : List Row → Result (List Fold)
  unfolding folds sessions_of
  evaluate rows = folds rows (sessions_of rows)

  -- `evaluate` on the arrays of the files.
  unfoldable pub evaluate_files : List String → List Npz → Result (List Fold)
  unfolding masked_data evaluate
  evaluate_files excluded files = and_then (masked_data excluded false files) evaluate
