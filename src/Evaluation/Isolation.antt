-- ===== src/Evaluation/Isolation.antt =====
-- evaluate_event_time.py: what a held-out session has no influence on.
use e_bpf_based_kernel_ai_se.Prelude.{
  ℕ, ◌≡◌, map, All, List, [], ◌∷◌, ◌++◌, not, ◌&&◌, if◌then◌else◌, leb, length, String,
}
use e_bpf_based_kernel_ai_se.Dataset.Rows.{filter}
use e_bpf_based_kernel_ai_se.Evaluation.Scores.{
  Row, Result, success, map_result, Forest, attack_scores, fit_rf,
}
use e_bpf_based_kernel_ai_se.Evaluation.Data.{sessions_of}
use e_bpf_based_kernel_ai_se.Evaluation.Nested.{of_session, train_mask, Fold, tested, threshold_of}

module _ {Model : Type 0} (forest : Forest Model) (allowed : ℕ → ℕ) where
  -- The inner holdout on the rows of the other sessions alone.
  unfoldable pub scores_within : List Row → List String → List ℕ
  unfolding filter fit_rf attack_scores
  scores_within rows [] = []
  scores_within rows (inner ∷ inners) =
      let inner_train = filter (λ (r : Row). not (of_session inner r)) rows in
      let inner_normal = filter (λ (r : Row). of_session inner r && not r.attack) rows in
      let rest = scores_within rows inners in
      if leb (length inner_normal) 0
      then rest
      else attack_scores forest (fit_rf forest inner_train) inner_normal ++ rest

  -- A fold whose forest and threshold are made from `train` and that is tested on `test`.
  unfoldable pub fold_apart : List Row → List Row → String → Result Fold
  unfolding scores_within sessions_of threshold_of tested
  fold_apart train test held_out =
      map_result (tested forest allowed train test held_out)
        (threshold_of forest allowed (scores_within train (sessions_of train)))

  -- The fold of a session, from the rows of the other sessions and tested on its own.
  abbrev pub Apart : List Row → Fold → Type 0
  Apart rows f =
      fold_apart (filter (train_mask f.session) rows)
        (filter (λ (r : Row). not (train_mask f.session r)) rows) f.session
      ≡ success f

  abbrev pub IsDone : List Row → List String → List Fold → Type 0
  IsDone rows ss fs = (map (λ (f : Fold). f.session) fs ≡ ss) × All (Apart rows) fs
