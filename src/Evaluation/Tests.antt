-- ===== src/Evaluation/Tests.antt =====
-- The evaluation of a few sessions with a concrete forest.
use e_bpf_based_kernel_ai_se.Prelude.{
  ℕ, ◌+◌, ◌-◌, ◌/◌, ◌==◌, ◌≡◌, refl, List, [], ◌∷◌, Bool, true, false, if◌then◌else◌, get_or,
  String, arith,
}
use e_bpf_based_kernel_ai_se.Dataset.Sorting.{insert, sorted}
use e_bpf_based_kernel_ai_se.Evaluation.Scores.{Row, success, Forest, normal_cutoff, Counts, rate}
use e_bpf_based_kernel_ai_se.Evaluation.Nested.{Fold}
use e_bpf_based_kernel_ai_se.Evaluation.Candidate.{Candidate}
use e_bpf_based_kernel_ai_se.Evaluation.Cutoff.{IsSmallest, normal_cutoff-IsSmallest}

-- One false positive in four scores.
unfoldable quarter : ℕ → ℕ
quarter n = n / 4

normal_cutoff-IsSmallest_example :
    (c : ℕ) × ((normal_cutoff quarter (7 ∷ 3 ∷ 9 ∷ 5 ∷ []) ≡ success c)
      × IsSmallest 1 (7 ∷ 3 ∷ 9 ∷ 5 ∷ []) c)
unfolding quarter
normal_cutoff-IsSmallest_example =
    normal_cutoff-IsSmallest quarter (7 ∷ 3 ∷ 9 ∷ 5 ∷ []) (omega arith)

cutoff_eight : normal_cutoff quarter (7 ∷ 3 ∷ 9 ∷ 5 ∷ []) ≡ success 8
unfolding normal_cutoff quarter sorted insert
cutoff_eight = refl

-- A forest that answers with the first feature, whatever it was fitted to.
unfoldable first_feature : Forest Bool
first_feature = record {
  fit = λ xs ls. true;
  classes = λ m. 0 ∷ 1 ∷ [];
  predict_proba = λ m xs. 0 ∷ get_or xs 0 0 ∷ [];
}

unfoldable row : String → Bool → ℕ → Row
row s b x = record {
  features = x ∷ [];
  attack = b;
  technique = if b then "T1070" else "idle";
  session = s;
}

unfoldable rows : List Row
unfolding row
rows =
    row "a" false 2
    ∷ row "a" true 8
    ∷ row "b" false 3
    ∷ row "c" false 4
    ∷ row "c" true 9
    ∷ row "d" true 5
    ∷ row "d" false 1
    ∷ []

-- The counts of a session with one normal row and `n` attacks, of which `found` are found.
unfoldable outcome : ℕ → ℕ → ℕ → Counts
unfolding rate
outcome n found alarms = record {
  tp = found;
  fp = alarms;
  tn = 1 - alarms;
  fn = n - found;
  dr = rate found (n - found);
  fpr = rate alarms (1 - alarms);
  total = 1 + n;
  per_technique = if n == 0 then [] else record { name = "T1070"; total = n; found = found } ∷ [];
  false_positive_by_technique = record { name = "idle"; total = 1; found = alarms } ∷ [];
}

unfoldable four_folds : List Fold
unfolding outcome
four_folds =
    record { session = "a"; threshold = 5; found = outcome 1 1 0 }
    ∷ record { session = "b"; threshold = 5; found = outcome 0 0 0 }
    ∷ record { session = "c"; threshold = 4; found = outcome 1 1 1 }
    ∷ record { session = "d"; threshold = 5; found = outcome 1 1 0 }
    ∷ []

unfoldable exported : Candidate
unfolding outcome
exported = record {
  training_ids = "a" ∷ "b" ∷ [];
  calibration_id = "c";
  test_id = "d";
  training = record { total = 3; normal = 2; attack = 1 };
  calibration = record { total = 2; normal = 1; attack = 1 };
  test = record { total = 2; normal = 1; attack = 1 };
  threshold = 5;
  normal_buckets_used = 1;
  normal_alarms = 0;
  held_out_test = outcome 1 1 0;
}
