-- ===== src/Evaluation/Scores.antt =====
-- evaluate_event_time.py: `attack_scores`, `normal_cutoff` and `counts`.
use e_bpf_based_kernel_ai_se.Prelude.{
  ◌≡◌, refl, ℕ, suc, ◌+◌, ◌-◌, List, [], ◌∷◌, Option, none, some, Bool, true, false, not, ◌&&◌,
  if◌then◌else◌, ◌==◌, leb, ltb, any, length, get_elem?, get_or, map, String, same_text,
}
use e_bpf_based_kernel_ai_se.Dataset.Sorting.{sorted, add_name}

-- A row of the arrays that are evaluated.
pub record Row : Type 0 where
  pub features : List ℕ
  pub attack : Bool
  pub technique : String
  pub session : String

pub data Error : Type 0 where
  no_scores : Error
  index_error : Error
  too_few_files : Error
  invalid_shape : Error
  name_mismatch : Error
  length_mismatch : Error
  invalid_labels : Error
  empty_session : Error
  several_sessions : Error
  overlapping_sessions : Error
  too_few_sessions : Error
  one_class : Error
  no_normals : Error
  invalid_names : Error
  repeated_names : Error
  unknown_feature : Error
  nothing_left : Error

pub data Result (A : Type 0) : Type 0 where
  failed : Error → Result A
  success : A → Result A

abbrev pub and_then : {A B : Type 0} → Result A → (A → Result B) → Result B
and_then (failed e) k = failed e
and_then (success a) k = k a

abbrev pub map_result : {A B : Type 0} → (A → B) → Result A → Result B
map_result k (failed e) = failed e
map_result k (success a) = success (k a)

pub and_then-success :
    {A B : Type 0} (r : Result A) (k : A → Result B) (b : B)
    → and_then r k ≡ success b
    → (a : A) × ((r ≡ success a) × (k a ≡ success b))
and_then-success (failed e) k b h = cc
and_then-success (success a) k b h = (a, (refl, h))

pub map_result-success :
    {A B : Type 0} (r : Result A) (k : A → B) (b : B)
    → map_result k r ≡ success b
    → (a : A) × ((r ≡ success a) × (k a ≡ b))
map_result-success (failed e) k b h = cc
map_result-success (success a) k b h = (a, (refl, success_eq (k a) b h))
  where
    success_eq : {C : Type 0} (x y : C) → Result.success x ≡ Result.success y → x ≡ y
    success_eq x y h = cc

-- What the program uses of scikit-learn: a fit, the classes, and the probabilities for a row.
pub record Forest (Model : Type 0) : Type 0 where
  pub fit : List (List ℕ) → List Bool → Model
  pub classes : Model → List ℕ
  pub predict_proba : Model → List ℕ → List ℕ

-- `classes.index(1)`
unfoldable pub index_of : ℕ → List ℕ → ℕ
index_of c [] = 0
index_of c (d ∷ ds) = let rest = index_of c ds in if d == c then 0 else suc rest

module _ {Model : Type 0} (forest : Forest Model) where
  unfoldable pub attack_score : Model → Row → ℕ
  unfolding index_of
  attack_score m r =
      let cs = forest.classes m in
      if any (λ c. c == 1) cs
      then get_or (forest.predict_proba m r.features) (index_of 1 cs) 0
      else 0

  unfoldable pub attack_scores : Model → List Row → List ℕ
  unfolding attack_score
  attack_scores m rows = map (attack_score m) rows

  -- `fit_rf(X[rows], labels[rows])`
  unfoldable pub fit_rf : List Row → Model
  fit_rf rows = forest.fit (map (λ (r : Row). r.features) rows) (map (λ (r : Row). r.attack) rows)

abbrev pub next_float : Option ℕ → Result ℕ
next_float none = failed index_error
next_float (some x) = success (suc x)

-- `normal_cutoff`, with `math.floor(target_fpr * n)` for `n` scores as `allowed n`. The index
-- `-allowed - 1` counts from the end.
unfoldable pub normal_cutoff : (ℕ → ℕ) → List ℕ → Result ℕ
unfolding sorted
normal_cutoff allowed [] = failed no_scores
normal_cutoff allowed (x ∷ xs) =
    let n = length (x ∷ xs) in
    if leb n (allowed n)
    then failed index_error
    else next_float (get_elem? (sorted ltb (x ∷ xs)) (n - allowed n - 1))

-- A row with its prediction.
pub record Judged : Type 0 where
  pub row : Row
  pub predicted : Bool

-- `np.count_nonzero`
unfoldable pub count_nonzero {ℓ} : {A : Type ℓ} → (A → Bool) → List A → ℕ
count_nonzero p [] = 0
count_nonzero p (x ∷ xs) = let rest = count_nonzero p xs in if p x then suc rest else rest

-- An entry of `per_technique` and of `false_positive_by_technique`.
pub record Technique : Type 0 where
  pub name : String
  pub total : ℕ
  pub found : ℕ

pub record Counts : Type 0 where
  pub tp : ℕ
  pub fp : ℕ
  pub tn : ℕ
  pub fn : ℕ
  pub dr : Option (ℕ × ℕ)
  pub fpr : Option (ℕ × ℕ)
  pub total : ℕ
  pub per_technique : List Technique
  pub false_positive_by_technique : List Technique

unfoldable pub techniques_of : Bool → List Judged → List String
unfolding add_name
techniques_of attack [] = []
techniques_of attack (j ∷ js) =
    let rest = techniques_of attack js in
    if (if attack then j.row.attack else not j.row.attack)
    then add_name j.row.technique rest
    else rest

abbrev pub selected : Bool → String → Judged → Bool
selected attack name j =
    (if attack then j.row.attack else not j.row.attack) && same_text j.row.technique name

unfoldable pub by_technique : Bool → List String → List Judged → List Technique
unfolding count_nonzero
by_technique attack [] js = []
by_technique attack (name ∷ names) js =
    record {
      name = name;
      total = count_nonzero (selected attack name) js;
      found = count_nonzero (λ (j : Judged). selected attack name j && j.predicted) js;
    }
    ∷ by_technique attack names js

-- `dr` and `fpr`: a quotient, or nothing.
unfoldable pub rate : ℕ → ℕ → Option (ℕ × ℕ)
rate n m = if n + m == 0 then none else some (n, n + m)

unfoldable pub counts : List Judged → Counts
unfolding count_nonzero rate techniques_of by_technique
counts js =
    let tp = count_nonzero (λ (j : Judged). j.row.attack && j.predicted) js in
    let fp = count_nonzero (λ (j : Judged). not j.row.attack && j.predicted) js in
    let tn = count_nonzero (λ (j : Judged). not j.row.attack && not j.predicted) js in
    let fn = count_nonzero (λ (j : Judged). j.row.attack && not j.predicted) js in
    record {
      tp = tp;
      fp = fp;
      tn = tn;
      fn = fn;
      dr = rate tp fn;
      fpr = rate fp tn;
      total = length js;
      per_technique = by_technique true (techniques_of true js) js;
      false_positive_by_technique = by_technique false (techniques_of false js) js;
    }
