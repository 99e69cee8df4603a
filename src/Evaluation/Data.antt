-- ===== src/Evaluation/Data.antt =====
-- evaluate_event_time.py, `read_data`, and feature_schema.py. A file comes as its arrays, a matrix with
-- the number of its columns; a feature is the bits of a 32-bit float.
use e_bpf_based_kernel_ai_se.Prelude.{
  ℕ, List, [], ◌∷◌, ◌++◌, Option, none, some, Bool, true, false, not, ◌&&◌, ◌||◌, if◌then◌else◌,
  ◌==◌, ltb, any, all, length, String, same_text,
}
use e_bpf_based_kernel_ai_se.Aggregate.Buckets.{text_lt}
use e_bpf_based_kernel_ai_se.Dataset.Sorting.{sorted, add_name}
use e_bpf_based_kernel_ai_se.Dataset.Rows.{filter, is_finite}
use e_bpf_based_kernel_ai_se.Evaluation.Scores.{
  Row, Error, too_few_files, invalid_shape, name_mismatch, length_mismatch, invalid_labels,
  empty_session, several_sessions, overlapping_sessions, too_few_sessions, invalid_names,
  repeated_names, unknown_feature, nothing_left, Result, failed, success, and_then,
}

pub record Npz : Type 0 where
  pub names : List String
  pub columns : ℕ
  pub X : List (List ℕ)
  pub labels : List String
  pub techniques : List String
  pub sessions : List String

-- `text in texts`, which is `np.isin` for one text.
unfoldable pub text_in : String → List String → Bool
text_in s ts = any (same_text s) ts

unfoldable pub same_names : List String → List String → Bool
same_names [] [] = true
same_names [] (t ∷ ts) = false
same_names (s ∷ ss) [] = false
same_names (s ∷ ss) (t ∷ ts) = same_text s t && same_names ss ts

-- `set(...)`, sorted.
unfoldable pub set_of : List String → List String
unfolding add_name
set_of [] = []
set_of (s ∷ ss) = add_name s (set_of ss)

unfoldable pub is_label : String → Bool
is_label s = same_text s "normal" || same_text s "attack"

unfoldable pub differs : Option (List String) → List String → Bool
unfolding same_names
differs none names = false
differs (some expected) names = not (same_names names expected)

-- The checks on one file, without those on its sessions.
unfoldable pub file_error : Option (List String) → Npz → Option Error
unfolding differs is_finite is_label
file_error expected f =
    if (length f.names == 0) || not (f.columns == length f.names)
    then some invalid_shape
    else if differs expected f.names
    then some name_mismatch
    else if not (length f.labels == length f.X)
        || (not (length f.techniques == length f.X) || not (length f.sessions == length f.X))
    then some length_mismatch
    else if not (all (all is_finite) f.X) || not (all is_label f.labels)
    then some invalid_labels
    else if any (λ s. same_text s "") f.sessions || any (λ t. same_text t "") f.techniques
    then some empty_session
    else none

-- The check with `single_session_files`, for the sessions seen before.
unfoldable pub session_error : Bool → List String → Npz → Option Error
unfolding set_of text_in
session_error false seen f = none
session_error true seen f =
    let found = set_of f.sessions in
    if not (length found == 1)
    then some several_sessions
    else if any (λ s. text_in s seen) found
    then some overlapping_sessions
    else none

-- The rows of a file, by their place in the arrays.
unfoldable pub rows_of : List (List ℕ) → List String → List String → List String → List Row
rows_of (x ∷ xs) (l ∷ ls) (t ∷ ts) (s ∷ ss) =
    record { features = x; attack = same_text l "attack"; technique = t; session = s }
    ∷ rows_of xs ls ts ss
rows_of xs ls ts ss = []

-- `keep`
unfoldable pub kept_rows : List String → Npz → List Row
unfolding rows_of filter text_in
kept_rows excluded f =
    filter (λ (r : Row). not (text_in r.technique excluded))
      (rows_of f.X f.labels f.techniques f.sessions)

unfoldable pub read_files :
    Bool → List String → Option (List String) → List String → List Npz → Result (List Row)
unfolding file_error session_error kept_rows set_of
read_files single excluded expected seen [] = success []
read_files single excluded expected seen (f ∷ fs) = elim (file_error expected f) [
  | some e ↦ failed e
  | none ↦ elim (session_error single seen f) [
    | some e ↦ failed e
    | none ↦
        and_then (read_files single excluded (some f.names) (set_of f.sessions ++ seen) fs)
          (λ rows. success (kept_rows excluded f ++ rows))
  ]
]

abbrev pub session_lt : Row → Row → Bool
session_lt r q = text_lt r.session q.session

abbrev pub session_names : List Row → List String
session_names [] = []
session_names (r ∷ rs) = r.session ∷ session_names rs

-- `np.unique(sessions)`
unfoldable pub sessions_of : List Row → List String
unfolding set_of
sessions_of rows = set_of (session_names rows)

-- The sorting keeps the order within each session.
unfoldable pub read_data : List String → Bool → List Npz → Result (List Row)
unfolding read_files sessions_of sorted
read_data excluded single files =
    let minimum = if single then 4 else 3 in
    if ltb (length files) minimum
    then failed too_few_files
    else and_then (read_files single excluded none [] files) (λ rows.
      if ltb (length (sessions_of rows)) minimum
      then failed too_few_sessions
      else success (sorted session_lt rows))

unfoldable pub has_repeated : List String → Bool
unfolding text_in
has_repeated [] = false
has_repeated (s ∷ ss) = text_in s ss || has_repeated ss

-- `X[:, keep]` on one row.
unfoldable pub masked : List String → List String → List ℕ → List ℕ
unfolding text_in
masked excluded (n ∷ names) (x ∷ xs) =
    let rest = masked excluded names xs in if text_in n excluded then rest else x ∷ rest
masked excluded names xs = []

-- The checks of `apply_feature_mask` on the names.
unfoldable pub mask_error : List String → List String → Option Error
unfolding has_repeated text_in
mask_error names excluded =
    if (length names == 0) || has_repeated names
    then some repeated_names
    else if any (λ n. same_text n "") names
    then some invalid_names
    else if any (λ n. not (text_in n names)) excluded
    then some unknown_feature
    else if all (λ n. text_in n excluded) names
    then some nothing_left
    else none

abbrev mask_row : List String → List String → Row → Row
mask_row names excluded r = record r { features = masked excluded names r.features }

abbrev mask_rows : List String → List String → List Row → List Row
mask_rows names excluded [] = []
mask_rows names excluded (r ∷ rs) = mask_row names excluded r ∷ mask_rows names excluded rs

-- `apply_feature_mask`, for a matrix whose number of columns is checked.
unfoldable pub apply_feature_mask : ℕ → List String → List String → List Row → Result (List Row)
unfolding mask_error masked
apply_feature_mask columns names excluded rows =
    if not (columns == length names)
    then failed invalid_shape
    else elim (mask_error names excluded) [
      | some e ↦ failed e
      | none ↦ success (mask_rows names excluded rows)
    ]
