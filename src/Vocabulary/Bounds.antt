-- ===== src/Vocabulary/Bounds.antt =====
-- syscall_map.py: the feature numbers and the size of the vocabulary.
use e_bpf_based_kernel_ai_se.Prelude.{
  ℕ, suc, ◌≤◌, ◌<◌, ◌≡◌, refl, ap, List, [], ◌∷◌, ◌++◌, Option, none, some, arith, ℕ_discrete,
  Option-cases, inl, inr, Bool-cases,
}
use e_bpf_based_kernel_ai_se.Dict.{Dict, get}
use e_bpf_based_kernel_ai_se.Dict.Values.{Values, Values-put, Values-get}
use e_bpf_based_kernel_ai_se.Aggregate.Paths.{is_digits}
use e_bpf_based_kernel_ai_se.Aggregate.Perm.{path_discrete}
use e_bpf_based_kernel_ai_se.Vocabulary.Assign.{
  Word, Names, digits_from, read_names, Added, State, start, known_id, assign, note_call,
  note_calls, syscall_map,
}

abbrev pub IsBelow : ℕ → ℕ → Type 0
IsBelow bound n = n < bound

-- first, first + 1, ..., in the order of the list.
abbrev pub Counts : ℕ → ℕ → List Added → Type 0
Counts first next [] = first ≡ next
Counts first next (a ∷ as') = (a.feature_id ≡ first) × Counts (suc first) next as'

-- Every number is below the size of the vocabulary, and the new ones are 1083 and those that follow.
pub record IsVocabulary (s : State) : Type 0 where
  pub bounded : Values (IsBelow s.next_id) s.mapping
  pub fresh : Counts 1083 s.next_id s.added

Counts-append :
    (first next : ℕ) (a : Added) (as' : List Added)
    → Counts first next as'
    → a.feature_id ≡ next
    → Counts first (suc next) (as' ++ a ∷ [])
Counts-append first next a [] h e = (omega (arith, h, e), ap suc h)
Counts-append first next a (x ∷ xs) h e = (h.0, Counts-append (suc first) next a xs h.1 e)

Counts-le : (first next : ℕ) (as' : List Added) → Counts first next as' → first ≤ next
Counts-le first next [] h = omega (arith, h)
Counts-le first next (a ∷ as') h = omega (arith, Counts-le (suc first) next as' h.1)

Values-more : (n m : ℕ) (d : Dict ℕ ℕ) → n ≤ m → Values (IsBelow n) d → Values (IsBelow m) d
Values-more n m [] l h = tt
Values-more n m ((k, v) ∷ d) l h = (omega (arith, h.0), Values-more n m d l h.1)

known_id-below :
    (names : Names) (name : Word) (n : ℕ)
    → Values (IsBelow 1083) names
    → known_id names name ≡ some n
    → n < 1083
unfolding known_id
known_id-below names name n h e = elim (Option-cases (get path_discrete name names)) [
  | inl q ↦
      Values-get (IsBelow 1083) path_discrete (name ++ b'6' ∷ b'4' ∷ []) n names h
        (ground (arith, q, e))
  | inr (m, q) ↦ Values-get (IsBelow 1083) path_discrete name n names h (ground (arith, q, e))
]

assign-IsVocabulary :
    (nr : ℕ) (name : Word) (id : Option ℕ) (s : State)
    → ((n : ℕ) → id ≡ some n → n < 1083)
    → IsVocabulary s
    → IsVocabulary (assign nr name id s)
unfolding assign
assign-IsVocabulary nr name (some n) s h v = record {
  bounded =
      Values-put (IsBelow s.next_id) ℕ_discrete nr n s.mapping v.bounded
        (omega (arith, h n refl, Counts-le 1083 s.next_id s.added v.fresh));
  fresh = v.fresh;
}
assign-IsVocabulary nr name none s h v = record {
  bounded =
      Values-put (IsBelow (suc s.next_id)) ℕ_discrete nr s.next_id s.mapping
        (Values-more s.next_id (suc s.next_id) s.mapping (omega arith) v.bounded) (omega arith);
  fresh = Counts-append 1083 s.next_id _ s.added v.fresh refl;
}

note_call-IsVocabulary :
    (names : Names) (line : List Word) (s : State)
    → Values (IsBelow 1083) names
    → IsVocabulary s
    → IsVocabulary (note_call names line s)
unfolding note_call
note_call-IsVocabulary names [] s h v = v
note_call-IsVocabulary names (a ∷ []) s h v = v
note_call-IsVocabulary names (number ∷ name ∷ []) s h v = elim (Bool-cases (is_digits number)) [
  | inl e ↦ rw e (
      assign-IsVocabulary (digits_from 0 number) name (known_id names name) s
        (λ n q. known_id-below names name n h q) v)
  | inr e ↦ rw e v
]
note_call-IsVocabulary names (a ∷ b ∷ c ∷ more) s h v = v

note_calls-IsVocabulary :
    (names : Names) (lines : List (List Word)) (s : State)
    → Values (IsBelow 1083) names
    → IsVocabulary s
    → IsVocabulary (note_calls names lines s)
unfolding note_calls
note_calls-IsVocabulary names [] s h v = v
note_calls-IsVocabulary names (line ∷ lines) s h v =
    note_calls-IsVocabulary names lines (note_call names line s) h
      (note_call-IsVocabulary names line s h v)

-- Where the numbers of the known names are below 1083, every feature number of the map is below the size
-- of the vocabulary, and the numbers given to new calls are 1083 and those that follow, each once.
pub syscall_map-IsVocabulary :
    (adfa_lines dump_lines : List (List Word))
    → Values (IsBelow 1083) (read_names adfa_lines [])
    → IsVocabulary (syscall_map adfa_lines dump_lines)
unfolding syscall_map
syscall_map-IsVocabulary adfa_lines dump_lines h =
    note_calls-IsVocabulary (read_names adfa_lines []) dump_lines start h
      (record { bounded = tt; fresh = refl })
