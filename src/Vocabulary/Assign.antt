-- ===== src/Vocabulary/Assign.antt =====
-- syscall_map.py, `main`: the names of a list of known system calls, and the numbers of the system that runs.
-- A line comes as the words that `split` makes of it; what `ausyscall --dump` prints is an argument.
use e_bpf_based_kernel_ai_se.Prelude.{
  ℕ, suc, ◌+◌, ◌-◌, ◌*◌, List, [], ◌∷◌, ◌++◌, Option, none, some, not, if◌then◌else◌, ℕ_discrete,
}
use e_bpf_based_kernel_ai_se.Dict.{Dict, get, put}
use e_bpf_based_kernel_ai_se.Aggregate.Paths.{is_digits}
use e_bpf_based_kernel_ai_se.Aggregate.Perm.{path_discrete}

abbrev pub Word : Type 0
Word = List ℕ

-- `int(text)` for a text of digits.
unfoldable pub digits_from : ℕ → Word → ℕ
digits_from n [] = n
digits_from n (c ∷ cs) = digits_from (n * 10 + (c - 48)) cs

abbrev pub Names : Type 0
Names = Dict Word ℕ

-- `names.setdefault(name, n)`
unfoldable pub set_default : Word → ℕ → Names → Names
set_default name n names = elim (get path_discrete name names) [
  | none ↦ put path_discrete name n names
  | some m ↦ names
]

unfoldable pub note_name : List Word → Names → Names
unfolding set_default is_digits digits_from
note_name (number ∷ other ∷ name ∷ []) names =
    if is_digits number then set_default name (digits_from 0 number) names else names
note_name parts names = names

unfoldable pub read_names : List (List Word) → Names → Names
unfolding note_name
read_names [] names = names
read_names (line ∷ lines) names = read_names lines (note_name line names)

pub record Added : Type 0 where
  pub nr : ℕ
  pub name : Word
  pub feature_id : ℕ

pub record State : Type 0 where
  pub mapping : Dict ℕ ℕ
  pub added : List Added
  pub next_id : ℕ

abbrev pub start : State
start = record { mapping = []; added = []; next_id = 1083 }

-- `names.get(name, names.get(f"{name}64"))`
unfoldable pub known_id : Names → Word → Option ℕ
known_id names name = elim (get path_discrete name names) [
  | none ↦ get path_discrete (name ++ b'6' ∷ b'4' ∷ []) names
  | some n ↦ some n
]

unfoldable pub assign : ℕ → Word → Option ℕ → State → State
assign nr name (some n) s = record s { mapping = put ℕ_discrete nr n s.mapping }
assign nr name none s = record {
  mapping = put ℕ_discrete nr s.next_id s.mapping;
  added = s.added ++ record { nr = nr; name = name; feature_id = s.next_id } ∷ [];
  next_id = suc s.next_id;
}

unfoldable pub note_call : Names → List Word → State → State
unfolding known_id assign is_digits digits_from
note_call names (number ∷ name ∷ []) s =
    if not (is_digits number) then s else assign (digits_from 0 number) name (known_id names name) s
note_call names parts s = s

unfoldable pub note_calls : Names → List (List Word) → State → State
unfolding note_call
note_calls names [] s = s
note_calls names (line ∷ lines) s = note_calls names lines (note_call names line s)

-- The JSON that `main` writes: `next_id` is the size of the vocabulary.
unfoldable pub syscall_map : List (List Word) → List (List Word) → State
unfolding read_names note_calls
syscall_map adfa_lines dump_lines = note_calls (read_names adfa_lines []) dump_lines start
