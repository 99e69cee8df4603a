-- ===== src/Vocabulary/Tests.antt =====
-- The map of system calls on concrete lines.
use e_bpf_based_kernel_ai_se.Prelude.{List, [], ◌∷◌, arith}
use e_bpf_based_kernel_ai_se.Bytes.{bytes_of}
use e_bpf_based_kernel_ai_se.Dict.{get, put}
use e_bpf_based_kernel_ai_se.Aggregate.Paths.{is_digits, is_empty}
use e_bpf_based_kernel_ai_se.Vocabulary.Assign.{
  Word, digits_from, set_default, note_name, read_names, syscall_map,
}
use e_bpf_based_kernel_ai_se.Vocabulary.Bounds.{IsVocabulary, syscall_map-IsVocabulary}

unfoldable known : List (List Word)
unfolding bytes_of
known = (bytes_of "3" ∷ bytes_of "-" ∷ bytes_of "read" ∷ []) ∷ []

unfoldable dump : List (List Word)
unfolding bytes_of
dump = (bytes_of "0" ∷ bytes_of "read" ∷ []) ∷ (bytes_of "1" ∷ bytes_of "openat2" ∷ []) ∷ []

syscall_map-IsVocabulary_example : IsVocabulary (syscall_map known dump)
unfolding read_names note_name set_default is_digits is_empty digits_from put get known bytes_of
syscall_map-IsVocabulary_example = syscall_map-IsVocabulary known dump (omega arith, tt)
