-- ===== src/Capture/Calls.antt =====
-- Frames of system calls, as test data for the programs that read a capture.
use e_bpf_based_kernel_ai_se.Prelude.{ℕ, List, ◌∷◌, ◌++◌, replicate}
use e_bpf_based_kernel_ai_se.Bytes.{little_endian, bytes_of}

-- The entry of the system call `nr` of the task 7 at the time `ts`.
unfoldable pub call_frame : ℕ → ℕ → List ℕ
unfolding little_endian bytes_of
call_frame ts nr =
    (b'E' ∷ b'B' ∷ b'P' ∷ b'F' ∷ 1 ∷ 1 ∷ 0 ∷ 0 ∷ little_endian 4 104)
    ++ little_endian 8 ts
    ++ replicate 8 0
    ++ little_endian 8 5
    ++ little_endian 4 7
    ++ little_endian 4 7
    ++ replicate 8 0
    ++ replicate 20 0
    ++ little_endian 4 104
    ++ replicate 4 0
    ++ little_endian 2 1
    ++ little_endian 2 4
    ++ bytes_of "sh"
    ++ replicate 14 0
    ++ little_endian 4 nr
    ++ replicate 12 0
