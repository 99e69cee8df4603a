-- ===== src/Traces/Tests.antt =====
-- The trace converter on a concrete file.
use e_bpf_based_kernel_ai_se.Prelude.{ℕ, ◌≢◌, List, ◌++◌, some, arith}
use e_bpf_based_kernel_ai_se.Capture.Calls.{call_frame}
use e_bpf_based_kernel_ai_se.Traces.Convert.{Options, convert_file, stuck}
use e_bpf_based_kernel_ai_se.Traces.Bounds.{Fair}
use e_bpf_based_kernel_ai_se.Traces.Runs.{convert_file-Fair, convert_file-ends}

-- Windows of two calls, one trace for each program.
unfoldable options : Options
options = record { window = 2; min_len = 1; max_per_comm = 1; number_map = λ nr. some nr }

unfoldable file : List ℕ
unfolding call_frame
file = call_frame 10 3 ++ call_frame 20 4 ++ call_frame 30 5

convert_file-Fair_example : Fair options (convert_file options file).1
unfolding options
convert_file-Fair_example = convert_file-Fair options file (omega arith)

convert_file-ends_example : (convert_file options file).0 ≢ stuck
convert_file-ends_example = convert_file-ends options file
