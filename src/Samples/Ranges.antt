-- ===== src/Samples/Ranges.antt =====
-- generate-handoff-samples.py: the ranges of the arguments for which each record is generated.
use e_bpf_based_kernel_ai_se.Prelude.{ℕ, ◌<◌, Option, arith}
use e_bpf_based_kernel_ai_se.Decoder.Event.{ℤ, pos, negsuc}
use e_bpf_based_kernel_ai_se.Samples.Struct.{Within}
use e_bpf_based_kernel_ai_se.Samples.Endpoints.{or_default}
use e_bpf_based_kernel_ai_se.Samples.Sizes.{HeaderFits}

abbrev pub ProcessFits : (kind ts pid ppid : ℕ) (code : ℤ) (parent child : Option ℕ) → Type 0
ProcessFits kind ts pid ppid code parent child =
    HeaderFits kind ts pid ppid
    × Within 2147483648 code
    × (or_default parent 0 < 4294967296)
    × (or_default child 0 < 4294967296)

abbrev pub SyscallFits : (kind ts pid ppid id : ℕ) (ret : ℤ) → Type 0
SyscallFits kind ts pid ppid id ret =
    HeaderFits kind ts pid ppid × (id < 4294967296) × Within 2147483648 ret

pub wider : (z : ℤ) → Within 2147483648 z → Within 9223372036854775808 z
wider (pos v) h = omega (arith, h)
wider (negsuc v) h = omega (arith, h)

abbrev pub FileFits : (kind ts pid ppid inode folder operation flags : ℕ) → Type 0
FileFits kind ts pid ppid inode folder operation flags =
    HeaderFits kind ts pid ppid
    × (inode < 18446744073709551616)
    × (folder < 18446744073709551616)
    × (operation < 4294967296)
    × (flags < 4294967296)
