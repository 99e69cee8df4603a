-- ===== src/Samples/Connections.antt =====
-- generate-handoff-samples.py, `network_record`: the arguments for which it is generated.
use e_bpf_based_kernel_ai_se.Prelude.{ℕ, ◌<◌}
use e_bpf_based_kernel_ai_se.Samples.Struct.{Within}
use e_bpf_based_kernel_ai_se.Samples.Endpoints.{Options, or_default}
use e_bpf_based_kernel_ai_se.Samples.Sizes.{HeaderFits}

-- The numbers of a connection.
abbrev pub NetworkFits : (kind ts pid ppid source_port destination_port : ℕ) → Options → Type 0
NetworkFits kind ts pid ppid source_port destination_port o =
    HeaderFits kind ts pid ppid
    × Within 2147483648 o.return_value
    × Within 2147483648 o.backlog
    × (o.bytes_requested < 18446744073709551616)
    × (or_default o.socket_cookie 0 < 18446744073709551616)
    × (o.socket_type < 65536)
    × (source_port < 65536)
    × (destination_port < 65536)
    × (o.old_state < 65536)
    × (o.new_state < 65536)
    × (o.protocol < 256)
