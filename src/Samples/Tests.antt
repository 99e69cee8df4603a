-- ===== src/Samples/Tests.antt =====
-- The theorems on the sample files at concrete records.
use e_bpf_based_kernel_ai_se.Prelude.{
  ℕ, ◌≡◌, refl, List, [], ◌∷◌, ◌++◌, replicate, arith, none, true, false,
}
use e_bpf_based_kernel_ai_se.Bytes.{little, u16, u32, u64, little_endian, bytes_of, until_nul}
use e_bpf_based_kernel_ai_se.Decoder.Event.{
  Event, health, decoded, decode_event, signed, common_of, body_of, decode_sized, expected_size,
}
use e_bpf_based_kernel_ai_se.Decoder.Frames.{finished, frames}
use e_bpf_based_kernel_ai_se.Samples.Records.{
  health_record, common, fixed_bytes, task_start, sized_record,
}
use e_bpf_based_kernel_ai_se.Samples.Framing.{binary, frames-binary}
use e_bpf_based_kernel_ai_se.Samples.Syscalls.{call_header, syscall_record-decoded}
use e_bpf_based_kernel_ai_se.Decoder.Event.{pos, negsuc, syscall_entered, syscall_left}
use e_bpf_based_kernel_ai_se.Samples.Records.{syscall_record}
use e_bpf_based_kernel_ai_se.Behavior.Destination.{Address, v4}
use e_bpf_based_kernel_ai_se.Samples.Endpoints.{Options, network_record, address, network_flags}
use e_bpf_based_kernel_ai_se.Samples.Struct.{
  made, raised, struct_error, map_made, pack, fits, layout, field_bytes, two_complement,
}
use e_bpf_based_kernel_ai_se.Samples.Connections.{NetworkFits}
use e_bpf_based_kernel_ai_se.Samples.Health.{agent_header, health_record-decoded}

-- A health record written out: the loss counters 1 to 5 at the time 7.
unfoldable sample : List ℕ
unfolding little_endian bytes_of
sample =
    little_endian 8 7
    ++ replicate 8 0
    ++ little_endian 8 9009000000
    ++ little_endian 4 9000
    ++ little_endian 4 9000
    ++ little_endian 4 9000
    ++ little_endian 4 9000
    ++ little_endian 4 1
    ++ little_endian 4 65534
    ++ little_endian 4 65534
    ++ little_endian 4 2
    ++ little_endian 4 0
    ++ little_endian 4 128
    ++ little_endian 4 1024
    ++ little_endian 2 1
    ++ little_endian 2 14
    ++ bytes_of "ebpf-agent"
    ++ replicate 6 0
    ++ little_endian 8 1
    ++ little_endian 8 2
    ++ little_endian 8 3
    ++ little_endian 8 4
    ++ little_endian 8 5

abbrev event : Event
event = record { common = agent_header 7; body = health 1 2 3 4 5 }

sample_lem : health_record 7 1 2 3 4 5 ≡ made sample
unfolding health_record little_endian bytes_of common pack fits layout field_bytes sized_record
    fixed_bytes two_complement task_start sample
sample_lem = refl

decoded_lem : decode_event sample ≡ decoded event
unfolding decode_event little u16 u32 u64 little_endian bytes_of until_nul signed common_of body_of
    decode_sized expected_size sample
decoded_lem = refl

frames-binary_example :
    frames (binary (sample ∷ sample ∷ [])) ≡ record { events = event ∷ event ∷ []; stop = finished }
frames-binary_example =
    frames-binary (sample ∷ sample ∷ []) (event ∷ event ∷ []) (decoded_lem, (decoded_lem, tt))

health_record-decoded_example :
    map_made decode_event (health_record 7 1 2 3 4 5) ≡ made (decoded event)
health_record-decoded_example =
    health_record-decoded 7 1 2 3 4 5 (omega arith) (omega arith) (omega arith) (omega arith)
      (omega arith) (omega arith)

-- A call that fails with -2.
syscall_record-decoded_example :
    (map_made decode_event (syscall_record 4 7 9 1 257 (negsuc 1))
      ≡ made (
          decoded (record { common = call_header 4 7 9 1 (negsuc 1); body = syscall_entered 257 })))
    × (map_made decode_event (syscall_record 5 7 9 1 257 (negsuc 1))
        ≡ made (
            decoded (record {
              common = call_header 5 7 9 1 (negsuc 1);
              body = syscall_left 257 (negsuc 1);
            })))
syscall_record-decoded_example =
    syscall_record-decoded 7 9 1 257 (negsuc 1) (omega arith) (omega arith) (omega arith)
      (omega arith) (omega arith)

-- An exec, an open and a connection, with a name that is too long for its field.
abbrev long_name : List ℕ
long_name = replicate 300 b'x'

abbrev options : Options
options = record {
  protocol = 6;
  return_value = negsuc 110;
  socket_type = 1;
  bytes_requested = 0;
  backlog = pos 0;
  old_state = 0;
  new_state = 0;
  is_process_uncertain = false;
  is_source_valid = true;
  is_destination_valid = true;
  socket_cookie = none;
}

abbrev home : Address
home = v4 (192 ∷ 0 ∷ 2 ∷ 10 ∷ [])

abbrev server : Address
server = v4 (203 ∷ 0 ∷ 113 ∷ 9 ∷ [])

numbers_fit : NetworkFits 8 7 9 1 40000 4444 options
numbers_fit = (
  (omega arith, omega arith, omega arith, omega arith),
  omega arith,
  omega arith,
  omega arith,
  omega arith,
  omega arith,
  omega arith,
  omega arith,
  omega arith,
  omega arith,
  omega arith,
)

-- A port of more than 16 bits is refused.
port_out_of_range :
    network_record 8 7 9 1 (bytes_of "sh") home 70000 server 4444 options ≡ raised struct_error
unfolding network_record common pack fits layout field_bytes address network_flags fixed_bytes
    two_complement task_start bytes_of
port_out_of_range = refl
