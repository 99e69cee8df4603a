-- ===== src/Samples/Endpoints.antt =====
-- generate-handoff-samples.py, the records of processes and of connections. The parsing of an address by
-- `ipaddress` is outside: an address comes with its version and its packed bytes.
use Prim.Native.Nat.{bit_or}
use e_bpf_based_kernel_ai_se.Prelude.{
  ℕ, ◌+◌, ◌-◌, List, [], ◌∷◌, ◌++◌, Option, none, some, Bool, not, if◌then◌else◌, ◌==◌, length,
  replicate,
}
use e_bpf_based_kernel_ai_se.Behavior.Destination.{Address, v4, v6}
use e_bpf_based_kernel_ai_se.Decoder.Event.{ℤ, pos}
use e_bpf_based_kernel_ai_se.Samples.Records.{
  Fields, fixed_bytes, task_start, common, host_record, host_header, sized_record,
}
use e_bpf_based_kernel_ai_se.Samples.Struct.{
  Made, raised, value_error, and_then, Field, unsigned, signed, text, padding, pack,
}

-- An argument that may be left out.
abbrev pub or_default : Option ℕ → ℕ → ℕ
or_default none d = d
or_default (some n) d = n

abbrev pub process_fields : (parent child : ℕ) (exit_code : ℤ) (filename : List ℕ) → List Field
process_fields parent child exit_code filename =
    unsigned 4 parent
    ∷ unsigned 4 child
    ∷ signed 4 exit_code
    ∷ unsigned 4 0
    ∷ text 256 (fixed_bytes filename 256)
    ∷ []

-- `process_record`; PROCESS_FORK is 1 and PROCESS_EXIT is 3.
unfoldable pub process_record :
    (event_type ts pid ppid : ℕ) (comm filename : List ℕ) (exit_code : ℤ)
    (parent_pid child_pid : Option ℕ)
    → Made (List ℕ)
unfolding common pack task_start host_record fixed_bytes
process_record event_type ts pid ppid comm filename exit_code parent_pid child_pid =
    let result = if event_type == 3 then exit_code else pos 0 in
    let parent = or_default parent_pid (if event_type == 1 then pid else ppid) in
    and_then (common (host_header event_type ts pid ppid result 0 comm)) (λ header.
      and_then (pack (process_fields parent (or_default child_pid pid) exit_code filename))
        (host_record header))

abbrev pub padded : List ℕ → List ℕ
padded packed = packed ++ replicate (16 - length packed) 0

-- `address`
unfoldable pub address : Address → ℕ × List ℕ
address (v4 packed) = (2, padded packed)
address (v6 packed) = (10, padded packed)

-- The keyword arguments of `network_record`.
pub record Options : Type 0 where
  pub protocol : ℕ
  pub return_value : ℤ
  pub socket_type : ℕ
  pub bytes_requested : ℕ
  pub backlog : ℤ
  pub old_state : ℕ
  pub new_state : ℕ
  pub is_process_uncertain : Bool
  pub is_source_valid : Bool
  pub is_destination_valid : Bool
  pub socket_cookie : Option ℕ

-- SOCKET_VALID, COOKIE_VALID and NETNS_COOKIE_VALID are 64, 128 and 256; SOURCE_VALID is 32, DEST_VALID is
-- 16 and PROCESS_UNCERTAIN is 512.
unfoldable pub network_flags : Options → ℕ
network_flags o =
    let flags = bit_or (bit_or 64 128) 256 in
    let flags' = if o.is_source_valid then bit_or flags 32 else flags in
    let flags'' = if o.is_destination_valid then bit_or flags' 16 else flags' in
    if o.is_process_uncertain then bit_or flags'' 512 else flags''

abbrev pub network_fields :
    (pid family source_port destination_port : ℕ) (source destination : List ℕ)
    → Options
    → List Field
network_fields pid family source_port destination_port source destination o =
    unsigned 8 120000
    ∷ unsigned 8 4026531993
    ∷ unsigned 8 9001
    ∷ unsigned 8 (or_default o.socket_cookie (7000 + pid))
    ∷ signed 8 o.return_value
    ∷ unsigned 8 o.bytes_requested
    ∷ unsigned 4 5
    ∷ signed 4 o.backlog
    ∷ unsigned 4 0
    ∷ unsigned 4 0
    ∷ unsigned 2 family
    ∷ unsigned 2 o.socket_type
    ∷ unsigned 2 source_port
    ∷ unsigned 2 destination_port
    ∷ unsigned 2 o.old_state
    ∷ unsigned 2 o.new_state
    ∷ unsigned 1 o.protocol
    ∷ padding 3
    ∷ text 16 source
    ∷ text 16 destination
    ∷ []

abbrev pub network_header : (kind ts pid ppid : ℕ) (comm : List ℕ) → Options → Fields
network_header kind ts pid ppid comm o =
    record (host_header kind ts pid ppid o.return_value (network_flags o) comm) { size = 200 }

-- `network_record` on the addresses and ports.
unfoldable pub network_record :
    (event_type ts pid ppid : ℕ) (comm : List ℕ) (source_ip : Address) (source_port : ℕ)
    (destination_ip : Address) (destination_port : ℕ)
    → Options
    → Made (List ℕ)
unfolding common pack task_start address network_flags sized_record
network_record event_type ts pid ppid comm source_ip source_port destination_ip destination_port o =
    let (family, source) = address source_ip in
    let (destination_family, destination) = address destination_ip in
    let bytes = and_then (common (network_header event_type ts pid ppid comm o)) (λ header.
      and_then (pack (network_fields pid family source_port destination_port source destination o))
        (sized_record 200 header)) in
    if not (family == destination_family) then raised value_error else bytes
