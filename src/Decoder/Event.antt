-- ===== src/Decoder/Event.antt =====
-- decode-events.py, `decode_event`: the checks on a payload and the fields of each kind. Texts are
-- the bytes before their NUL, and an address its bytes.
use e_bpf_based_kernel_ai_se.Prelude.{
  ℕ, ◌-◌, ◌*◌, ◌^◌, List, Option, none, some, Bool, not, ◌&&◌, if◌then◌else◌, leb, ltb, ◌==◌,
  length, drop, get_or, bit_and,
}
use e_bpf_based_kernel_ai_se.Bytes.{little, u16, u32, u64, slice, until_nul}
use e_bpf_based_kernel_ai_se.Behavior.Destination.{Address, v4, v6}

pub data ℤ : Type 0 where
  pos : ℕ → ℤ
  negsuc : ℕ → ℤ

-- Two's complement over `n` bytes.
unfoldable pub signed : ℕ → ℕ → List ℕ → ℤ
unfolding little
signed n off bs =
    let v = little n (drop off bs) in
    if ltb v (2 ^ (8 * n - 1)) then pos v else negsuc (2 ^ (8 * n) - v - 1)

-- What the names of the common fields hold.
pub record Common : Type 0 where
  pub timestamp_ns : ℕ
  pub cgroup_id : ℕ
  pub task_start_ns : ℕ
  pub pid : ℕ
  pub tgid : ℕ
  pub namespace_pid : ℕ
  pub namespace_tgid : ℕ
  pub ppid : ℕ
  pub uid : ℕ
  pub gid : ℕ
  pub cpu : ℕ
  pub result : ℤ
  pub size : ℕ
  pub flags : ℕ
  pub schema_version : ℕ
  pub kind : ℕ
  pub comm : List ℕ

-- `COMMON.unpack_from(payload)`
unfoldable pub common_of : List ℕ → Common
common_of p = record {
  timestamp_ns = u64 0 p;
  cgroup_id = u64 8 p;
  task_start_ns = u64 16 p;
  pid = u32 24 p;
  tgid = u32 28 p;
  namespace_pid = u32 32 p;
  namespace_tgid = u32 36 p;
  ppid = u32 40 p;
  uid = u32 44 p;
  gid = u32 48 p;
  cpu = u32 52 p;
  result = signed 4 56 p;
  size = u32 60 p;
  flags = u32 64 p;
  schema_version = u16 68 p;
  kind = u16 70 p;
  comm = until_nul (slice 72 16 p);
}

pub record Network : Type 0 where
  pub duration_ns : ℕ
  pub netns_id : ℕ
  pub netns_cookie : ℕ
  pub socket_cookie : ℕ
  pub retval : ℤ
  pub bytes_requested : ℕ
  pub sockfd : ℕ
  pub backlog : ℤ
  pub src_scope_id : ℕ
  pub dst_scope_id : ℕ
  pub family : ℕ
  pub socket_type : ℕ
  pub src_port : ℕ
  pub dst_port : ℕ
  pub old_state : ℕ
  pub new_state : ℕ
  pub protocol : ℕ
  pub src_ip : Option Address
  pub dst_ip : Option Address

-- The fields that `event.update` adds, by kind.
pub data Body : Type 0 where
  forked : (parent_pid child_pid : ℕ) (child_tgid child_task_start_ns : Option ℕ) → Body
  executed : (parent_pid child_pid : ℕ) (filename : List ℕ) → Body
  exited : (parent_pid child_pid : ℕ) (exit_code_raw : ℤ) → Body
  syscall_entered : (syscall_id : ℕ) → Body
  syscall_left : (syscall_id : ℕ) (return_value : ℤ) → Body
  file_hook : (inode directory_inode device open_flags mode operation : ℕ) (path : List ℕ) → Body
  network : Network → Body
  health :
      (writer_queue_dropped writer_priority_dropped kernel_ringbuf_lost network_filtered
        network_rate_limited : ℕ)
      → Body

pub record Event : Type 0 where
  pub common : Common
  pub body : Body

-- `UnsupportedEvent` for the first two, a plain `ValueError` for the others.
pub data Decoded : Type 0 where
  unsupported_schema : ℕ → Decoded
  unknown_kind : ℕ → Decoded
  short_payload : Decoded
  size_mismatch : Decoded
  invalid_size : ℕ → ℕ → Decoded
  decoded : Event → Decoded

-- `EVENT_SIZES.get(event_type)`
unfoldable pub expected_size : ℕ → Option ℕ
expected_size kind =
    if leb 1 kind && ltb kind 8
    then some 376
    else if leb 8 kind && ltb kind 14
    then some 200
    else if kind == 14
    then some 128
    else none

-- `ip_string`
unfoldable pub ip_string : ℕ → List ℕ → Bool → Option Address
ip_string family value valid =
    if not valid
    then none
    else if family == 2
    then some (v4 (slice 0 4 value))
    else if family == 10
    then some (v6 (slice 0 16 value))
    else none

abbrev pub has_flag : ℕ → ℕ → Bool
has_flag bit flags = not (bit_and flags bit == 0)

-- SOURCE_VALID is 32 and DEST_VALID is 16.
unfoldable pub network_of : ℕ → List ℕ → Network
unfolding ip_string
network_of flags p = record {
  duration_ns = u64 88 p;
  netns_id = u64 96 p;
  netns_cookie = u64 104 p;
  socket_cookie = u64 112 p;
  retval = signed 8 120 p;
  bytes_requested = u64 128 p;
  sockfd = u32 136 p;
  backlog = signed 4 140 p;
  src_scope_id = u32 144 p;
  dst_scope_id = u32 148 p;
  family = u16 152 p;
  socket_type = u16 154 p;
  src_port = u16 156 p;
  dst_port = u16 158 p;
  old_state = u16 160 p;
  new_state = u16 162 p;
  protocol = get_or p 164 0;
  src_ip = ip_string (u16 152 p) (slice 168 16 p) (has_flag 32 flags);
  dst_ip = ip_string (u16 152 p) (slice 184 16 p) (has_flag 16 flags);
}

-- FORK_CHILD_ID_VALID is 2048.
unfoldable pub body_of : ℕ → ℕ → List ℕ → Body
body_of kind flags p =
    if kind == 1
    then forked (u32 88 p) (u32 92 p) (if has_flag 2048 flags then some (u32 100 p) else none)
        (if has_flag 2048 flags then some (u64 104 p) else none)
    else if kind == 2
    then executed (u32 88 p) (u32 92 p) (until_nul (slice 104 256 p))
    else if kind == 3
    then exited (u32 88 p) (u32 92 p) (signed 4 96 p)
    else if kind == 4
    then syscall_entered (u32 88 p)
    else if kind == 5
    then syscall_left (u32 88 p) (signed 8 96 p)
    else if leb 6 kind && leb kind 7
    then file_hook (u64 88 p) (u64 96 p) (u32 104 p) (u32 108 p) (u32 112 p) (u32 116 p)
        (until_nul (slice 120 256 p))
    else if leb 8 kind && leb kind 13
    then network (network_of flags p)
    else health (u64 88 p) (u64 96 p) (u64 104 p) (u64 112 p) (u64 120 p)

-- The checks on the size, for a kind with the size `expected`.
unfoldable pub decode_sized : Option ℕ → Common → List ℕ → Decoded
decode_sized none c p = unknown_kind c.kind
decode_sized (some expected) c p =
    if not (c.size == length p)
    then size_mismatch
    else if not (length p == expected)
    then invalid_size c.kind (length p)
    else decoded (record { common = c; body = body_of c.kind c.flags p })

unfoldable pub decode_event : List ℕ → Decoded
unfolding expected_size decode_sized
decode_event p =
    let c = common_of p in
    if ltb (length p) 88
    then short_payload
    else if not (c.schema_version == 1)
    then unsupported_schema c.schema_version
    else decode_sized (expected_size c.kind) c p
