-- ===== src/Samples/Records.antt =====
-- generate-handoff-samples.py, the records: the common header, `host_record` and the record of
-- some kinds. Texts are their UTF-8 bytes.
use e_bpf_based_kernel_ai_se.Prelude.{
  ℕ, ◌+◌, ◌-◌, ◌*◌, List, [], ◌∷◌, ◌++◌, not, if◌then◌else◌, leb, ltb, ◌==◌, length, take,
  replicate,
}
use e_bpf_based_kernel_ai_se.Bytes.{bytes_of}
use e_bpf_based_kernel_ai_se.Samples.Struct.{
  Made, made, raised, value_error, and_then, Field, unsigned, signed, text, pack,
}
use e_bpf_based_kernel_ai_se.Decoder.Event.{ℤ, pos}

-- `fixed_bytes`
unfoldable pub fixed_bytes : List ℕ → ℕ → List ℕ
fixed_bytes encoded size =
    let kept = if leb size (length encoded) then take (size - 1) encoded else encoded in
    kept ++ replicate (size - length kept) 0

unfoldable pub task_start : ℕ → ℕ
task_start pid = if pid == 0 then 0 else 9000000000 + pid * 1000

-- The arguments of `common`.
pub record Fields : Type 0 where
  pub timestamp_ns : ℕ
  pub event_type : ℕ
  pub size : ℕ
  pub pid : ℕ
  pub ppid : ℕ
  pub uid : ℕ
  pub cgroup_id : ℕ
  pub task_start_ns : ℕ
  pub result : ℤ
  pub flags : ℕ
  pub comm : List ℕ

abbrev pub common_fields : Fields → List Field
common_fields f =
    unsigned 8 f.timestamp_ns
    ∷ unsigned 8 f.cgroup_id
    ∷ unsigned 8 f.task_start_ns
    ∷ unsigned 4 f.pid
    ∷ unsigned 4 f.pid
    ∷ unsigned 4 f.pid
    ∷ unsigned 4 f.pid
    ∷ unsigned 4 f.ppid
    ∷ unsigned 4 f.uid
    ∷ unsigned 4 f.uid
    ∷ unsigned 4 2
    ∷ signed 4 f.result
    ∷ unsigned 4 f.size
    ∷ unsigned 4 f.flags
    ∷ unsigned 2 1
    ∷ unsigned 2 f.event_type
    ∷ text 16 (fixed_bytes f.comm 16)
    ∷ []

unfoldable pub common : Fields → Made (List ℕ)
unfolding pack fixed_bytes
common f = pack (common_fields f)

unfoldable pub host_record : List ℕ → List ℕ → Made (List ℕ)
host_record header payload =
    let bytes = header ++ payload in
    if ltb 376 (length bytes)
    then raised value_error
    else made (bytes ++ replicate (376 - length bytes) 0)

abbrev pub health_header : ℕ → Fields
health_header ts = record {
  timestamp_ns = ts;
  event_type = 14;
  size = 128;
  pid = 9000;
  ppid = 1;
  uid = 65534;
  cgroup_id = 0;
  task_start_ns = task_start 9000;
  result = pos 0;
  flags = 1024;
  comm = bytes_of "ebpf-agent";
}

-- The check of the size at the end of `health_record` and of `network_record`.
unfoldable pub sized_record : ℕ → List ℕ → List ℕ → Made (List ℕ)
sized_record n header payload =
    let bytes = header ++ payload in
    if not (length bytes == n) then raised value_error else made bytes

abbrev pub health_fields :
    (queue_dropped priority_dropped ringbuf_lost filtered rate_limited : ℕ) → List Field
health_fields queue_dropped priority_dropped ringbuf_lost filtered rate_limited =
    unsigned 8 queue_dropped
    ∷ unsigned 8 priority_dropped
    ∷ unsigned 8 ringbuf_lost
    ∷ unsigned 8 filtered
    ∷ unsigned 8 rate_limited
    ∷ []

-- `health_record`
unfoldable pub health_record : ℕ → ℕ → ℕ → ℕ → ℕ → ℕ → Made (List ℕ)
unfolding common pack task_start sized_record bytes_of
health_record ts queue_dropped priority_dropped ringbuf_lost filtered rate_limited =
    and_then (common (health_header ts)) (λ header.
      and_then
        (pack (health_fields queue_dropped priority_dropped ringbuf_lost filtered rate_limited))
        (sized_record 128 header))

-- The arguments of `common` for the records of 376 bytes.
abbrev pub host_header : (kind ts pid ppid : ℕ) (result : ℤ) (flags : ℕ) (comm : List ℕ) → Fields
host_header kind ts pid ppid result flags comm = record {
  timestamp_ns = ts;
  event_type = kind;
  size = 376;
  pid = pid;
  ppid = ppid;
  uid = 1000;
  cgroup_id = 4242;
  task_start_ns = task_start pid;
  result = result;
  flags = flags;
  comm = comm;
}

abbrev pub syscall_fields : ℕ → ℤ → List Field
syscall_fields syscall_id return_value =
    unsigned 4 syscall_id ∷ unsigned 4 0 ∷ signed 8 return_value ∷ []

-- `syscall_record`
unfoldable pub syscall_record : ℕ → ℕ → ℕ → ℕ → ℕ → ℤ → Made (List ℕ)
unfolding common pack task_start host_record bytes_of
syscall_record event_type ts pid ppid syscall_id return_value =
    and_then (common (host_header event_type ts pid ppid return_value 0 (bytes_of "curl")))
      (λ header. and_then (pack (syscall_fields syscall_id return_value)) (host_record header))

abbrev pub file_fields : (inode directory_inode operation : ℕ) (path : List ℕ) → List Field
file_fields inode directory_inode operation path =
    unsigned 8 inode
    ∷ unsigned 8 directory_inode
    ∷ unsigned 4 2049
    ∷ unsigned 4 0
    ∷ unsigned 4 0
    ∷ unsigned 4 operation
    ∷ text 256 (fixed_bytes path 256)
    ∷ []

-- `file_record`
unfoldable pub file_record : ℕ → ℕ → ℕ → ℕ → List ℕ → List ℕ → ℕ → ℕ → ℕ → ℕ → Made (List ℕ)
unfolding common pack task_start host_record fixed_bytes
file_record event_type ts pid ppid comm path inode directory_inode operation flags =
    and_then (common (host_header event_type ts pid ppid (pos 0) flags comm)) (λ header.
      and_then (pack (file_fields inode directory_inode operation path)) (host_record header))
