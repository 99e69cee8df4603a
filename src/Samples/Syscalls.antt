-- ===== src/Samples/Syscalls.antt =====
-- generate-handoff-samples.py, `syscall_record`, against the decoder.
use e_bpf_based_kernel_ai_se.Prelude.{ℕ, ◌<◌, ◌^◌, ◌-◌, ◌≡◌, refl, ap, ◌∙◌, List, [], arith, suc}
use e_bpf_based_kernel_ai_se.Bytes.{
  little, u16, u32, u64, little_endian, little-little_endian, bytes_of, until_nul,
}
use e_bpf_based_kernel_ai_se.Decoder.Event.{
  ℤ, pos, negsuc, Common, syscall_entered, syscall_left, decoded, decode_event, signed, common_of,
  body_of, decode_sized, expected_size,
}
use e_bpf_based_kernel_ai_se.Samples.Struct.{
  Made, made, map_made, two_complement, field_bytes, layout, Within, both_made,
}
use e_bpf_based_kernel_ai_se.Samples.Sizes.{header-Fits, task_start_fits}
use e_bpf_based_kernel_ai_se.Samples.Ranges.{SyscallFits, wider}
use e_bpf_based_kernel_ai_se.Samples.Records.{
  syscall_record, host_header, syscall_fields, common_fields, common, fixed_bytes, task_start,
  host_record,
}

-- A number in the range of a signed field of 4 or 8 bytes is read back.
signed-two_complement4 : (z : ℤ) → Within 2147483648 z → signed 4 0 (two_complement 4 z) ≡ z
unfolding signed two_complement little little_endian
signed-two_complement4 (pos v) h = rw (little-little_endian 4 v [] (omega arith)) (ground arith)
signed-two_complement4 (negsuc v) h =
    rw (little-little_endian 4 (4294967296 - suc v) [] (omega arith)) (ground arith)

signed-two_complement8 :
    (z : ℤ) → Within 9223372036854775808 z → signed 8 0 (two_complement 8 z) ≡ z
unfolding signed two_complement little little_endian
signed-two_complement8 (pos v) h = rw (little-little_endian 8 v [] (omega arith)) (ground arith)
signed-two_complement8 (negsuc v) h =
    rw (little-little_endian 8 (18446744073709551616 - suc v) [] (omega arith)) (ground arith)

-- The header of the record of a system call.
abbrev pub call_header : ℕ → ℕ → ℕ → ℕ → ℤ → Common
call_header kind ts pid ppid result = record {
  timestamp_ns = ts;
  cgroup_id = 4242;
  task_start_ns = task_start pid;
  pid = pid;
  tgid = pid;
  namespace_pid = pid;
  namespace_tgid = pid;
  ppid = ppid;
  uid = 1000;
  gid = 1000;
  cpu = 2;
  result = result;
  size = 376;
  flags = 0;
  schema_version = 1;
  kind = kind;
  comm = bytes_of "curl";
}

-- The two parts are packed without an error.
syscall_record-made :
    (kind ts pid ppid id : ℕ) (ret : ℤ)
    → SyscallFits kind ts pid ppid id ret
    → syscall_record kind ts pid ppid id ret
      ≡ host_record
          (layout (common_fields (host_header kind ts pid ppid ret 0 (bytes_of "curl"))))
          (layout (syscall_fields id ret))
unfolding syscall_record common
syscall_record-made kind ts pid ppid id ret r =
    both_made (common_fields (host_header kind ts pid ppid ret 0 (bytes_of "curl")))
      (syscall_fields id ret) host_record
      (header-Fits kind ts pid ppid 376 ret 0 (bytes_of "curl") r.0 (omega arith) r.2 (omega arith))
      (r.1, (omega arith, (wider ret r.2, tt)))

abbrev parts : ℕ → ℕ → ℕ → ℕ → ℕ → ℤ → Made (List ℕ)
parts kind ts pid ppid id ret =
    host_record (layout (common_fields (host_header kind ts pid ppid ret 0 (bytes_of "curl"))))
      (layout (syscall_fields id ret))

-- The bytes of the two parts are read back, by the sign of the return value.
entry-decoded :
    (ts pid ppid id : ℕ) (ret : ℤ)
    → ts < 256 ^ 8
    → pid < 256 ^ 4
    → ppid < 256 ^ 4
    → id < 256 ^ 4
    → Within 2147483648 ret
    → (map_made decode_event (parts 4 ts pid ppid id ret)
        ≡ made (
            decoded (record { common = call_header 4 ts pid ppid ret; body = syscall_entered id })))
      × (map_made decode_event (parts 5 ts pid ppid id ret)
          ≡ made (
              decoded
                (record { common = call_header 5 ts pid ppid ret; body = syscall_left id ret })))
unfolding decode_event little u16 u32 u64 little_endian bytes_of until_nul signed common_of body_of
    decode_sized expected_size fixed_bytes two_complement host_record layout field_bytes
entry-decoded ts pid ppid id (pos v) ht hp hq hi hr =
    rw
      (
        little-little_endian 8 ts [] ht,
        little-little_endian 4 pid [] hp,
        little-little_endian 4 ppid [] hq,
        little-little_endian 8 (task_start pid) [] (task_start_fits pid (omega arith)),
        little-little_endian 4 id [] hi,
        signed-two_complement4 (pos v) hr,
        signed-two_complement8 (pos v) (omega arith),
      )
      (refl, refl)
entry-decoded ts pid ppid id (negsuc v) ht hp hq hi hr =
    rw
      (
        little-little_endian 8 ts [] ht,
        little-little_endian 4 pid [] hp,
        little-little_endian 4 ppid [] hq,
        little-little_endian 8 (task_start pid) [] (task_start_fits pid (omega arith)),
        little-little_endian 4 id [] hi,
        signed-two_complement4 (negsuc v) hr,
        signed-two_complement8 (negsuc v) (omega arith),
      )
      (refl, refl)

-- A system call with a timestamp of 64 bits, ids of 32 bits and a return value in the range of a
-- signed 32-bit field goes through `syscall_record` and `decode_event` unchanged: the entry with its
-- number, the exit with its number and the return value.
pub syscall_record-decoded :
    (ts pid ppid id : ℕ) (ret : ℤ)
    → ts < 256 ^ 8
    → pid < 256 ^ 4
    → ppid < 256 ^ 4
    → id < 256 ^ 4
    → Within 2147483648 ret
    → (map_made decode_event (syscall_record 4 ts pid ppid id ret)
        ≡ made (
            decoded (record { common = call_header 4 ts pid ppid ret; body = syscall_entered id })))
      × (map_made decode_event (syscall_record 5 ts pid ppid id ret)
          ≡ made (
              decoded
                (record { common = call_header 5 ts pid ppid ret; body = syscall_left id ret })))
syscall_record-decoded ts pid ppid id ret ht hp hq hi hr =
    let d = entry-decoded ts pid ppid id ret ht hp hq hi hr in
    let h = λ (kind : ℕ) (k : kind < 65536).
      syscall_record-made kind ts pid ppid id ret ((ht, hp, hq, k), hi, hr) in
    (
      ap (map_made decode_event) (h 4 (omega arith)) ∙ d.0,
      ap (map_made decode_event) (h 5 (omega arith)) ∙ d.1,
    )
