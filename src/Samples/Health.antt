-- ===== src/Samples/Health.antt =====
-- generate-handoff-samples.py, `health_record`, against the decoder.
use e_bpf_based_kernel_ai_se.Prelude.{ℕ, ◌<◌, ◌^◌, ◌≡◌, refl, ap, ◌∙◌, [], arith}
use e_bpf_based_kernel_ai_se.Bytes.{
  little, u16, u32, u64, little_endian, little-little_endian, bytes_of, until_nul,
}
use e_bpf_based_kernel_ai_se.Decoder.Event.{
  Common, health, decoded, decode_event, pos, signed, common_of, body_of, decode_sized,
  expected_size,
}
use e_bpf_based_kernel_ai_se.Samples.Struct.{
  made, map_made, two_complement, field_bytes, layout, both_made,
}
use e_bpf_based_kernel_ai_se.Samples.Records.{
  health_record, health_header, health_fields, sized_record, common_fields, common, fixed_bytes,
  task_start,
}

-- The header of the agent's own records.
abbrev pub agent_header : ℕ → Common
agent_header ts = record {
  timestamp_ns = ts;
  cgroup_id = 0;
  task_start_ns = 9009000000;
  pid = 9000;
  tgid = 9000;
  namespace_pid = 9000;
  namespace_tgid = 9000;
  ppid = 1;
  uid = 65534;
  gid = 65534;
  cpu = 2;
  result = pos 0;
  size = 128;
  flags = 1024;
  schema_version = 1;
  kind = 14;
  comm = bytes_of "ebpf-agent";
}

-- The two parts are packed without an error.
health_record-made :
    (ts q p r f l : ℕ)
    → ts < 256 ^ 8
    → q < 256 ^ 8
    → p < 256 ^ 8
    → r < 256 ^ 8
    → f < 256 ^ 8
    → l < 256 ^ 8
    → health_record ts q p r f l
      ≡ sized_record 128
          (layout (common_fields (health_header ts)))
          (layout (health_fields q p r f l))
unfolding health_record common task_start
health_record-made ts q p r f l ht hq hp hr hf hl =
    both_made (common_fields (health_header ts)) (health_fields q p r f l) (sized_record 128)
      (
        ht,
        (
          omega arith,
          (
            omega arith,
            (
              omega arith,
              (
                omega arith,
                (
                  omega arith,
                  (
                    omega arith,
                    (
                      omega arith,
                      (
                        omega arith,
                        (
                          omega arith,
                          (
                            omega arith,
                            (
                              omega arith,
                              (omega arith, (omega arith, (omega arith, (omega arith, (tt, tt))))),
                            ),
                          ),
                        ),
                      ),
                    ),
                  ),
                ),
              ),
            ),
          ),
        ),
      )
      (hq, (hp, (hr, (hf, (hl, tt)))))

-- A timestamp and five counters that fit in 64 bits go through `health_record` and `decode_event`
-- unchanged, under the header of the agent.
pub health_record-decoded :
    (ts queue_dropped priority_dropped ringbuf_lost filtered rate_limited : ℕ)
    → ts < 256 ^ 8
    → queue_dropped < 256 ^ 8
    → priority_dropped < 256 ^ 8
    → ringbuf_lost < 256 ^ 8
    → filtered < 256 ^ 8
    → rate_limited < 256 ^ 8
    → map_made decode_event
        (health_record ts queue_dropped priority_dropped ringbuf_lost filtered rate_limited)
      ≡ made (
          decoded (record {
            common = agent_header ts;
            body = health queue_dropped priority_dropped ringbuf_lost filtered rate_limited;
          }))
unfolding decode_event little u16 u32 u64 little_endian bytes_of until_nul signed common_of body_of
    decode_sized expected_size fixed_bytes two_complement task_start sized_record layout field_bytes
health_record-decoded ts q p r f l ht hq hp hr hf hl =
    ap (map_made decode_event) (health_record-made ts q p r f l ht hq hp hr hf hl)
    ∙ rw
        (
          little-little_endian 8 ts [] ht,
          little-little_endian 8 q [] hq,
          little-little_endian 8 p [] hp,
          little-little_endian 8 r [] hr,
          little-little_endian 8 f [] hf,
          little-little_endian 8 l [] hl,
        )
        refl
