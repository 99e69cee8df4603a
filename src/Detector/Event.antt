-- ===== src/Detector/Event.antt =====
-- detect2.py, the checks on a frame and on the event in it.
use e_bpf_based_kernel_ai_se.Prelude.{
  ℕ, List, Option, none, some, not, ◌&&◌, ◌||◌, if◌then◌else◌, leb, ltb, ◌==◌,
}
use e_bpf_based_kernel_ai_se.Bytes.{u16, u32, u64, slice}
use e_bpf_based_kernel_ai_se.Capture.{is_corrupt}

-- The messages of `sys.exit`, without the offset.
pub data Exit : Type 0 where
  corrupt_frame : Exit
  bad_frame_size : ℕ → Exit
  bad_schema : ℕ → Exit
  bad_declared_size : ℕ → ℕ → Exit
  bad_event_size : ℕ → ℕ → Exit
  truncated_frame : ℕ → Exit

-- On the 12 bytes of a frame header.
unfoldable pub check_frame : List ℕ → Option Exit
unfolding is_corrupt
check_frame h =
    let psize = u32 8 h in
    if is_corrupt h || not (u16 6 h == 0)
    then some corrupt_frame
    else if not (leb 88 psize && leb psize 376)
    then some (bad_frame_size psize)
    else none

-- `MIN_EVENT_SIZES.get(etype, MAX_EVENT_SIZE + 1)`
unfoldable pub min_event_size : ℕ → ℕ
min_event_size kind =
    if leb 1 kind && ltb kind 4
    then 360
    else if leb 4 kind && ltb kind 6
    then 104
    else if leb 6 kind && ltb kind 8
    then 376
    else if leb 8 kind && ltb kind 14
    then 200
    else if kind == 14
    then 128
    else 377

-- The fields of `EVENT_HEADER`.
pub record Header : Type 0 where
  pub ts : ℕ
  pub tgid : ℕ
  pub ppid : ℕ
  pub uid : ℕ
  pub declared_size : ℕ
  pub schema : ℕ
  pub etype : ℕ
  pub comm_raw : List ℕ

unfoldable pub header_of : List ℕ → Header
header_of ev = record {
  ts = u64 0 ev;
  tgid = u32 28 ev;
  ppid = u32 40 ev;
  uid = u32 44 ev;
  declared_size = u32 60 ev;
  schema = u16 68 ev;
  etype = u16 70 ev;
  comm_raw = slice 72 16 ev;
}

unfoldable pub check_event : ℕ → Header → Option Exit
unfolding min_event_size
check_event psize h =
    if not (h.schema == 1)
    then some (bad_schema h.schema)
    else if not (h.declared_size == psize)
    then some (bad_declared_size h.declared_size psize)
    else if ltb psize (min_event_size h.etype)
    then some (bad_event_size h.etype psize)
    else none
