-- ===== src/Extract/Events.antt =====
-- extract.py, the loop over the frames of a capture, and the end of `main`.
use e_bpf_based_kernel_ai_se.Prelude.{
  ℕ, suc, List, [], ◌∷◌, ◌++◌, Option, none, some, Bool, true, false, length, if◌then◌else◌, ltb,
  leb, ◌==◌, ◌||◌, ◌&&◌, not,
}
use e_bpf_based_kernel_ai_se.Bytes.{u16, u32, u64}
use e_bpf_based_kernel_ai_se.Dict.{Dict, put}
use e_bpf_based_kernel_ai_se.Chunks.{Progress, more, stopped, Handled, handled, refused, feed}
use e_bpf_based_kernel_ai_se.Capture.{cstr, file_access, connect, exec_name, is_corrupt}
use e_bpf_based_kernel_ai_se.Decoder.Event.{pos}
use e_bpf_based_kernel_ai_se.Extract.State.{
  Key, key_discrete, Stratum, Options, Health, Rec, State, start, list_at,
}
use e_bpf_based_kernel_ai_se.Extract.Flush.{flush}

-- `struct.error` where a field lies beyond the buffer, and the exits of `main`.
pub data Exit : Type 0 where
  corrupt_frame : Exit
  short_buffer : Exit
  lossy_capture : Exit
  no_records : Exit

unfoldable pub check_frame : List ℕ → Option Exit
unfolding is_corrupt
check_frame h = if is_corrupt h then some corrupt_frame else none

-- `d[key].append(x)` on a `defaultdict`.
unfoldable pub append_at : {A : Type 0} → Key → A → Dict Key (List A) → Dict Key (List A)
unfolding list_at
append_at k x d = put key_discrete k (list_at k d ++ x ∷ []) d

unfoldable pub key_of : List ℕ → Key
key_of ev = record { tgid = u32 28 ev; start = u64 16 ev }

unfoldable pub note_meta : Key → List ℕ → State → State
unfolding cstr
note_meta k ev s = record s {
  meta =
      put key_discrete k
        (record { comm = cstr ev 72 16; uid = pos (u32 44 ev); ppid = pos (u32 40 ev) }) s.meta;
}

unfoldable pub note_call : Options → Key → Option ℕ → State → State
unfolding append_at flush
note_call o k none s = record s { unknown = suc s.unknown }
note_call o k (some fid) s =
    let s' = record s { total_sys = suc s.total_sys; sysq = append_at k fid s.sysq } in
    if leb o.window (length (list_at k s'.sysq)) then flush o false k s' else s'

-- The bytes up to which the fields of a kind reach; the paths are slices, which stop at the end.
unfoldable pub reach : ℕ → ℕ
reach etype =
    if etype == 4
    then 92
    else if etype == 6
    then 116
    else if etype == 8
    then 160
    else if etype == 14
    then 128
    else 72

unfoldable pub health_of : List ℕ → Health
health_of ev = record {
  writer_queue_dropped = u64 88 ev;
  writer_priority_dropped = u64 96 ev;
  kernel_ringbuf_lost = u64 104 ev;
  network_filtered = u64 112 ev;
  network_rate_limited = u64 120 ev;
}

-- SYSCALL_ENTER is 4, PROCESS_EXEC 2, FILE_OPEN 6, NETWORK_CONNECT 8 and HEALTH_EVENT 14.
unfoldable pub note_event : Options → ℕ → List ℕ → State → State
unfolding note_meta note_call append_at key_of health_of
note_event o etype ev s =
    let k = key_of ev in
    let s' = note_meta k ev s in
    if etype == 4
    then note_call o k (o.number_map (u32 88 ev)) s'
    else if etype == 6
    then record s' { files = append_at k (file_access ev) s'.files }
    else if etype == 8
    then record s' { nets = append_at k (connect ev) s'.nets }
    else if etype == 2
    then record s' { execs = append_at k (exec_name ev) s'.execs }
    else if etype == 14
    then record s { health = some (health_of ev) }
    else s

-- The body of the loop on the bytes from the payload on. The size of the payload is not checked, so a
-- field of a short payload is read from what follows in the buffer.
unfoldable pub handle_event : Options → ℕ → List ℕ → State → Handled Exit State
unfolding note_event reach
handle_event o psize ev s =
    let s' = record s { frames = suc s.frames } in
    let etype = u16 70 ev in
    if ltb (length ev) 72 || ltb (length ev) (reach etype)
    then refused short_buffer s'
    else handled (note_event o etype ev s')

unfoldable pub queued : Dict Key (List ℕ) → List Key
queued [] = []
queued ((k, seq) ∷ d) = k ∷ queued d

unfoldable pub flush_all : Options → List Key → State → State
unfolding flush
flush_all o [] s = s
flush_all o (k ∷ ks) s = flush_all o ks (flush o true k s)

unfoldable pub is_lossy : Option Health → Bool
is_lossy none = false
is_lossy (some h) =
    not (h.writer_queue_dropped == 0)
    || (not (h.writer_priority_dropped == 0) || not (h.kernel_ringbuf_lost == 0))

-- The records in the output file. The strata are written in the order of their names there.
unfoldable pub stratum_records : Dict Stratum (List Rec) → List Rec
stratum_records [] = []
stratum_records ((u, rs) ∷ d) = rs ++ stratum_records d

unfoldable pub output : Options → State → List Rec
unfolding stratum_records
output o s =
    if o.is_slim
    then s.out
    else if not (o.max_per_unit == 0)
    then stratum_records s.strata
    else if not (o.max_records == 0)
    then s.reservoir
    else s.out

pub data Outcome : Type 0 where
  done : Outcome
  failed : Exit → Outcome

-- The end of the file: the windows that are long enough go out, and the checks on losses follow. A
-- rest of a frame is ignored.
unfoldable pub finish : Options → Bool → State → Outcome × State
unfolding flush_all queued is_lossy
finish o ignore_loss s =
    let s' = flush_all o (queued s.sysq) s in
    (
      if is_lossy s'.health && not ignore_loss
          then failed lossy_capture
          else if s'.written == 0
          then failed no_records
          else done,
      s',
    )

unfoldable pub after_capture : Options → Bool → Progress Exit State → Outcome × State
unfolding finish
after_capture o ignore_loss (stopped e s) = (failed e, s)
after_capture o ignore_loss (more s rest) = finish o ignore_loss s

unfoldable pub extract : Options → Bool → List (List ℕ) → Outcome × State
unfolding after_capture feed
extract o ignore_loss chunks =
    after_capture o ignore_loss (feed check_frame (handle_event o) chunks [] start)
