-- ===== src/Detector/Buckets.antt =====
-- detect2.py, how an accepted event enters its bucket.
use e_bpf_based_kernel_ai_se.Prelude.{
  ℕ, suc, ◌/◌, List, [], ◌∷◌, ◌++◌, Option, none, some, Bool, false, ◌||◌, if◌then◌else◌, ◌==◌,
  ℕ_discrete, take, max, min,
}
use e_bpf_based_kernel_ai_se.Bytes.{u32, until_nul, same_bytes}
use e_bpf_based_kernel_ai_se.Dict.{get, put}
use e_bpf_based_kernel_ai_se.Chunks.{Handled, handled, refused}
use e_bpf_based_kernel_ai_se.Capture.{file_access, connect, exec_name}
use e_bpf_based_kernel_ai_se.Detector.Event.{Exit, Header, header_of, check_event}
use e_bpf_based_kernel_ai_se.Detector.State.{Proc, Procs, Config, State}

abbrev fresh_proc : Proc
fresh_proc = record {
  tgid = 0;
  comm = b'?' ∷ [];
  last_comm = none;
  uid = 0;
  ppid = 0;
  files = [];
  net = [];
  execs = [];
  n_syscalls = 0;
  uniq = [];
}

unfoldable pub is_in : ℕ → List ℕ → Bool
is_in n [] = false
is_in n (m ∷ ms) = (m == n) || is_in n ms

-- `set.add`
unfoldable pub add : ℕ → List ℕ → List ℕ
unfolding is_in
add n ms = if is_in n ms then ms else ms ++ n ∷ []

unfoldable pub is_last_comm : List ℕ → Option (List ℕ) → Bool
is_last_comm raw none = false
is_last_comm raw (some last) = same_bytes raw last

-- The decoded name, or the old one where it is empty.
unfoldable pub named : List ℕ → List ℕ → List ℕ
named [] old = old
named (c ∷ cs) old = c ∷ cs

-- The fields that every event of the process brings.
unfoldable pub identify : Header → Proc → Proc
unfolding is_last_comm named
identify h r =
    let r' =
      if is_last_comm h.comm_raw r.last_comm
      then r
      else record r { last_comm = some h.comm_raw; comm = named (until_nul h.comm_raw) r.comm } in
    record r' { uid = h.uid; ppid = h.ppid }

unfoldable pub count_syscall : Option ℕ → Proc → Proc
unfolding add
count_syscall none r = r
count_syscall (some fid) r = record r { n_syscalls = suc r.n_syscalls; uniq = add fid r.uniq }

-- SYSCALL_ENTER is 4, FILE_OPEN 6, PROCESS_EXEC 2 and NETWORK_CONNECT 8.
unfoldable pub collect : Config → ℕ → List ℕ → Proc → Proc
unfolding count_syscall
collect c etype ev r =
    if etype == 4
    then count_syscall (c.number_map (u32 88 ev)) r
    else if etype == 6
    then record r { files = r.files ++ file_access ev ∷ [] }
    else if etype == 2
    then record r { execs = r.execs ++ exec_name ev ∷ [] }
    else if etype == 8
    then record r { net = r.net ++ connect ev ∷ [] }
    else r

-- The bucket, or the empty one that `defaultdict` makes.
unfoldable pub procs_of : Option Procs → Procs
procs_of none = []
procs_of (some procs) = procs

unfoldable pub proc_of : Option Proc → Proc
proc_of none = fresh_proc
proc_of (some r) = r

unfoldable pub widen : ℕ → Option (ℕ × ℕ) → ℕ × ℕ
widen ts none = (ts, ts)
widen ts (some (lo, hi)) = (min ts lo, max ts hi)

unfoldable pub note_bounds : Config → ℕ → ℕ → State → State
unfolding widen
note_bounds c b ts s =
    if c.diagnoses
    then record s { bounds = put ℕ_discrete b (widen ts (get ℕ_discrete b s.bounds)) s.bounds }
    else s

unfoldable pub update_proc : Config → Header → List ℕ → Procs → Procs
unfolding proc_of identify collect
update_proc c h ev procs =
    put ℕ_discrete h.tgid
      (collect c h.etype ev (identify h (proc_of (get ℕ_discrete h.tgid procs)))) procs

-- An event that is no HEALTH event.
unfoldable pub note_event : Config → Header → List ℕ → State → State
unfolding note_bounds procs_of update_proc add
note_event c h ev s =
    let b = h.ts / c.bucket_ns in
    let s' = note_bounds c b h.ts (record s { last_ts = max s.last_ts h.ts }) in
    record s' {
      seen_in_chunk = add b s'.seen_in_chunk;
      buckets =
          put ℕ_discrete b (update_proc c h ev (procs_of (get ℕ_discrete b s'.buckets))) s'.buckets;
    }

unfoldable pub handle_checked : Config → Header → List ℕ → Option Exit → State → Handled Exit State
unfolding note_event
handle_checked c h ev (some e) s = refused e s
handle_checked c h ev none s = if h.etype == 14 then handled s else handled (note_event c h ev s)

-- The body of the frame loop on the bytes from the payload on.
unfoldable pub handle_event : Config → ℕ → List ℕ → State → Handled Exit State
unfolding handle_checked check_event header_of
handle_event c psize rest s =
    let ev = take psize rest in
    let h = header_of ev in handle_checked c h ev (check_event psize h) s
