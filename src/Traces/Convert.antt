-- ===== src/Traces/Convert.antt =====
-- bin2traces.py, `main`: the loop over the frames of a file, and the traces that it writes. The name
-- of a trace file is made of the name of the program, the key and the number.
use e_bpf_based_kernel_ai_se.Prelude.{
  ℕ, zero, suc, ◌+◌, List, [], ◌∷◌, ◌++◌, Option, none, some, Bool, ◌||◌, ◌&&◌, not, if◌then◌else◌,
  ltb, leb, ◌==◌, length, take, drop, get_or, ℕ_discrete,
}
use e_bpf_based_kernel_ai_se.Bytes.{u16, u32, u64, slice, until_nul, bytes_of}
use e_bpf_based_kernel_ai_se.Dict.{Dict, get, put}
use e_bpf_based_kernel_ai_se.Extract.State.{Key, key_discrete, list_at}

unfoldable pub name_discrete : Discrete (List ℕ)
name_discrete = hlevel ℕ_discrete

pub record Options : Type 0 where
  pub window : ℕ
  pub min_len : ℕ
  pub max_per_comm : ℕ
  pub number_map : ℕ → Option ℕ

pub record Trace : Type 0 where
  pub comm : List ℕ
  pub key : Key
  pub number : ℕ
  pub values : List ℕ

-- The sums that the `Counter` builds from the HEALTH frames.
pub record Health : Type 0 where
  pub writer_queue_dropped : ℕ
  pub writer_priority_dropped : ℕ
  pub kernel_ringbuf_lost : ℕ
  pub network_filtered : ℕ
  pub network_rate_limited : ℕ

pub record State : Type 0 where
  pub pending : Dict Key (List ℕ)
  pub comms : Dict Key (List ℕ)
  pub emitted : Dict (List ℕ) ℕ
  pub health : Health
  pub written : ℕ
  pub traces : List Trace

abbrev pub start : State
start = record {
  pending = [];
  comms = [];
  emitted = [];
  health = record {
    writer_queue_dropped = 0;
    writer_priority_dropped = 0;
    kernel_ringbuf_lost = 0;
    network_filtered = 0;
    network_rate_limited = 0;
  };
  written = 0;
  traces = [];
}

-- `emitted[comm]`
unfoldable pub emitted_of : List ℕ → Dict (List ℕ) ℕ → ℕ
emitted_of comm d = elim (get name_discrete comm d) [ none ↦ 0 | some n ↦ n ]

-- `comms[key]`, which is set before anything is pending.
unfoldable pub comm_of : Key → Dict Key (List ℕ) → List ℕ
comm_of k d = elim (get key_discrete k d) [ none ↦ [] | some c ↦ c ]

unfoldable pub write_trace : Key → List ℕ → List ℕ → State → State
unfolding emitted_of
write_trace k comm values s = record s {
  traces = s.traces ++ record { comm = comm; key = k; number = s.written; values = values } ∷ [];
  emitted = put name_discrete comm (suc (emitted_of comm s.emitted)) s.emitted;
  written = suc s.written;
}

unfoldable pub flush : Options → Key → State → State
unfolding write_trace emitted_of comm_of list_at
flush o k s =
    let values = list_at k s.pending in
    let comm = comm_of k s.comms in
    if ltb (length values) o.min_len || leb o.max_per_comm (emitted_of comm s.emitted)
    then s
    else write_trace k comm values s

-- The decoded name, or "unknown" where it is empty.
unfoldable pub or_unknown : List ℕ → List ℕ
unfolding bytes_of
or_unknown [] = bytes_of "unknown"
or_unknown (c ∷ cs) = c ∷ cs

unfoldable pub note_comm : Key → List ℕ → State → State
unfolding or_unknown
note_comm k payload s = elim (get key_discrete k s.comms) [
  | none ↦ record s {
    comms = put key_discrete k (or_unknown (until_nul (slice 72 16 payload))) s.comms;
  }
  | some c ↦ s
]

-- `pending[key].clear()`
unfoldable pub clear : Key → State → State
clear k s = record s { pending = put key_discrete k [] s.pending }

unfoldable pub note_call : Options → Key → List ℕ → Option ℕ → State → State
unfolding note_comm flush clear list_at
note_call o k payload none s = s
note_call o k payload (some fid) s =
    let t = note_comm k payload s in
    let values = list_at k t.pending ++ fid ∷ [] in
    let s' = record t { pending = put key_discrete k values t.pending } in
    if length values == o.window then clear k (flush o k s') else s'

unfoldable pub add_health : List ℕ → Health → Health
add_health p h = record {
  writer_queue_dropped = h.writer_queue_dropped + u64 88 p;
  writer_priority_dropped = h.writer_priority_dropped + u64 96 p;
  kernel_ringbuf_lost = h.kernel_ringbuf_lost + u64 104 p;
  network_filtered = h.network_filtered + u64 112 p;
  network_rate_limited = h.network_rate_limited + u64 120 p;
}

pub data Error : Type 0 where
  truncated_header : Error
  invalid_frame : Error
  truncated_payload : Error
  struct_error : Error
  lossy_capture : Error

-- The bytes that the `unpack_from` calls read: HEALTH_EVENT is 14 and SYSCALL_ENTER 4.
unfoldable pub reach : ℕ → ℕ
reach kind = if kind == 14 then 128 else if kind == 4 then 104 else 88

-- A payload that is long enough.
unfoldable pub convert : Options → List ℕ → State → State
unfolding add_health note_call
convert o p s =
    if u16 70 p == 14
    then record s { health = add_health p s.health }
    else if u16 70 p == 4
    then note_call o (record { tgid = u32 28 p; start = u64 16 p }) p (o.number_map (u32 88 p)) s
    else s

-- The next frame of the file.
pub data Next : Type 0 where
  at_end : Next
  bad : Error → Next
  payload : List ℕ → List ℕ → Next

abbrev is_wire_header : List ℕ → Bool
is_wire_header w =
    ((get_or w 0 0 == b'E')
      && ((get_or w 1 0 == b'B') && ((get_or w 2 0 == b'P') && (get_or w 3 0 == b'F'))))
    && ((get_or w 4 0 == 1) && ((get_or w 5 0 == 1) && (u16 6 w == 0)))

unfoldable pub next_frame : List ℕ → Next
next_frame stream =
    let header = take 12 stream in
    let size = u32 8 header in
    let p = take size (drop 12 stream) in
    if length header == 0
    then at_end
    else if not (length header == 12)
    then bad truncated_header
    else if not (is_wire_header header)
    then bad invalid_frame
    else if not (length p == size)
    then bad truncated_payload
    else if ltb size 88 || ltb size (reach (u16 70 p))
    then bad struct_error
    else payload p (drop size (drop 12 stream))

pub data Ending : Type 0 where
  done : Ending
  failed : Error → Ending
  stuck : Ending

unfoldable pub keys : Dict Key (List ℕ) → List Key
keys [] = []
keys ((k, values) ∷ d) = k ∷ keys d

unfoldable pub flush_all : Options → List Key → State → State
unfolding flush
flush_all o [] s = s
flush_all o (k ∷ ks) s = flush_all o ks (flush o k s)

unfoldable pub is_lossy : Health → Bool
is_lossy h = not ((h.writer_queue_dropped + h.writer_priority_dropped) + h.kernel_ringbuf_lost == 0)

unfoldable pub finish : Options → State → Ending × State
unfolding flush_all keys is_lossy
finish o s =
    let s' = flush_all o (keys s.pending) s in
    (if is_lossy s'.health then failed lossy_capture else done, s')

unfoldable pub after_next :
    Options → Next → State → (List ℕ → State → Ending × State) → Ending × State
unfolding finish convert
after_next o at_end s k = finish o s
after_next o (bad e) s k = (failed e, s)
after_next o (payload p rest) s k = k rest (convert o p s)

-- A frame takes its header from the file, so the number of bytes is fuel enough.
unfoldable pub convert_loop : Options → ℕ → List ℕ → State → Ending × State
unfolding after_next next_frame
convert_loop o zero stream s = (stuck, s)
convert_loop o (suc fuel) stream s =
    after_next o (next_frame stream) s (λ rest s'. convert_loop o fuel rest s')

unfoldable pub convert_file : Options → List ℕ → Ending × State
unfolding convert_loop
convert_file o stream = convert_loop o (suc (length stream)) stream start
