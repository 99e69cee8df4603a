-- ===== src/Behavior/Event.antt =====
-- behavior_memory.py: the header of an event, its length check, and what `observe` may return.
use e_bpf_based_kernel_ai_se.Prelude.{
  ℕ, List, Option, none, Bool, ◌&&◌, if◌then◌else◌, leb, ◌==◌, String,
}
use e_bpf_based_kernel_ai_se.Bytes.{u16, u32, u64}
use e_bpf_based_kernel_ai_se.Behavior.State.{Identity, Memory, Result, ok}

-- The fields of `HEADER` that `observe` reads.
pub record Header : Type 0 where
  pub ts : ℕ
  pub cgroup : ℕ
  pub start : ℕ
  pub pid : ℕ
  pub tgid : ℕ
  pub result : ℕ
  pub size : ℕ
  pub flags : ℕ
  pub schema : ℕ
  pub kind : ℕ

-- `HEADER.unpack_from(event)`. `result` is signed there; only whether it is 0 is used.
unfoldable pub header_of : List ℕ → Header
header_of event = record {
  ts = u64 0 event;
  cgroup = u64 8 event;
  start = u64 16 event;
  pid = u32 24 event;
  tgid = u32 28 event;
  result = u32 56 event;
  size = u32 60 event;
  flags = u32 64 event;
  schema = u16 68 event;
  kind = u16 70 event;
}

-- `SIZES.get(kind, 377)`
unfoldable pub min_size : ℕ → ℕ
min_size kind =
    if leb 1 kind && leb kind 3
    then 360
    else if leb 4 kind && leb kind 5
    then 104
    else if leb 6 kind && leb kind 7
    then 376
    else if leb 8 kind && leb kind 13
    then 200
    else if kind == 14
    then 128
    else 377

unfoldable pub is_well_formed : Header → ℕ → Bool
unfolding min_size
is_well_formed h len =
    (h.schema == 1) && (leb (min_size h.kind) len && (leb len 376 && (h.size == len)))

pub record Advisory : Type 0 where
  pub advisory_only : Bool
  pub scope : String
  pub coverage_confirmed : Bool
  pub reason_codes : List String
  pub identity : Identity
  pub precursor_identity : Identity
  pub root_identity : Identity
  pub precursor_ns : ℕ
  pub attempt_ns : ℕ
  pub episode : ℕ

abbrev pub Outcome : Type 0
Outcome = Memory × Result (Option Advisory)

-- The `return None` of `observe`.
abbrev pub quiet : Memory → Outcome
quiet m = (m, ok none)

-- The identity `(self.epoch, cgroup, pid, start)` of the event's task.
unfoldable pub key_of : Header → Memory → Identity
key_of h m = record { epoch = m.epoch; cgroup = h.cgroup; pid = h.pid; start = h.start }
