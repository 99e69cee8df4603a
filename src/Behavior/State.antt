-- ===== src/Behavior/State.antt =====
-- behavior_memory.py, `BehaviorMemory`: the state of a replay, and the operations that every
-- handler shares (`__init__`, `clear`, `expire`, `drop_family`).
use e_bpf_based_kernel_ai_se.Prelude.{
  ℕ, suc, ◌+◌, [], ◌∷◌, Option, none, some, Bool, true, false, not, ◌&&◌, ite, if◌then◌else◌, leb,
  ltb, length, String, string_discrete, ℕ_discrete,
}
use e_bpf_based_kernel_ai_se.Dict.{Dict, keep, get, pop, put}

-- `(cgroup, pid)`: every supported task is a thread group leader, so the pid is also the tgid.
pub record Slot : Type 0 where
  pub cgroup : ℕ
  pub pid : ℕ

-- `(self.epoch, cgroup, pid, start)`: one generation of a pid within one capture.
pub record Identity : Type 0 where
  pub epoch : String
  pub cgroup : ℕ
  pub pid : ℕ
  pub start : ℕ

unfoldable pub slot_discrete : Discrete Slot
slot_discrete = hlevel ℕ_discrete

unfoldable pub identity_discrete : Discrete Identity
identity_discrete = hlevel (ℕ_discrete, string_discrete)

unfoldable pub root_discrete : Discrete (Option Identity)
root_discrete = hlevel (identity_discrete)

-- The list `[start, blocked, root, has_children]` of a tracked task. `ref` is the identity of the
-- list object, which `fork` compares by `is`.
pub record Task : Type 0 where
  pub ref : ℕ
  pub start : ℕ
  pub blocked : Bool
  pub root : Option Identity
  pub has_children : Bool

-- `(timestamp, source identity)`
pub record Precursor : Type 0 where
  pub ts : ℕ
  pub source : Identity

-- The loss counters of a HEALTH frame: all values but `network_filtered`.
pub record Loss : Type 0 where
  pub queue_dropped : ℕ
  pub priority_dropped : ℕ
  pub ringbuf_lost : ℕ
  pub rate_limited : ℕ

unfoldable pub loss_discrete : Discrete Loss
loss_discrete = hlevel ℕ_discrete

pub record Memory : Type 0 where
  pub ttl : ℕ
  pub max_tasks : ℕ
  pub epoch : String
  pub tasks : Dict Slot Task
  pub evidence : Dict Identity Precursor
  pub counts : Dict String ℕ
  pub last_ts : Option ℕ
  pub health : Option Loss
  -- the next unused object identity
  pub next_ref : ℕ

-- A `ValueError` with its reason code, or the value of the call.
pub data Result {ℓ} (A : Type ℓ) : Type ℓ where
  ok : A → Result A
  raise : String → Result A

-- `stream_epoch or str(uuid.uuid4())`: no epoch, or the empty one, is replaced.
unfoldable pub choose_epoch : Option String → String → String
choose_epoch none uuid = uuid
choose_epoch (some e) uuid = ite (string_discrete e "") uuid e

-- `__init__`. The float `retention_sec` comes as the outcome of its first test, which is that it is
-- positive and `retention_sec * 1e9` finite, and as `ttl`, that is `int(retention_sec * 1e9)`. The
-- uuid is drawn outside.
unfoldable pub init : Bool → ℕ → ℕ → Option String → String → Result Memory
init is_retention ttl max_tasks stream_epoch uuid =
    if not is_retention
    then raise "INVALID_RETENTION"
    else if ltb max_tasks 1
    then raise "INVALID_TASK_LIMIT"
    else if ltb ttl 1
    then raise "INVALID_RETENTION"
    else ok (record {
      ttl = ttl;
      max_tasks = max_tasks;
      epoch = choose_epoch stream_epoch uuid;
      tasks = [];
      evidence = [];
      counts = [];
      last_ts = none;
      health = none;
      next_ref = 0;
    })

-- `counts[k]`, which is 0 for a missing key.
unfoldable pub count : String → Dict String ℕ → ℕ
count k c = elim (get string_discrete k c) [ none ↦ 0 | some n ↦ n ]

-- `self.counts[k] += n`
unfoldable pub tally : String → ℕ → Dict String ℕ → Dict String ℕ
unfolding count
tally k n c = put string_discrete k (count k c + n) c

abbrev pub tallied : String → Memory → Memory
tallied k m = record m { counts = tally k 1 m.counts }

-- The new objects that `clear` builds for the tasks that it keeps.
unfoldable pub rebuild : ℕ → Dict Slot Task → Dict Slot Task
rebuild ref [] = []
rebuild ref ((s, v) ∷ d) =
    (s, record { ref = ref; start = v.start; blocked = true; root = none; has_children = false })
    ∷ rebuild (suc ref) d

unfoldable pub clear : String → Bool → Memory → Memory
clear reason keep_blocks m =
    let survivors = keep (λ _ v. keep_blocks && v.blocked) m.tasks in
    record m {
      counts = tally "reset_precursors_dropped" (length m.evidence) (tally reason 1 m.counts);
      evidence = [];
      tasks = rebuild m.next_ref survivors;
      next_ref = m.next_ref + length survivors;
    }

-- `ts - t >= ttl` over the integers is `t + ttl <= ts`.
unfoldable pub expire_loop :
    ℕ → ℕ → Dict Identity Precursor → Dict String ℕ → Dict Identity Precursor × Dict String ℕ
expire_loop ttl ts [] counts = ([], counts)
expire_loop ttl ts ((k, p) ∷ rest) counts =
    let next = expire_loop ttl ts rest (tally "retention_precursors_dropped" 1 counts) in
    if leb (p.ts + ttl) ts then next else ((k, p) ∷ rest, counts)

unfoldable pub expire : ℕ → Memory → Memory
expire ts m =
    let (evidence, counts) = expire_loop m.ttl ts m.evidence m.counts in
    record m { evidence = evidence; counts = counts }

-- `(self.epoch, *slot, state[0])`
abbrev pub identity_of : String → Slot → ℕ → Identity
identity_of epoch s start = record { epoch = epoch; cgroup = s.cgroup; pid = s.pid; start = start }

-- `state[2] == root or (self.epoch, *slot, state[0]) == root`
unfoldable pub in_family : String → Identity → Slot → Task → Bool
in_family epoch root s v =
    ite (root_discrete v.root (some root)) true
      (ite (identity_discrete (identity_of epoch s v.start) root) true false)

-- The number of items that `pop(root, None)` takes out.
unfoldable pub dropped : Identity → Dict Identity Precursor → ℕ
dropped root d = elim (get identity_discrete root d) [ none ↦ 0 | some _ ↦ 1 ]

-- The argument is the name `reason + "_precursors_dropped"` of the counter.
unfoldable pub drop_family : Identity → String → Memory → Memory
drop_family root counter m = record m {
  counts = tally counter (dropped root m.evidence) m.counts;
  evidence = pop identity_discrete root m.evidence;
  tasks = keep (λ s v. not (in_family m.epoch root s v)) m.tasks;
}
