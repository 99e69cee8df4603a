-- ===== src/Detector/State.antt =====
-- detect2.py, the state of the detector and `finalize`, the judgement of one bucket.
use e_bpf_based_kernel_ai_se.Prelude.{
  ℕ, suc, ◌+◌, ◌*◌, List, [], ◌∷◌, ◌++◌, Option, none, some, Bool, false, not, ◌&&◌, ◌||◌,
  if◌then◌else◌, leb, length, ℕ_discrete, map, take,
}
use e_bpf_based_kernel_ai_se.Dict.{Dict, get, pop}
use e_bpf_based_kernel_ai_se.Capture.{FileAccess, Connect}
use e_bpf_based_kernel_ai_se.Bytes.{same_bytes}

-- What is collected of one process in one bucket. `uid` and `ppid` are set by each of its events.
pub record Proc : Type 0 where
  pub tgid : ℕ
  pub comm : List ℕ
  pub last_comm : Option (List ℕ)
  pub uid : ℕ
  pub ppid : ℕ
  pub files : List FileAccess
  pub net : List Connect
  pub execs : List (List ℕ)
  pub n_syscalls : ℕ
  pub uniq : List ℕ

abbrev pub Procs : Type 0
Procs = Dict ℕ Proc

-- The command line and the model. `judge k recs` says whether the k-th bucket reaches the threshold.
pub record Config : Type 0 where
  pub bucket_ns : ℕ
  pub grace_ns : ℕ
  pub number_map : ℕ → Option ℕ
  pub judge : ℕ → List Proc → Bool
  pub is_quiet : Bool
  pub explains : Bool
  pub diagnoses : Bool
  pub summary_only : Bool

-- A line of `processes` in the diagnostic log.
pub record ProcessLine : Type 0 where
  pub tgid : ℕ
  pub ppid : ℕ
  pub uid : ℕ
  pub comm : List ℕ
  pub n_syscalls : ℕ
  pub n_uniq_syscalls : ℕ
  pub n_files : ℕ
  pub n_exec : ℕ
  pub n_net : ℕ
  pub execs : List (List ℕ)
  pub paths : List (List ℕ)

-- The record of a bucket in the diagnostic log. `bounds` without a value stands for the `KeyError` of
-- `bucket_bounds.pop(b)`.
pub record Diagnosis : Type 0 where
  pub n_exec : ℕ
  pub n_net : ℕ
  pub bounds : Option (ℕ × ℕ)
  pub processes : Option (List ProcessLine)

-- What `finalize` makes of a bucket; it is printed if `is_printed`.
pub record Verdict : Type 0 where
  pub is_alert : Bool
  pub bucket : ℕ
  pub n_procs : ℕ
  pub n_syscalls : ℕ
  pub n_files : ℕ
  pub diagnosis : Option Diagnosis
  pub sample_paths : Option (List (List ℕ))
  pub is_printed : Bool

pub record State : Type 0 where
  pub buckets : Dict ℕ Procs
  pub verdicts : List Verdict
  pub n_alert : ℕ
  pub n_norm : ℕ
  pub last_ts : ℕ
  pub bounds : Dict ℕ (ℕ × ℕ)
  pub seen : Dict ℕ ℕ
  pub seen_in_chunk : List ℕ

abbrev pub start : State
start = record {
  buckets = [];
  verdicts = [];
  n_alert = 0;
  n_norm = 0;
  last_ts = 0;
  bounds = [];
  seen = [];
  seen_in_chunk = [];
}

unfoldable pub sum_of {ℓ} : {A : Type ℓ} → (A → ℕ) → List A → ℕ
sum_of f [] = 0
sum_of f (x ∷ xs) = f x + sum_of f xs

-- `for tg, r in procs.items()`: the records under their keys.
unfoldable pub records : Procs → List Proc
records [] = []
records ((tg, r) ∷ d) = record r { tgid = tg } ∷ records d

unfoldable pub is_among : List ℕ → List (List ℕ) → Bool
is_among p [] = false
is_among p (q ∷ qs) = same_bytes p q || is_among p qs

-- The loop that collects paths not seen before, and breaks when it has `k` of them.
unfoldable pub collect_paths : ℕ → List (List ℕ) → List (List ℕ) → List (List ℕ)
unfolding is_among
collect_paths k found [] = found
collect_paths k found (p ∷ ps) =
    let found' = if is_among p found then found else found ++ p ∷ [] in
    let rest = collect_paths k found' ps in if leb k (length found') then found' else rest

abbrev pub paths_of : Proc → List (List ℕ)
paths_of r = map (λ (f : FileAccess). f.p) r.files

unfoldable pub process_line : Proc → ProcessLine
unfolding collect_paths
process_line r = record {
  tgid = r.tgid;
  ppid = r.ppid;
  uid = r.uid;
  comm = r.comm;
  n_syscalls = r.n_syscalls;
  n_uniq_syscalls = length r.uniq;
  n_files = length r.files;
  n_exec = length r.execs;
  n_net = length r.net;
  execs = take 2 r.execs;
  paths = collect_paths 4 [] (paths_of r);
}

unfoldable pub all_paths : List Proc → List (List ℕ)
all_paths [] = []
all_paths (r ∷ rs) = paths_of r ++ all_paths rs

unfoldable pub diagnosis_of : Config → List Proc → Option (ℕ × ℕ) → Diagnosis
unfolding process_line sum_of
diagnosis_of c recs bounds = record {
  n_exec = sum_of (λ (r : Proc). length r.execs) recs;
  n_net = sum_of (λ (r : Proc). length r.net) recs;
  bounds = bounds;
  processes = if c.summary_only then none else some (map process_line recs);
}

unfoldable pub verdict_of : Config → ℕ → List Proc → Option (ℕ × ℕ) → Bool → Verdict
unfolding diagnosis_of all_paths collect_paths sum_of
verdict_of c b recs bounds hit = record {
  is_alert = hit;
  bucket = b * c.bucket_ns;
  n_procs = length recs;
  n_syscalls = sum_of (λ (r : Proc). r.n_syscalls) recs;
  n_files = sum_of (λ (r : Proc). length r.files) recs;
  diagnosis = if c.diagnoses then some (diagnosis_of c recs bounds) else none;
  sample_paths = if hit && c.explains then some (collect_paths 8 [] (all_paths recs)) else none;
  is_printed = hit || not c.is_quiet;
}

-- A bucket that is there and holds processes.
unfoldable pub judge_bucket : Config → ℕ → Procs → State → State
unfolding verdict_of records
judge_bucket c b procs s =
    let recs = records procs in
    let hit = c.judge (s.n_alert + s.n_norm) recs in
    record s {
      buckets = pop ℕ_discrete b s.buckets;
      verdicts = s.verdicts ++ verdict_of c b recs (get ℕ_discrete b s.bounds) hit ∷ [];
      n_alert = if hit then suc s.n_alert else s.n_alert;
      n_norm = if hit then s.n_norm else suc s.n_norm;
      bounds = if c.diagnoses then pop ℕ_discrete b s.bounds else s.bounds;
    }

unfoldable pub finalize_found : Config → ℕ → Option Procs → State → State
unfolding judge_bucket
finalize_found c b none s = s
finalize_found c b (some []) s = record s { buckets = pop ℕ_discrete b s.buckets }
finalize_found c b (some (p ∷ ps)) s = judge_bucket c b (p ∷ ps) s

unfoldable pub finalize : Config → ℕ → State → State
unfolding finalize_found
finalize c b s = finalize_found c b (get ℕ_discrete b s.buckets) s
