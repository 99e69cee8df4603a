-- ===== src/Extract/State.antt =====
-- extract.py, the options of the command line, the state of `main`, and the records that it writes.
use e_bpf_based_kernel_ai_se.Prelude.{
  ℕ, List, [], ◌∷◌, Option, none, some, Bool, String, ℕ_discrete, string_discrete, any, ◌==◌,
  if◌then◌else◌, suc,
}
use e_bpf_based_kernel_ai_se.Dict.{Dict, get}
use e_bpf_based_kernel_ai_se.Capture.{FileAccess, Connect}
use e_bpf_based_kernel_ai_se.Decoder.Event.{ℤ}
use e_bpf_based_kernel_ai_se.Extract.Label.{Span}

-- `(tgid, task_start)`
pub record Key : Type 0 where
  pub tgid : ℕ
  pub start : ℕ

unfoldable pub key_discrete : Discrete Key
key_discrete = hlevel ℕ_discrete

-- `(label, technique)`
pub record Stratum : Type 0 where
  pub label : String
  pub technique : String

unfoldable pub stratum_discrete : Discrete Stratum
stratum_discrete = hlevel string_discrete

-- `draw k n` is the k-th call of `rng.randrange(n)`.
pub record Options : Type 0 where
  pub window : ℕ
  pub min_len : ℕ
  pub label : String
  pub technique : String
  pub session : String
  pub max_records : ℕ
  pub max_per_unit : ℕ
  pub is_slim : Bool
  pub timeline : List Span
  pub number_map : ℕ → Option ℕ
  pub draw : ℕ → ℕ → ℕ

pub record Meta : Type 0 where
  pub comm : List ℕ
  pub uid : ℤ
  pub ppid : ℤ

-- The array of the system calls, or their number and the number of different ones.
pub data Calls : Type 0 where
  full : List ℕ → Calls
  slim : ℕ → ℕ → Calls

pub record Rec : Type 0 where
  pub stratum : Stratum
  pub session : String
  pub key : Key
  pub meta : Meta
  pub calls : Calls
  pub files : List FileAccess
  pub net : List Connect
  pub execs : List (List ℕ)

pub record Health : Type 0 where
  pub writer_queue_dropped : ℕ
  pub writer_priority_dropped : ℕ
  pub kernel_ringbuf_lost : ℕ
  pub network_filtered : ℕ
  pub network_rate_limited : ℕ

-- `out` holds the lines written so far.
pub record State : Type 0 where
  pub sysq : Dict Key (List ℕ)
  pub files : Dict Key (List FileAccess)
  pub nets : Dict Key (List Connect)
  pub execs : Dict Key (List (List ℕ))
  pub meta : Dict Key Meta
  pub written : ℕ
  pub total_sys : ℕ
  pub unknown : ℕ
  pub frames : ℕ
  pub health : Option Health
  pub out : List Rec
  pub strata : Dict Stratum (List Rec)
  pub seen_u : Dict Stratum ℕ
  pub reservoir : List Rec
  pub draws : ℕ

abbrev pub start : State
start = record {
  sysq = [];
  files = [];
  nets = [];
  execs = [];
  meta = [];
  written = 0;
  total_sys = 0;
  unknown = 0;
  frames = 0;
  health = none;
  out = [];
  strata = [];
  seen_u = [];
  reservoir = [];
  draws = 0;
}

-- `d.get(key, [])`
unfoldable pub list_at : {A : Type 0} → Key → Dict Key (List A) → List A
list_at k d = elim (get key_discrete k d) [ none ↦ [] | some xs ↦ xs ]

-- The size of `set(xs)`.
unfoldable pub distinct_count : List ℕ → ℕ
distinct_count [] = 0
distinct_count (x ∷ xs) =
    let rest = distinct_count xs in if any (λ y. y == x) xs then rest else suc rest
