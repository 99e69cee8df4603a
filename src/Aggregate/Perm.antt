-- ===== src/Aggregate/Perm.antt =====
-- aggregate.py, `PermLookup`: the mode and the owner of a path, asked of the file system once.
use e_bpf_based_kernel_ai_se.Prelude.{
  ℕ, suc, List, Option, none, some, Bool, true, false, if◌then◌else◌, bit_and, ℕ_discrete, [], ◌∷◌,
}
use e_bpf_based_kernel_ai_se.Dict.{Dict, get, put}
use e_bpf_based_kernel_ai_se.Decoder.Event.{ℤ, pos, negsuc}
use e_bpf_based_kernel_ai_se.Aggregate.Paths.{is_proc_pid}

unfoldable pub path_discrete : Discrete (List ℕ)
path_discrete = hlevel ℕ_discrete

pub record Perm : Type 0 where
  pub mode : ℕ
  pub owner : ℤ
  pub does_exist : Bool

pub record Stat : Type 0 where
  pub st_mode : ℕ
  pub st_uid : ℕ

-- The file system: what the k-th call of `os.stat` says of a path, or that it raises `OSError`.
abbrev pub FileSystem : Type 0
FileSystem = ℕ → List ℕ → Option Stat

pub record Lookup : Type 0 where
  pub cache : Dict (List ℕ) Perm
  pub stats : ℕ

unfoldable pub perm_of : Option Stat → Perm
perm_of none = record { mode = 0; owner = negsuc 0; does_exist = false }
perm_of (some st) = record {
  mode = bit_and st.st_mode 4095;
  owner = pos st.st_uid;
  does_exist = true;
}

-- 0o444, root, there.
abbrev pub proc_perm : Perm
proc_perm = record { mode = 292; owner = pos 0; does_exist = true }

abbrev remembered : List ℕ → Perm → ℕ → Lookup → Lookup × Perm
remembered p v stats l = (record { cache = put path_discrete p v l.cache; stats = stats }, v)

unfoldable pub lookup_new : FileSystem → List ℕ → Lookup → Lookup × Perm
unfolding perm_of is_proc_pid
lookup_new fs p l =
    if is_proc_pid p
    then remembered p proc_perm l.stats l
    else remembered p (perm_of (fs l.stats p)) (suc l.stats) l

-- `PermLookup.get`
unfoldable pub lookup : FileSystem → List ℕ → Lookup → Lookup × Perm
unfolding lookup_new
lookup fs p l = elim (get path_discrete p l.cache) [ none ↦ lookup_new fs p l | some v ↦ (l, v) ]

-- The lookups of a list of paths, one after the other.
unfoldable pub lookup_all : FileSystem → List (List ℕ) → Lookup → Lookup
unfolding lookup
lookup_all fs [] l = l
lookup_all fs (p ∷ ps) l = lookup_all fs ps (lookup fs p l).0
