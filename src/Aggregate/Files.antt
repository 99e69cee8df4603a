-- ===== src/Aggregate/Files.antt =====
-- aggregate.py, `bucket_features`: the loops over the file accesses of a bucket.
use e_bpf_based_kernel_ai_se.Prelude.{
  ℕ, Option, none, some, zero, suc, List, [], ◌∷◌, ◌++◌, Bool, false, ◌&&◌, not, if◌then◌else◌,
  ◌==◌, ltb, length, bit_and, take,
}
use e_bpf_based_kernel_ai_se.Bytes.{bytes_of, same_bytes}
use e_bpf_based_kernel_ai_se.Capture.{FileAccess}
use e_bpf_based_kernel_ai_se.Decoder.Event.{ℤ, pos, negsuc}
use e_bpf_based_kernel_ai_se.Aggregate.Paths.{
  split, nonempty, join, is_digits, all_but_last, is_hidden, dir_index, is_sensitive, add_text,
}
use e_bpf_based_kernel_ai_se.Aggregate.Perm.{Perm, FileSystem, Lookup, lookup}

unfoldable pub same_int : ℤ → ℤ → Bool
same_int (pos a) (pos b) = a == b
same_int (negsuc a) (negsuc b) = a == b
same_int (pos a) (negsuc b) = false
same_int (negsuc a) (pos b) = false

-- The counters and the sets of the loop.
pub record Tally : Type 0 where
  pub missing : ℕ
  pub notwr : ℕ
  pub other : ℕ
  pub setuid : ℕ
  pub hidden : ℕ
  pub writes : ℕ
  pub uniq_paths : List (List ℕ)
  pub dirs : List (List ℕ)
  pub depths : List ℕ
  pub proc_pids : List (List ℕ)
  pub sens_dirs : List (List ℕ)

abbrev pub no_files : Tally
no_files = record {
  missing = 0;
  notwr = 0;
  other = 0;
  setuid = 0;
  hidden = 0;
  writes = 0;
  uniq_paths = [];
  dirs = [];
  depths = [];
  proc_pids = [];
  sens_dirs = [];
}

abbrev pub count_if : Bool → ℕ → ℕ
count_if b n = if b then suc n else n

-- 4 is S_IROTH and 2048 S_ISUID.
unfoldable pub note_perm : ℤ → Perm → Tally → Tally
unfolding same_int
note_perm uid0 v t = if not v.does_exist then record t { missing = suc t.missing } else record t {
  notwr = count_if (bit_and v.mode 4 == 0) t.notwr;
  setuid = count_if (not (bit_and v.mode 2048 == 0)) t.setuid;
  other = count_if (not (same_int v.owner uid0)) t.other;
}

-- The pid of a path below `/proc/<pid>`.
unfoldable pub pid_of : List (List ℕ) → Option (List ℕ)
unfolding same_bytes bytes_of is_digits
pid_of (a ∷ b ∷ rest) = if same_bytes a (bytes_of "proc") && is_digits b then some b else none
pid_of parts = none

unfoldable pub add_pid : Option (List ℕ) → List (List ℕ) → List (List ℕ)
unfolding add_text
add_pid none found = found
add_pid (some x) found = add_text x found

unfoldable pub note_path : List ℕ → ℕ → Tally → Tally
unfolding add_pid pid_of add_text join all_but_last is_hidden is_sensitive split nonempty
note_path p m t =
    let parts = nonempty (split p) in
    record t {
      uniq_paths = add_text p t.uniq_paths;
      writes = count_if (not (bit_and m 2 == 0)) t.writes;
      depths = t.depths ++ length parts ∷ [];
      dirs = if ltb 1 (length parts) then add_text (join (all_but_last parts)) t.dirs else t.dirs;
      hidden = count_if (is_hidden parts) t.hidden;
      proc_pids = add_pid (pid_of parts) t.proc_pids;
      sens_dirs =
          if is_sensitive p
          then add_text (if ltb 1 (length parts) then join (take 2 parts) else p) t.sens_dirs
          else t.sens_dirs;
    }

unfoldable pub note_files : FileSystem → ℤ → List FileAccess → Lookup → Tally → Lookup × Tally
unfolding note_perm note_path lookup
note_files fs uid0 [] l t = (l, t)
note_files fs uid0 (f ∷ more) l t =
    let (l', v) = lookup fs f.p l in
    note_files fs uid0 more l' (note_path f.p f.m (note_perm uid0 v t))

-- `dfrac[i] += 1`
unfoldable pub bump : ℕ → List ℕ → List ℕ
bump i [] = []
bump zero (n ∷ ns) = suc n ∷ ns
bump (suc i) (n ∷ ns) = n ∷ bump i ns

unfoldable pub dir_counts : List FileAccess → List ℕ → List ℕ
unfolding bump dir_index
dir_counts [] ns = ns
dir_counts (f ∷ more) ns = dir_counts more (bump (dir_index f.p) ns)
