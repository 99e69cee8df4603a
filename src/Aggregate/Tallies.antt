-- ===== src/Aggregate/Tallies.antt =====
-- aggregate.py, `bucket_features`: the bounds of the counters that it divides.
use e_bpf_based_kernel_ai_se.Prelude.{
  ℕ, Bool, if◌then◌else◌, zero, suc, ◌+◌, ◌≤◌, ◌<◌, ◌≡◌, refl, ap, subst, ◌∙◌, List, [], ◌∷◌,
  length, arith, length-append, replicate,
}
use e_bpf_based_kernel_ai_se.Bytes.{bytes_of}
use e_bpf_based_kernel_ai_se.Capture.{FileAccess}
use e_bpf_based_kernel_ai_se.Decoder.Event.{ℤ}
use e_bpf_based_kernel_ai_se.Aggregate.Features.{sum}
use e_bpf_based_kernel_ai_se.Aggregate.Paths.{
  starts_with, split, nonempty, dir_index, join, all_but_last,
}
use e_bpf_based_kernel_ai_se.Aggregate.Perm.{Perm, FileSystem, Lookup, lookup}
use e_bpf_based_kernel_ai_se.Aggregate.Files.{
  Tally, no_files, same_int, note_perm, note_path, note_files, bump, dir_counts,
}
use e_bpf_based_kernel_ai_se.Aggregate.Pids.{Covered, add_text-length, add-Covered}

-- No counter is above `n`, the number of accesses so far.
pub record Within (n : ℕ) (t : Tally) : Type 0 where
  pub readable : t.missing + t.notwr ≤ n
  pub owners : t.missing + t.other ≤ n
  pub setuids : t.missing + t.setuid ≤ n
  pub hiddens : t.hidden ≤ n
  pub writings : t.writes ≤ n
  pub paths : length t.uniq_paths ≤ n
  pub folders : length t.dirs ≤ n
  pub levels : length t.depths ≡ n
  pub pids : Covered t.uniq_paths t.proc_pids

note_path-Within :
    (uid0 : ℤ) (v : Perm) (n : ℕ) (p : List ℕ) (m : ℕ) (t : Tally)
    → Within n t
    → Within (suc n) (note_path p m (note_perm uid0 v t))
unfolding note_perm note_path same_int
note_path-Within uid0 v n p m t h = record {
  readable = ground (arith, h.readable);
  owners = ground (arith, h.owners);
  setuids = ground (arith, h.setuids);
  hiddens = ground (arith, h.hiddens);
  writings = ground (arith, h.writings);
  paths = ground (arith, h.paths, add_text-length p t.uniq_paths);
  folders =
      ground (arith, h.folders, add_text-length (join (all_but_last (nonempty (split p)))) t.dirs);
  levels = ground (arith, h.levels, length-append t.depths (length (nonempty (split p)) ∷ []));
  pids = ground (arith, add-Covered p t.uniq_paths t.proc_pids h.pids);
}

note_files-Within :
    (fs : FileSystem) (uid0 : ℤ) (files : List FileAccess) (l : Lookup) (n : ℕ) (t : Tally)
    → Within n t
    → Within (n + length files) (note_files fs uid0 files l t).1
unfolding note_files
note_files-Within fs uid0 [] l n t h = subst (λ k. Within k t) (omega arith) h
note_files-Within fs uid0 (f ∷ more) l n t h =
    let (l', v) = lookup fs f.p l in
    subst (λ k. Within k (note_files fs uid0 (f ∷ more) l t).1) (omega arith)
      (note_files-Within fs uid0 more l' (suc n) (note_path f.p f.m (note_perm uid0 v t))
        (note_path-Within uid0 v n f.p f.m t h))

no_files-Within : Within 0 no_files
no_files-Within = record {
  readable = omega arith;
  owners = omega arith;
  setuids = omega arith;
  hiddens = omega arith;
  writings = omega arith;
  paths = omega arith;
  folders = omega arith;
  levels = refl;
  pids = (tt, omega arith);
}

bump-sum : (i : ℕ) (ns : List ℕ) → i < length ns → sum (bump i ns) ≡ suc (sum ns)
unfolding bump sum
bump-sum i [] h = absurd (omega arith)
bump-sum zero (n ∷ ns) h = omega arith
bump-sum (suc i) (n ∷ ns) h = omega (arith, bump-sum i ns (omega arith))

bump-length : (i : ℕ) (ns : List ℕ) → length (bump i ns) ≡ length ns
unfolding bump
bump-length i [] = refl
bump-length zero (n ∷ ns) = refl
bump-length (suc i) (n ∷ ns) = ap suc (bump-length i ns)

first_of_below :
    (a b c d e : Bool)
    → (if a then 0 else if b then 1 else if c then 2 else if d then 3 else if e then 4 else 5) < 6
first_of_below a b c d e = ground arith

dir_index_below : (p : List ℕ) → dir_index p < 6
unfolding dir_index
dir_index_below p =
    first_of_below (starts_with (bytes_of "/etc/") p) (starts_with (bytes_of "/proc/") p)
      (starts_with (bytes_of "/usr/") p) (starts_with (bytes_of "/dev/") p)
      (starts_with (bytes_of "/tmp/") p)

pub dir_counts-length :
    (files : List FileAccess) (ns : List ℕ) → length (dir_counts files ns) ≡ length ns
unfolding dir_counts
dir_counts-length [] ns = refl
dir_counts-length (f ∷ more) ns =
    dir_counts-length more (bump (dir_index f.p) ns) ∙ bump-length (dir_index f.p) ns

-- Every access counts for exactly one directory.
dir_counts-sum :
    (files : List FileAccess) (ns : List ℕ)
    → length ns ≡ 6
    → sum (dir_counts files ns) ≡ sum ns + length files
unfolding dir_counts
dir_counts-sum [] ns h = omega arith
dir_counts-sum (f ∷ more) ns h = omega (
  arith,
  dir_counts-sum more (bump (dir_index f.p) ns) (bump-length (dir_index f.p) ns ∙ h),
  bump-sum (dir_index f.p) ns (omega (arith, dir_index_below f.p)),
)

-- Over all accesses of a bucket.
pub tally-Within :
    (fs : FileSystem) (uid0 : ℤ) (files : List FileAccess) (l : Lookup)
    → Within (length files) (note_files fs uid0 files l no_files).1
tally-Within fs uid0 files l =
    subst (λ k. Within k (note_files fs uid0 files l no_files).1) (omega arith)
      (note_files-Within fs uid0 files l 0 no_files no_files-Within)

pub dir_counts-total :
    (files : List FileAccess) → sum (dir_counts files (replicate 6 0)) ≡ length files
unfolding sum
dir_counts-total files = omega (arith, dir_counts-sum files (replicate 6 0) refl)
