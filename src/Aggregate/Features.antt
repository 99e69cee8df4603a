-- ===== src/Aggregate/Features.antt =====
-- aggregate.py, `bucket_features`: one row of numbers for the records of a bucket. A record is one that
-- extract.py writes. The numbers are kept as expressions, since they are computed in floats.
use e_bpf_based_kernel_ai_se.Prelude.{ℕ, suc, ◌+◌, List, [], ◌∷◌, ◌++◌, length, max, map, replicate}
use e_bpf_based_kernel_ai_se.Capture.{FileAccess}
use e_bpf_based_kernel_ai_se.Detector.Buckets.{add}
use e_bpf_based_kernel_ai_se.Extract.State.{Calls, full, slim, Rec}
use e_bpf_based_kernel_ai_se.Aggregate.Paths.{add_text}
use e_bpf_based_kernel_ai_se.Aggregate.Perm.{FileSystem, Lookup}
use e_bpf_based_kernel_ai_se.Aggregate.Files.{Tally, no_files, note_files, dir_counts}

-- A value of a row: `np.log1p(n)`, the quotient `a / b`, or `float(n)`.
pub data Value : Type 0 where
  log1p : ℕ → Value
  ratio : ℕ → ℕ → Value
  whole : ℕ → Value

-- The sums of the first loop.
pub record Totals : Type 0 where
  pub tgids : List ℕ
  pub comms : List (List ℕ)
  pub seq_total : ℕ
  pub uniq_sys : List ℕ
  pub n_uniq_sum : ℕ
  pub files : List FileAccess
  pub nets : ℕ
  pub nexec : ℕ

abbrev pub no_totals : Totals
no_totals = record {
  tgids = [];
  comms = [];
  seq_total = 0;
  uniq_sys = [];
  n_uniq_sum = 0;
  files = [];
  nets = 0;
  nexec = 0;
}

-- `uniq_sys.update(sq)`
unfoldable pub add_all : List ℕ → List ℕ → List ℕ
unfolding add
add_all [] found = found
add_all (n ∷ ns) found = add_all ns (add n found)

-- A record has its system calls, or only their statistics.
unfoldable pub note_calls : Calls → Totals → Totals
unfolding add_all
note_calls (slim n u) t = record t { seq_total = t.seq_total + n; n_uniq_sum = t.n_uniq_sum + u }
note_calls (full sq) t = record t {
  seq_total = t.seq_total + length sq;
  uniq_sys = add_all sq t.uniq_sys;
}

unfoldable pub note_record : Rec → Totals → Totals
unfolding note_calls add add_text
note_record r t =
    let t' = note_calls r.calls t in
    record t' {
      tgids = add r.key.tgid t'.tgids;
      comms = add_text r.meta.comm t'.comms;
      files = t'.files ++ r.files;
      nets = t'.nets + length r.net;
      nexec = t'.nexec + length r.execs;
    }

unfoldable pub note_records : List Rec → Totals → Totals
unfolding note_record
note_records [] t = t
note_records (r ∷ rs) t = note_records rs (note_record r t)

unfoldable pub sum : List ℕ → ℕ
sum [] = 0
sum (n ∷ ns) = n + sum ns

unfoldable pub max_of : List ℕ → ℕ
max_of [] = 0
max_of (n ∷ ns) = max n (max_of ns)

-- `np.mean(depths) if depths else 0`
unfoldable pub mean_of : List ℕ → Value
unfolding sum
mean_of [] = whole 0
mean_of (n ∷ ns) = ratio (sum (n ∷ ns)) (length (n ∷ ns))

-- `len(uniq_sys) if uniq_sys else n_uniq_sum`
unfoldable pub distinct_calls : List ℕ → ℕ → ℕ
distinct_calls [] n_uniq_sum = n_uniq_sum
distinct_calls (n ∷ ns) n_uniq_sum = length (n ∷ ns)

-- The row, in the order of `FEATURES`.
unfoldable pub row_of : ℕ → Totals → Tally → List ℕ → List Value
unfolding max_of mean_of distinct_calls
row_of nw t l dfrac =
    let nf = length t.files in
    let n_uniq = distinct_calls t.uniq_sys t.n_uniq_sum in
    let g = max nf 1 in
    log1p nw
    ∷ log1p (length t.tgids)
    ∷ log1p (length t.comms)
    ∷ log1p t.seq_total
    ∷ ratio n_uniq (max t.seq_total 1)
    ∷ log1p nf
    ∷ log1p (length l.uniq_paths)
    ∷ log1p (length l.dirs)
    ∷ ratio nf (max (length t.tgids) 1)
    ∷ ratio l.missing g
    ∷ ratio l.notwr g
    ∷ ratio l.other g
    ∷ ratio l.setuid g
    ∷ ratio l.hidden g
    ∷ ratio l.writes g
    ∷ log1p (length l.proc_pids)
    ∷ ratio (length l.proc_pids) (max (length l.uniq_paths) 1)
    ∷ whole (length l.sens_dirs)
    ∷ whole (max_of l.depths)
    ∷ mean_of l.depths
    ∷ log1p t.nets
    ∷ log1p t.nets
    ∷ log1p t.nexec
    ∷ ratio t.nexec (max (length t.tgids) 1)
    ∷ log1p n_uniq
    ∷ map (λ x. ratio x g) dfrac

-- On the first record and the others; the lookup of permissions is shared by all buckets.
unfoldable pub bucket_features : FileSystem → Rec → List Rec → Lookup → Lookup × List Value
unfolding note_records row_of note_files dir_counts
bucket_features fs first others l =
    let t = note_records (first ∷ others) no_totals in
    let (l', tally) = note_files fs first.meta.uid t.files l no_files in
    (l', row_of (suc (length others)) t tally (dir_counts t.files (replicate 6 0)))
