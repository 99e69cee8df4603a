-- ===== src/Aggregate/Shape.antt =====
-- aggregate.py, `bucket_features`: the shape of a row.
use e_bpf_based_kernel_ai_se.Prelude.{
  ℕ, suc, ◌≤◌, ◌<◌, ◌≡◌, refl, ap, List, [], ◌∷◌, ◌++◌, length, arith, max, replicate, map, take,
  drop, All,
}
use e_bpf_based_kernel_ai_se.Extract.State.{Rec}
use e_bpf_based_kernel_ai_se.Aggregate.Perm.{FileSystem, Lookup}
use e_bpf_based_kernel_ai_se.Aggregate.Files.{Tally, no_files, note_files, dir_counts}
use e_bpf_based_kernel_ai_se.Aggregate.Features.{
  Value, log1p, ratio, whole, Totals, no_totals, note_records, sum, mean_of, row_of,
  bucket_features,
}
use e_bpf_based_kernel_ai_se.Aggregate.Tallies.{
  Within, tally-Within, dir_counts-length, dir_counts-total,
}

-- The value is no division by zero.
abbrev pub IsDefined : Value → Type 0
IsDefined (log1p n) = Unit
IsDefined (ratio a b) = 0 < b
IsDefined (whole n) = Unit

-- The value is a quotient between 0 and 1.
abbrev pub IsFraction : Value → Type 0
IsFraction (log1p n) = ⊥
IsFraction (ratio a b) = (0 < b) × (a ≤ b)
IsFraction (whole n) = ⊥

-- `frac_missing` to `frac_write`, `proc_pid_frac`, and `frac_dir_etc` to `frac_dir_other`.
unfoldable pub fractions : List Value → List Value
fractions row = take 6 (drop 9 row) ++ take 1 (drop 16 row) ++ drop 25 row

-- A row in the format of `FEATURES`.
pub record IsRow (row : List Value) : Type 0 where
  pub size : length row ≡ 31
  pub values : All IsDefined row
  pub parts : All IsFraction (fractions row)

mean_of-IsDefined : (ns : List ℕ) → IsDefined (mean_of ns)
unfolding mean_of
mean_of-IsDefined [] = tt
mean_of-IsDefined (n ∷ ns) = omega arith

quotients-IsDefined : (g : ℕ) (ns : List ℕ) → 0 < g → All IsDefined (map (λ x. ratio x g) ns)
quotients-IsDefined g [] h = tt
quotients-IsDefined g (n ∷ ns) h = (h, quotients-IsDefined g ns h)

quotients-IsFraction :
    (g : ℕ) (ns : List ℕ) → 0 < g → sum ns ≤ g → All IsFraction (map (λ x. ratio x g) ns)
unfolding sum
quotients-IsFraction g [] h l = tt
quotients-IsFraction g (n ∷ ns) h l = ((h, omega arith), quotients-IsFraction g ns h (omega arith))

quotients-length : (g : ℕ) (ns : List ℕ) → length (map (λ (x : ℕ). ratio x g) ns) ≡ length ns
quotients-length g [] = refl
quotients-length g (n ∷ ns) = ap suc (quotients-length g ns)

row_of-IsRow :
    (nw : ℕ) (t : Totals) (l : Tally) (dfrac : List ℕ)
    → Within (length t.files) l
    → length dfrac ≡ 6
    → sum dfrac ≡ length t.files
    → IsRow (row_of nw t l dfrac)
unfolding row_of fractions
row_of-IsRow nw t l dfrac w e s =
    let g = max (length t.files) 1 in
    let above : 0 < g = omega arith in
    record {
      size = omega (arith, e, quotients-length g dfrac);
      values = ground (arith, mean_of-IsDefined l.depths, quotients-IsDefined g dfrac above);
      parts = ground (
        arith,
        w.readable,
        w.owners,
        w.setuids,
        w.hiddens,
        w.writings,
        w.pids.1,
        quotients-IsFraction g dfrac above (omega arith),
      );
    }

-- For any records, whatever the file system says: a row has one value for each of the 31 names in
-- `FEATURES`, no value divides by zero, and every fraction lies between 0 and 1.
pub bucket_features-IsRow :
    (fs : FileSystem) (first : Rec) (others : List Rec) (l : Lookup)
    → IsRow (bucket_features fs first others l).1
unfolding bucket_features
bucket_features-IsRow fs first others l =
    let t = note_records (first ∷ others) no_totals in
    row_of-IsRow (suc (length others)) t (note_files fs first.meta.uid t.files l no_files).1
      (dir_counts t.files (replicate 6 0)) (tally-Within fs first.meta.uid t.files l)
      (dir_counts-length t.files (replicate 6 0)) (dir_counts-total t.files)
