-- ===== src/Unlinks/Audit.antt =====
-- temporal_unlinks.py: the audit, and what `_times` and `temporal_features` require of it. The numbers of
-- an audit are integers.
use e_bpf_based_kernel_ai_se.Prelude.{
  ℕ, ◌+◌, ◌-◌, ◌*◌, ◌%◌, List, [], ◌∷◌, Option, none, some, Bool, true, false, not, ◌||◌,
  if◌then◌else◌, ◌==◌, ltb, any, map, length,
}
use e_bpf_based_kernel_ai_se.Decoder.Event.{ℤ, pos, negsuc}
use e_bpf_based_kernel_ai_se.Aggregate.Files.{same_int}

pub record Entry : Type 0 where
  pub bucket_ns : ℤ
  pub unlink_attempts : ℤ
  pub unique_directory_scopes : ℤ
  pub unknown_scope_attempts : ℤ

pub record Audit : Type 0 where
  pub buckets : List Entry
  pub dropped_outside_npz : ℤ
  pub npz_buckets : ℤ
  pub matched_unlink_attempts : ℤ
  pub recorded_file_unlink : ℤ

pub data Error : Type 0 where
  outside_npz : Error
  invalid_times : Error
  count_mismatch : Error
  invalid_count : Error
  scope_mismatch : Error
  too_many : Error
  sum_mismatch : Error
  incomplete : Error

unfoldable pub is_negative : ℤ → Bool
is_negative (pos n) = false
is_negative (negsuc n) = true

-- A number that was found not to be negative.
unfoldable pub natural : ℤ → ℕ
natural (pos n) = n
natural (negsuc n) = 0

abbrev pub second : ℕ
second = 1000000000

-- The largest number of 64 bits with a sign.
abbrev pub int64_max : ℕ
int64_max = 9223372036854775807

-- `len(np.unique(values)) != len(values)`
unfoldable pub has_twice : List ℕ → Bool
has_twice [] = false
has_twice (t ∷ ts) = any (λ u. u == t) ts || has_twice ts

unfoldable pub bad_time : ℤ → Bool
unfolding is_negative natural
bad_time t =
    is_negative t || (not (natural t % second == 0) || ltb (int64_max - 60 * second) (natural t))

unfoldable pub bad_times : List ℤ → Bool
unfolding bad_time has_twice natural
bad_times [] = true
bad_times (t ∷ ts) = any bad_time (t ∷ ts) || has_twice (map natural (t ∷ ts))

unfoldable pub bad_count : Entry → Bool
unfolding is_negative
bad_count e =
    is_negative e.unlink_attempts
    || (is_negative e.unique_directory_scopes || is_negative e.unknown_scope_attempts)

unfoldable pub bad_scopes : Entry → Bool
unfolding natural
bad_scopes e =
    ltb (natural e.unlink_attempts)
      (natural e.unique_directory_scopes + natural e.unknown_scope_attempts)

-- The first complaint in the loop over the rows.
unfoldable pub entry_error : List Entry → Option Error
unfolding bad_count bad_scopes
entry_error [] = none
entry_error (e ∷ es) =
    let rest = entry_error es in
    if bad_count e then some invalid_count else if bad_scopes e then some scope_mismatch else rest

unfoldable pub total_of : List Entry → ℕ
unfolding natural
total_of [] = 0
total_of (e ∷ es) = natural e.unlink_attempts + total_of es

unfoldable pub total_error : Audit → Option Error
unfolding total_of same_int
total_error a =
    let total = total_of a.buckets in
    if ltb int64_max total
    then some too_many
    else if not (same_int (pos total) a.matched_unlink_attempts)
    then some sum_mismatch
    else if not (same_int a.matched_unlink_attempts a.recorded_file_unlink)
    then some incomplete
    else none

-- What `temporal_features` raises before it computes.
unfoldable pub audit_error : Audit → Option Error
unfolding bad_times entry_error total_error same_int
audit_error a =
    let es = a.buckets in
    if not (same_int a.dropped_outside_npz (pos 0))
    then some outside_npz
    else if bad_times (map (λ (e : Entry). e.bucket_ns) es)
    then some invalid_times
    else if not (same_int a.npz_buckets (pos (length es)))
    then some count_mismatch
    else elim (entry_error es) [ some e ↦ some e | none ↦ total_error a ]
