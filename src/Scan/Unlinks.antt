-- ===== src/Scan/Unlinks.antt =====
-- audit_unlink_buckets.py, `audit`: the unlink attempts of a capture in the buckets of a dataset. The
-- checks on the identity of the files and the decompression are outside: a capture comes as the chunks
-- that are read.
use e_bpf_based_kernel_ai_se.Prelude.{
  ℕ, suc, ◌+◌, ◌*◌, ◌/◌, List, [], ◌∷◌, ◌++◌, Option, none, some, Bool, not, ◌&&◌, ◌||◌,
  if◌then◌else◌, ◌==◌, leb, ltb, any, length, take, bit_and, ℕ_discrete,
}
use e_bpf_based_kernel_ai_se.Bytes.{u16, u32, u64}
use e_bpf_based_kernel_ai_se.Scan.Npz.{
  Error, NpzRow, count_mismatch, incomplete_frame, invalid_event, invalid_frame, invalid_operation,
  npz_error,
}
use e_bpf_based_kernel_ai_se.Dict.{Dict, get, put}
use e_bpf_based_kernel_ai_se.Dict.Sums.{total}
use e_bpf_based_kernel_ai_se.Capture.{is_corrupt}
use e_bpf_based_kernel_ai_se.Chunks.{Progress, more, stopped, Handled, handled, refused, feed}
use e_bpf_based_kernel_ai_se.Detector.Event.{Header, header_of, min_event_size}
use e_bpf_based_kernel_ai_se.Unlinks.Audit.{second, natural}

-- A directory, by its device and its inode.
pub record Scope : Type 0 where
  pub device : ℕ
  pub directory_inode : ℕ

unfoldable pub same_scope : Scope → Scope → Bool
same_scope a b = (a.device == b.device) && (a.directory_inode == b.directory_inode)

-- `set.add`
unfoldable pub add_scope : Scope → List Scope → List Scope
unfolding same_scope
add_scope x xs = if any (same_scope x) xs then xs else xs ++ x ∷ []

-- The entries of `attempts`, `unknown` and `scopes` for one bucket.
pub record Counts : Type 0 where
  pub attempts : ℕ
  pub unknown : ℕ
  pub scopes : List Scope

abbrev pub no_counts : Counts
no_counts = record { attempts = 0; unknown = 0; scopes = [] }

pub record State : Type 0 where
  pub rows : Dict ℕ Counts
  pub total : ℕ
  pub outside : ℕ
  pub outside_unknown : ℕ
  pub frames : ℕ
  pub inode_zero : ℕ
  pub partial_path : ℕ
  pub path_unavailable : ℕ
  pub path_truncated : ℕ

unfoldable pub empty_rows : List NpzRow → Dict ℕ Counts
unfolding natural
empty_rows [] = []
empty_rows (r ∷ rs) = (natural r.bucket_ns, no_counts) ∷ empty_rows rs

unfoldable pub start : List NpzRow → State
unfolding empty_rows
start rows = record {
  rows = empty_rows rows;
  total = 0;
  outside = 0;
  outside_unknown = 0;
  frames = 0;
  inode_zero = 0;
  partial_path = 0;
  path_unavailable = 0;
  path_truncated = 0;
}

unfoldable pub check_frame : List ℕ → Option Error
unfolding is_corrupt
check_frame h =
    let size = u32 8 h in
    if (is_corrupt h || not (u16 6 h == 0)) || not (leb 88 size && leb size 376)
    then some invalid_frame
    else none

unfoldable pub bad_event : ℕ → Header → Bool
unfolding min_event_size
bad_event size h =
    not (h.schema == 1) || (not (h.declared_size == size) || ltb size (min_event_size h.etype))

abbrev pub count_if : Bool → ℕ → ℕ
count_if b n = if b then suc n else n

-- One more attempt in a bucket, in a directory that may be unknown.
unfoldable pub note_attempt : Scope → Counts → Counts
unfolding add_scope
note_attempt x c =
    let missing = (x.device == 0) || (x.directory_inode == 0) in
    record {
      attempts = suc c.attempts;
      unknown = count_if missing c.unknown;
      scopes = if missing then c.scopes else add_scope x c.scopes;
    }

-- The row of the event, or the counters of the events outside of all rows.
unfoldable pub note_scope : ℕ → Scope → State → State
unfolding note_attempt
note_scope bucket x s = elim (get ℕ_discrete bucket s.rows) [
  | none ↦ record s {
    outside = suc s.outside;
    outside_unknown =
        if (x.device == 0) || (x.directory_inode == 0)
        then suc s.outside_unknown
        else s.outside_unknown;
  }
  | some c ↦ record s { rows = put ℕ_discrete bucket (note_attempt x c) s.rows }
]

-- The counters of a FILE_UNLINK event that do not depend on its bucket.
unfoldable pub note_flags : List ℕ → State → State
note_flags ev s =
    let flags = u32 64 ev in
    record s {
      total = suc s.total;
      inode_zero = count_if (u64 88 ev == 0) s.inode_zero;
      partial_path = count_if (not (bit_and flags 4 == 0)) s.partial_path;
      path_unavailable = count_if (not (bit_and flags 1 == 0)) s.path_unavailable;
      path_truncated = count_if (not (bit_and flags 2 == 0)) s.path_truncated;
    }

unfoldable pub note_unlink : ℕ → List ℕ → State → Handled Error State
unfolding note_flags note_scope
note_unlink ts ev s =
    if not (u32 116 ev == 2)
    then refused invalid_operation s
    else handled (
        note_scope (ts / second * second)
          (record { device = u32 104 ev; directory_inode = u64 96 ev }) (note_flags ev s))

-- FILE_UNLINK is 7. The checks make the payload long enough for every field that is read.
unfoldable pub handle_event : ℕ → List ℕ → State → Handled Error State
unfolding bad_event note_unlink header_of
handle_event size rest s =
    let ev = take size rest in
    let h = header_of ev in
    let s' = record s { frames = suc s.frames } in
    if bad_event size h
    then refused invalid_event s
    else if h.etype == 7
    then note_unlink h.ts ev s'
    else handled s'

-- An entry of `buckets` in the result.
pub record Bucket : Type 0 where
  pub row : NpzRow
  pub counts : Counts

pub record Report : Type 0 where
  pub frames_validated : ℕ
  pub recorded_file_unlink : ℕ
  pub matched_unlink_attempts : ℕ
  pub dropped_outside_npz : ℕ
  pub npz_buckets : ℕ
  pub matched_unknown_scope_attempts : ℕ
  pub outside_unknown_scope_attempts : ℕ
  pub unknown_scope_attempts : ℕ
  pub unlink_inode_zero : ℕ
  pub partial_path : ℕ
  pub path_unavailable : ℕ
  pub path_truncated : ℕ
  pub buckets : List Bucket

pub data Outcome : Type 0 where
  failed : Error → Outcome
  audited : Report → Outcome

-- The counts of a row, by its place in the arrays.
unfoldable pub buckets_of : List NpzRow → Dict ℕ Counts → List Bucket
buckets_of [] d = []
buckets_of (r ∷ rs) [] = []
buckets_of (r ∷ rs) ((b, c) ∷ d) = record { row = r; counts = c } ∷ buckets_of rs d

unfoldable pub report_of : List NpzRow → State → Report
unfolding buckets_of total
report_of rows s =
    let unknown = total (λ (c : Counts). c.unknown) s.rows in
    record {
      frames_validated = s.frames;
      recorded_file_unlink = s.total;
      matched_unlink_attempts = total (λ (c : Counts). c.attempts) s.rows;
      dropped_outside_npz = s.outside;
      npz_buckets = length rows;
      matched_unknown_scope_attempts = unknown;
      outside_unknown_scope_attempts = s.outside_unknown;
      unknown_scope_attempts = unknown + s.outside_unknown;
      unlink_inode_zero = s.inode_zero;
      partial_path = s.partial_path;
      path_unavailable = s.path_unavailable;
      path_truncated = s.path_truncated;
      buckets = buckets_of rows s.rows;
    }

-- What follows the loop: no rest of a frame, and the expected number of attempts.
unfoldable pub after_scan : List NpzRow → ℕ → Progress Error State → Outcome
unfolding report_of
after_scan rows expected (stopped e s) = failed e
after_scan rows expected (more s (x ∷ xs)) = failed incomplete_frame
after_scan rows expected (more s []) =
    if not (s.total == expected) then failed count_mismatch else audited (report_of rows s)

unfoldable pub audit : List NpzRow → ℕ → List (List ℕ) → Outcome
unfolding npz_error after_scan feed
audit rows expected chunks = elim (npz_error rows) [
  | some e ↦ failed e
  | none ↦ after_scan rows expected (feed check_frame handle_event chunks [] (start rows))
]
