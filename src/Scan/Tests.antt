-- ===== src/Scan/Tests.antt =====
-- The audit of unlinks on a concrete capture.
use e_bpf_based_kernel_ai_se.Prelude.{
  ℕ, ◌*◌, ◌≡◌, refl, List, [], ◌∷◌, ◌++◌, none, take, drop, replicate, arith, ℕ_discrete,
  string_discrete,
}
use e_bpf_based_kernel_ai_se.Bytes.{little, u16, u32, u64, little_endian, bytes_of}
use e_bpf_based_kernel_ai_se.Dict.{get, put}
use e_bpf_based_kernel_ai_se.Dict.Sums.{total}
use e_bpf_based_kernel_ai_se.Decoder.Event.{pos}
use e_bpf_based_kernel_ai_se.Chunks.{feed, run, parse, take_frame, joined}
use e_bpf_based_kernel_ai_se.Capture.{is_corrupt}
use e_bpf_based_kernel_ai_se.Detector.Event.{header_of, min_event_size}
use e_bpf_based_kernel_ai_se.Unlinks.Audit.{second, natural, is_negative, has_twice, audit_error}
use e_bpf_based_kernel_ai_se.Scan.Npz.{NpzRow, bad_bucket, bad_labels, many_sessions, npz_error}
use e_bpf_based_kernel_ai_se.Scan.Unlinks.{
  same_scope, add_scope, State, audited, empty_rows, start, check_frame, bad_event, note_attempt,
  note_scope, note_flags, note_unlink, handle_event, buckets_of, report_of, after_scan, audit,
}
use e_bpf_based_kernel_ai_se.Scan.Accepted.{audit_of, audit-Accepted}
use e_bpf_based_kernel_ai_se.Scan.Accounts.{AddsUp, audit-AddsUp, audit-joined}

-- FILE_UNLINK at the time `ts`, of a file in the directory `inode` of the device 8.
unfoldable unlink_frame : ℕ → ℕ → List ℕ
unfolding little_endian bytes_of
unlink_frame ts inode =
    (b'E' ∷ b'B' ∷ b'P' ∷ b'F' ∷ 1 ∷ 1 ∷ 0 ∷ 0 ∷ little_endian 4 376)
    ++ little_endian 8 ts
    ++ replicate 52 0
    ++ little_endian 4 376
    ++ replicate 4 0
    ++ little_endian 2 1
    ++ little_endian 2 7
    ++ bytes_of "rm"
    ++ replicate 14 0
    ++ little_endian 8 99
    ++ little_endian 8 inode
    ++ little_endian 4 8
    ++ replicate 8 0
    ++ little_endian 4 2
    ++ replicate 256 0

unfoldable row : ℕ → NpzRow
row n = record {
  bucket_ns = pos (n * second);
  label = "attack";
  technique = "T1070";
  session = "s";
}

unfoldable rows : List NpzRow
unfolding row
rows = row 3 ∷ row 1 ∷ []

-- Three attempts, one of them in an unknown directory, cut within the first frame.
unfoldable capture : List (List ℕ)
unfolding unlink_frame
capture =
    take 50 (unlink_frame 1000000007 5)
    ∷ (drop 50 (unlink_frame 1000000007 5)
        ++ unlink_frame 3000000001 0
        ++ unlink_frame 1999999999 5)
    ∷ []

unfoldable state : State
unfolding feed capture
state = record (start []) {
  rows =
      (3 * second, record { attempts = 1; unknown = 1; scopes = [] })
      ∷ (
        1 * second,
        record {
          attempts = 2;
          unknown = 0;
          scopes = record { device = 8; directory_inode = 5 } ∷ [];
        },
      )
      ∷ [];
  total = 3;
  frames = 3;
}

capture-audited : audit rows 3 capture ≡ audited (report_of rows state)
unfolding audit npz_error bad_bucket bad_labels many_sessions has_twice natural is_negative
    after_scan feed run parse take_frame check_frame is_corrupt handle_event bad_event
    min_event_size header_of note_unlink note_flags note_scope note_attempt add_scope same_scope
    start empty_rows get put little u16 u32 u64 little_endian bytes_of unlink_frame capture rows row
    state report_of total buckets_of string_discrete ℕ_discrete
capture-audited = refl

audit-Accepted_example : audit_error (audit_of (report_of rows state)) ≡ none
unfolding report_of state rows row natural start
audit-Accepted_example =
    audit-Accepted rows 3 capture (report_of rows state) capture-audited refl
      (omega arith, (omega arith, tt)) (omega arith)

audit-AddsUp_example : AddsUp 3 (report_of rows state)
audit-AddsUp_example = audit-AddsUp rows 3 capture (report_of rows state) capture-audited

audit-joined_example : audit rows 3 capture ≡ audit rows 3 (joined capture ∷ [])
audit-joined_example = audit-joined rows 3 capture
