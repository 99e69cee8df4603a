-- ===== src/Scan/Network.antt =====
-- audit_network_capture.py, `audit`: the network events of a capture and those whose socket is unknown.
-- The timeline comes as the intervals of its lines, which finalize_event_time_session.py checks before.
use e_bpf_based_kernel_ai_se.Prelude.{
  ℕ, suc, List, [], ◌∷◌, ◌++◌, Option, none, some, Bool, not, ◌&&◌, ◌||◌, if◌then◌else◌, ◌==◌, leb,
  ltb, take, bit_and, ℕ_discrete, String,
}
use e_bpf_based_kernel_ai_se.Bytes.{u16, u32, u64}
use e_bpf_based_kernel_ai_se.Dict.{Dict, get, put}
use e_bpf_based_kernel_ai_se.Dict.Sums.{at}
use e_bpf_based_kernel_ai_se.Decoder.Event.{ℤ, signed}
use e_bpf_based_kernel_ai_se.Capture.{is_corrupt}
use e_bpf_based_kernel_ai_se.Chunks.{Progress, more, stopped, Handled, handled, refused, feed}
use e_bpf_based_kernel_ai_se.Dataset.Timeline.{Interval}

pub data Error : Type 0 where
  invalid_frame : Error
  short_frame : Error
  incomplete_frame : Error

-- An entry of `incomplete_socket_metadata`.
pub record Incomplete : Type 0 where
  pub kind : ℕ
  pub timestamp_ns : ℕ
  pub flags : ℕ
  pub result : ℤ
  pub family : ℕ
  pub unit : Option String

pub record State : Type 0 where
  pub counts : Dict ℕ ℕ
  pub incomplete : List Incomplete

abbrev pub start : State
start = record { counts = []; incomplete = [] }

-- The first interval that holds the time, its end included.
unfoldable pub unit_at : ℕ → List Interval → Option String
unit_at ts [] = none
unit_at ts (i ∷ is) =
    let rest = unit_at ts is in if leb i.start ts && leb ts i.end then some i.unit else rest

unfoldable pub check_frame : List ℕ → Option Error
unfolding is_corrupt
check_frame h =
    let size = u32 8 h in
    if (is_corrupt h || not (u16 6 h == 0)) || not (leb 88 size && leb size 376)
    then some invalid_frame
    else none

-- `counts[kind] += 1`
unfoldable pub add_count : ℕ → Dict ℕ ℕ → Dict ℕ ℕ
add_count k d = put ℕ_discrete k (suc (at (λ (n : ℕ). n) (get ℕ_discrete k d))) d

unfoldable pub incomplete_of : List Interval → List ℕ → Incomplete
unfolding unit_at signed
incomplete_of timeline ev =
    let ts = u64 0 ev in
    record {
      kind = u16 70 ev;
      timestamp_ns = ts;
      flags = u32 64 ev;
      result = signed 4 56 ev;
      family = u16 152 ev;
      unit = unit_at ts timeline;
    }

abbrev pub is_network : ℕ → Bool
is_network k = leb 8 k && leb k 13

-- A network event of at least 200 bytes.
unfoldable pub note_network : List Interval → List ℕ → State → State
unfolding add_count incomplete_of
note_network timeline ev s =
    let counts = add_count (u16 70 ev) s.counts in
    if bit_and (u32 64 ev) 64 == 0
    then record { counts = counts; incomplete = s.incomplete ++ incomplete_of timeline ev ∷ [] }
    else record { counts = counts; incomplete = s.incomplete }

unfoldable pub handle_event : List Interval → ℕ → List ℕ → State → Handled Error State
unfolding note_network
handle_event timeline size rest s =
    let ev = take size rest in
    if not (is_network (u16 70 ev))
    then handled s
    else if ltb size 200
    then refused short_frame s
    else handled (note_network timeline ev s)

pub data Outcome : Type 0 where
  failed : Error → Outcome
  success : State → Outcome

abbrev pub after_scan : Progress Error State → Outcome
after_scan (stopped e s) = failed e
after_scan (more s (x ∷ xs)) = failed incomplete_frame
after_scan (more s []) = success s

unfoldable pub audit_network : List Interval → List (List ℕ) → Outcome
unfolding feed
audit_network timeline chunks =
    after_scan (feed check_frame (handle_event timeline) chunks [] start)
