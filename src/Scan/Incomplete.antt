-- ===== src/Scan/Incomplete.antt =====
-- audit_network_capture.py: the unknown sockets are among the events that are counted.
use e_bpf_based_kernel_ai_se.Prelude.{
  ℕ, suc, ◌+◌, ◌≤◌, ◌≡◌, ap, ◌∙◌, List, [], ◌∷◌, ◌++◌, true, if◌then◌else◌, ◌==◌, ltb, All,
  All-append, take, bit_and, ℕ_discrete, arith, Bool-cases, inl, inr,
}
use e_bpf_based_kernel_ai_se.Bytes.{u16, u32}
use e_bpf_based_kernel_ai_se.Dict.{Dict, get}
use e_bpf_based_kernel_ai_se.Dict.Laws.{get-put}
use e_bpf_based_kernel_ai_se.Dict.Sums.{at}
use e_bpf_based_kernel_ai_se.Chunks.{Progress, more, stopped}
use e_bpf_based_kernel_ai_se.Chunks.Keeps.{AfterEvent, AfterChunk, feed-keeps}
use e_bpf_based_kernel_ai_se.Dataset.Timeline.{Interval}
use e_bpf_based_kernel_ai_se.Scan.Network
use e_bpf_based_kernel_ai_se.Scan.Network.{
  Incomplete, State, start, check_frame, add_count, incomplete_of, is_network, note_network,
  handle_event, Outcome, failed, success, after_scan, audit_network,
}

abbrev pub counted : ℕ → Dict ℕ ℕ → ℕ
counted k d = at (λ (n : ℕ). n) (get ℕ_discrete k d)

unfoldable pub of_kind : ℕ → List Incomplete → ℕ
of_kind k [] = 0
of_kind k (x ∷ xs) = (if x.kind == k then 1 else 0) + of_kind k xs

-- What finalize_event_time_session.py asks of an entry, without its choice of two kinds.
abbrev pub IsUnknown : Incomplete → Type 0
IsUnknown x = (is_network x.kind ≡ true) × (bit_and x.flags 64 ≡ 0)

pub record IsConsistent (s : State) : Type 0 where
  pub among : (k : ℕ) → of_kind k s.incomplete ≤ counted k s.counts
  pub unknown : All IsUnknown s.incomplete

of_kind-append :
    (k : ℕ) (xs : List Incomplete) (x : Incomplete)
    → of_kind k (xs ++ x ∷ []) ≡ of_kind k xs + (if x.kind == k then 1 else 0)
unfolding of_kind
of_kind-append k [] x = omega arith
of_kind-append k (y ∷ ys) x = omega (arith, of_kind-append k ys x)

add_count-counted :
    (j k : ℕ) (d : Dict ℕ ℕ) → counted j (add_count k d) ≡ counted j d + (if k == j then 1 else 0)
unfolding add_count
add_count-counted j k d =
    ap (at (λ (n : ℕ). n)) (get-put ℕ_discrete j k (suc (counted k d)) d) ∙ elim (ℕ_discrete k j) [
      | yes p ↦ ground (arith, ap (λ (n : ℕ). counted n d) p)
      | no p ↦ ground arith
    ]

note_network-IsConsistent :
    (timeline : List Interval) (ev : List ℕ) (s : State)
    → is_network (u16 70 ev) ≡ true
    → IsConsistent s
    → IsConsistent (note_network timeline ev s)
unfolding note_network incomplete_of
note_network-IsConsistent timeline ev s n i = elim (Bool-cases (bit_and (u32 64 ev) 64 == 0)) [
  | inl e ↦
      rw (e, note_network)
        (record {
          among = λ k. omega (
            arith,
            i.among k,
            of_kind-append k s.incomplete (incomplete_of timeline ev),
            add_count-counted k (u16 70 ev) s.counts,
          );
          unknown = All-append IsUnknown s.incomplete _ i.unknown ((n, ground arith), tt);
        })
  | inr e ↦
      rw (e, note_network)
        (record {
          among = λ k. ground (arith, i.among k, add_count-counted k (u16 70 ev) s.counts);
          unknown = i.unknown;
        })
]

handle_event-IsConsistent :
    (timeline : List Interval) (n : ℕ) (rest : List ℕ) (s : State)
    → IsConsistent s
    → AfterEvent IsConsistent (handle_event timeline n rest s)
unfolding handle_event
handle_event-IsConsistent timeline n rest s i =
    elim (Bool-cases (is_network (u16 70 (take n rest)))) [
      | inr e ↦ rw e i
      | inl e ↦ rw e (elim (Bool-cases (ltb n 200)) [
        | inl f ↦ rw f i
        | inr f ↦ rw f (note_network-IsConsistent timeline (take n rest) s e i)
      ])
    ]

abbrev pub WhenScanned : Outcome → Type 0
WhenScanned (failed e) = Unit
WhenScanned (success s) = IsConsistent s

after_scan-IsConsistent :
    (p : Progress Network.Error State) → AfterChunk IsConsistent p → WhenScanned (after_scan p)
after_scan-IsConsistent (stopped e s) h = tt
after_scan-IsConsistent (more s (x ∷ xs)) h = tt
after_scan-IsConsistent (more s []) h = h

-- Every audit that finishes counts, for each kind, at least the events whose socket is unknown, and
-- each of these is a network event without the flag 64.
pub audit_network-IsConsistent :
    (timeline : List Interval) (chunks : List (List ℕ))
    → WhenScanned (audit_network timeline chunks)
unfolding audit_network of_kind get
audit_network-IsConsistent timeline chunks = after_scan-IsConsistent _ (
    feed-keeps IsConsistent check_frame (handle_event timeline) (handle_event-IsConsistent timeline)
      chunks [] start (record { among = λ k. omega arith; unknown = tt }))
