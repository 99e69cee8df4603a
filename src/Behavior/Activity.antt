-- ===== src/Behavior/Activity.antt =====
-- behavior_memory.py, the FILE_OPEN and CONNECT parts of `observe`: a credential open is
-- remembered at the family root, and the next connect of the family uses it up.
use e_bpf_based_kernel_ai_se.Prelude.{
  ℕ, List, [], ◌∷◌, none, some, true, false, not, ◌&&◌, ◌||◌, ite, if◌then◌else◌, leb, ◌==◌, String,
  bit_and,
}
use e_bpf_based_kernel_ai_se.Bytes.{u16, u32, slice, has_nul, until_nul}
use e_bpf_based_kernel_ai_se.Dict.{get, pop, put}
use e_bpf_based_kernel_ai_se.Behavior.State.{
  Identity, Precursor, Memory, ok, identity_discrete, count, tallied, clear,
}
use e_bpf_based_kernel_ai_se.Behavior.Event.{Header, Outcome, quiet}
use e_bpf_based_kernel_ai_se.Behavior.Credential.{is_credential}
use e_bpf_based_kernel_ai_se.Behavior.Destination.{address_of, loops_back, unsupported}

-- `path` of an eligible hook: the bytes before the NUL of the 256-byte field.
unfoldable pub path_of : List ℕ → List ℕ
path_of event = until_nul (slice 120 256 event)

unfoldable pub remember : Identity → ℕ → Identity → Memory → Memory
remember family ts key m = tallied "credential_open_hooks" (record m {
  evidence =
      put identity_discrete family (record { ts = ts; source = key })
        (pop identity_discrete family m.evidence);
})

-- `PATH_BAD` is 7; `operation` 1 is an open, and bit 0 of `mode` is FMODE_READ.
unfoldable pub observe_open : List ℕ → Header → Identity → Identity → Memory → Memory
observe_open event h key family m =
    if not (bit_and h.flags 7 == 0) || not (has_nul (slice 120 256 event))
    then tallied "uncertain_path" m
    else if not (u32 116 event == 1) || (not (h.result == 0) || (bit_and (u32 112 event) 1 == 0))
    then tallied "ineligible_open_hook" m
    else if is_credential (path_of event)
    then remember family h.ts key m
    else m

unfoldable pub scope_of : Identity → Identity → String
scope_of source key =
    ite (identity_discrete source key) "direct_same_task_only" "verified_task_lineage"

-- `scope + "_advisories"`
unfoldable pub scope_counter : Identity → Identity → String
scope_counter source key =
    ite (identity_discrete source key) "direct_same_task_only_advisories"
      "verified_task_lineage_advisories"

unfoldable pub advise : ℕ → Identity → Identity → Precursor → Memory → Outcome
advise ts key family p m =
    let m' =
      tallied (scope_counter p.source key)
        (tallied "advisories" (record m { evidence = pop identity_discrete family m.evidence })) in
    (
      m',
      ok (
          some (record {
            advisory_only = true;
            scope = scope_of p.source key;
            coverage_confirmed = false;
            reason_codes = "CREDENTIAL_FILE_OPEN_HOOK" ∷ "NON_LOOPBACK_CONNECT_ATTEMPT" ∷ [];
            identity = key;
            precursor_identity = p.source;
            root_identity = family;
            precursor_ns = p.ts;
            attempt_ns = ts;
            episode = count "advisories" m'.counts;
          })),
    )

-- A connect that reaches a real destination, against the evidence of its family.
unfoldable pub correlate : ℕ → Identity → Identity → Memory → Outcome
correlate ts key family m =
    let m' = tallied "non_loopback_connect_attempts" m in
    elim (get identity_discrete family m.evidence) [
      | none ↦ quiet (tallied "connect_without_direct_precursor" m')
      | some p ↦
          if leb ts p.ts then quiet (clear "unsafe_ordering" true m') else advise ts key family p m'
    ]

unfoldable pub observe_connect : List ℕ → Header → Identity → Identity → Memory → Outcome
observe_connect event h key family m =
    let fam = u16 152 event in
    let address = address_of fam event in
    if bit_and h.flags 16 == 0
    then quiet (tallied "uncertain_destination" m)
    else if not (fam == 2) && not (fam == 10)
    then quiet (tallied "unsupported_family" m)
    else if loops_back address
    then quiet (tallied "loopback_attempts" m)
    else if unsupported address
    then quiet (tallied "unsupported_destination" m)
    else correlate h.ts key family m
