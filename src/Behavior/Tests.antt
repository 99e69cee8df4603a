-- ===== src/Behavior/Tests.antt =====
-- Runs of the replay on concrete events, and the theorems applied to them.
use mathlib.Core.Option
use e_bpf_based_kernel_ai_se.Prelude.{
  ℕ, ◌≢◌, subst, ◌++◌, ◌%◌, ◌/◌, ◌≡◌, refl, List, [], ◌∷◌, none, some, true, false, replicate, zero,
  suc, string_discrete, ℕ_discrete, drop,
}
use e_bpf_based_kernel_ai_se.Dict.{keep, find_item, get, pop, put, move_to_end}
use e_bpf_based_kernel_ai_se.Bytes.{little, u16, u32, u64, has_nul, until_nul, bytes_of}
use e_bpf_based_kernel_ai_se.Behavior.State.{
  slot_discrete, identity_discrete, root_discrete, loss_discrete, choose_epoch, init, count, tally,
  rebuild, clear, expire_loop, expire, in_family, dropped, drop_family, Identity, Slot, Memory, ok,
  Task,
}
use e_bpf_based_kernel_ai_se.Behavior.Tasks.{
  any_item, moved_cgroup, make_room, fresh_task, store_task, enter, admit, refresh, task,
  is_live_root, find_root, root, leader_start, set_blocked, block_thread,
}
use e_bpf_based_kernel_ai_se.Behavior.Forks.{
  fork_payload, already_born, join_family, rejoin, attach, bear, bear_under, fork_known, fork,
}
use e_bpf_based_kernel_ai_se.Behavior.Regex.{nullable, derive, fullmatch, text}
use e_bpf_based_kernel_ai_se.Behavior.Credential.{credential, is_credential}
use e_bpf_based_kernel_ai_se.Behavior.Destination.{
  address_of, ipv4_mapped, is_loopback, is_unspecified, is_multicast, loops_back, unsupported,
}
use e_bpf_based_kernel_ai_se.Behavior.Event.{header_of, min_size, is_well_formed, key_of, Advisory}
use e_bpf_based_kernel_ai_se.Behavior.Activity.{
  path_of, remember, observe_open, scope_of, scope_counter, advise, correlate, observe_connect,
}
use e_bpf_based_kernel_ai_se.Behavior.Observe.{
  loss_of, health_changed, observe_health, is_leaf, observe_exit, observe_activity, observe_task,
  note_untracked, observe_event, runs_backwards, observe_ordered, observe,
}
use e_bpf_based_kernel_ai_se.Behavior.Stream.{
  read, exact_loop, exact, payload_of, is_wire_header, frame_after, read_frame, with_advisory,
  observed, replay_step, replay_loop, replay, Source, stuck,
}
use e_bpf_based_kernel_ai_se.Behavior.Invariant.{Valid, task_at}
use e_bpf_based_kernel_ai_se.Behavior.Invariant.Observing.{observe-Valid}
use e_bpf_based_kernel_ai_se.Behavior.History.{init-Valid, replay-Valid, replay-ends, replay-same}
use e_bpf_based_kernel_ai_se.Behavior.Advisories.{observe-advisory, Rests}
use e_bpf_based_kernel_ai_se.Behavior.Stream.Short.{exact-whole, whole}
use e_bpf_based_kernel_ai_se.Behavior.Resets.{clear-exclusions, facts, exclusion}
use e_bpf_based_kernel_ai_se.Behavior.Invariant.Roots.{root_resolves}
use e_bpf_based_kernel_ai_se.Behavior.Invariant.Expiry.{expire-keep, is_young}

unfoldable little_endian : ℕ → ℕ → List ℕ
little_endian zero n = []
little_endian (suc k) n = n % 256 ∷ little_endian k (n / 256)

program : Unit {0}
unfolding little_endian ℕ_discrete string_discrete keep find_item get pop put move_to_end little u16
    u32 u64 has_nul until_nul bytes_of slot_discrete identity_discrete root_discrete loss_discrete
    choose_epoch init count tally rebuild clear expire_loop expire in_family dropped drop_family
    any_item moved_cgroup make_room fresh_task store_task enter admit refresh task is_live_root
    find_root root leader_start set_blocked block_thread fork_payload already_born join_family
    rejoin attach bear bear_under fork_known fork nullable derive fullmatch text credential
    is_credential address_of ipv4_mapped is_loopback is_unspecified is_multicast loops_back
    unsupported header_of min_size is_well_formed key_of path_of remember observe_open scope_of
    scope_counter advise correlate observe_connect loss_of health_changed observe_health is_leaf
    observe_exit observe_activity observe_task note_untracked observe_event runs_backwards
    observe_ordered observe read exact_loop exact payload_of is_wire_header frame_after read_frame
    with_advisory observed replay_step replay_loop replay
program = tt

-- A header of task 7 in cgroup 1, started at 5.
unfoldable header : ℕ → ℕ → ℕ → ℕ → List ℕ
unfolding little_endian
header ts size flags kind =
    little_endian 8 ts
    ++ little_endian 8 1
    ++ little_endian 8 5
    ++ little_endian 4 7
    ++ little_endian 4 7
    ++ replicate 28 0
    ++ little_endian 4 size
    ++ little_endian 4 flags
    ++ little_endian 2 1
    ++ little_endian 2 kind

unfoldable open_event : ℕ → List ℕ
unfolding header bytes_of little_endian
open_event ts =
    header ts 376 0 6
    ++ replicate 40 0
    ++ little_endian 4 1
    ++ little_endian 4 1
    ++ bytes_of "/root/.ssh/id_rsa"
    ++ replicate 239 0

unfoldable connect_event : ℕ → List ℕ
unfolding header little_endian
connect_event ts =
    header ts 200 16 8
    ++ replicate 80 0
    ++ little_endian 2 2
    ++ replicate 30 0
    ++ 8 ∷ 8 ∷ 8 ∷ 8 ∷ replicate 12 0

abbrev fresh : Memory
fresh = record {
  ttl = 100;
  max_tasks = 2;
  epoch = "boot";
  tasks = [];
  evidence = [];
  counts = [];
  last_ts = none;
  health = none;
  next_ref = 0;
}

abbrev opener : Identity
opener = record { epoch = "boot"; cgroup = 1; pid = 7; start = 5 }

abbrev slot : Slot
slot = record { cgroup = 1; pid = 7 }

abbrev tracked : Task
tracked = record { ref = 0; start = 5; blocked = false; root = none; has_children = false }

abbrev opened : Memory
opened = record fresh {
  tasks = (slot, tracked) ∷ [];
  evidence = (opener, record { ts = 10; source = opener }) ∷ [];
  counts = ("frames", 1) ∷ ("credential_open_hooks", 1) ∷ [];
  last_ts = some 10;
  next_ref = 1;
}

abbrev connected : Memory
connected = record opened {
  evidence = [];
  counts =
      ("frames", 2)
      ∷ ("credential_open_hooks", 1)
      ∷ ("non_loopback_connect_attempts", 1)
      ∷ ("advisories", 1)
      ∷ ("direct_same_task_only_advisories", 1)
      ∷ [];
  last_ts = some 20;
}

abbrev advisory : Advisory
advisory = record {
  advisory_only = true;
  scope = "direct_same_task_only";
  coverage_confirmed = false;
  reason_codes = "CREDENTIAL_FILE_OPEN_HOOK" ∷ "NON_LOOPBACK_CONNECT_ATTEMPT" ∷ [];
  identity = opener;
  precursor_identity = opener;
  root_identity = opener;
  precursor_ns = 10;
  attempt_ns = 20;
  episode = 1;
}

open_lem : observe (open_event 10) fresh ≡ (opened, ok none)
unfolding program open_event header
open_lem = refl

connect_lem : observe (connect_event 20) opened ≡ (connected, ok (some advisory))
unfolding program connect_event header
connect_lem = refl

-- The evidence is used up, and too late an attempt finds none.
connect_again :
    ((observe (connect_event 30) connected).1 ≡ ok none)
    × ((observe (connect_event 110) opened).1 ≡ ok none)
unfolding program connect_event header
connect_again = (refl, refl)

credentials :
    (is_credential (bytes_of "/home/ann/.ssh/id_ed25519") ≡ true)
    × (is_credential (bytes_of "/etc/ssh/ssh_host_rsa_key") ≡ true)
    × (is_credential (bytes_of "/home/a/b/.ssh/id_rsa") ≡ false)
    × (is_credential (bytes_of "/etc/passwd") ≡ false)
unfolding program
credentials = (refl, refl, refl, refl)

fresh_lem : init true 100 2 (some "boot") "" ≡ ok fresh
unfolding program
fresh_lem = refl

fresh-Valid : Valid fresh
fresh-Valid = init-Valid true 100 2 (some "boot") "" fresh fresh_lem

opened-Valid : Valid opened
opened-Valid = subst (λ r. Valid r.0) open_lem (observe-Valid (open_event 10) fresh fresh-Valid)

observe-advisory_example : Rests opened 20 8 connected advisory
unfolding program connect_event header
observe-advisory_example =
    observe-advisory (connect_event 20) opened connected advisory opened-Valid connect_lem

-- Two frames.
unfoldable wire : List ℕ
unfolding bytes_of little_endian open_event connect_event header
wire =
    bytes_of "EBPF"
    ++ 1 ∷ 1 ∷ 0 ∷ 0 ∷ little_endian 4 376
    ++ open_event 10
    ++ bytes_of "EBPF"
    ++ 1 ∷ 1 ∷ 0 ∷ 0 ∷ little_endian 4 200
    ++ connect_event 20

abbrev source : ℕ → Source
source n = record { rest = wire; sizes = λ _. n; calls = 0 }

replay_lem : (replay (source 1000) fresh).advisories ≡ advisory ∷ []
unfolding program wire open_event connect_event header
replay_lem = refl

replay-Valid_example : Valid (replay (source 7) fresh).memory
replay-Valid_example = replay-Valid true 100 2 (some "boot") "" fresh (source 7) fresh_lem

replay-ends_example : (replay (source 7) fresh).ending ≢ stuck
replay-ends_example = replay-ends (source 7) fresh

replay-same_example : replay (source 7) fresh ≡ replay (source 1000) fresh
replay-same_example = replay-same (source 7) (source 1000) fresh refl

exact-whole_example :
    ((exact 12 true (source 7)).0 ≡ whole 12 true [] wire)
    × ((exact 12 true (source 7)).1.rest ≡ drop 12 wire)
exact-whole_example = exact-whole 12 true (source 7)

tracked_lem : task_at slot opened ≡ some tracked
unfolding program
tracked_lem = refl

root_resolves_example : root opener tracked opened ≡ (opened, some opener)
root_resolves_example = root_resolves opener slot tracked opened opened-Valid.inv tracked_lem

expire-keep_example : (expire 110 opened).evidence ≡ keep (is_young 100 110) opened.evidence
expire-keep_example = expire-keep 110 opened opened-Valid.inv

clear-exclusions_example :
    ((clear "unsafe_ordering" true opened).evidence ≡ [])
    × (Option.map facts (task_at slot (clear "unsafe_ordering" true opened))
        ≡ exclusion (task_at slot opened))
clear-exclusions_example = clear-exclusions "unsafe_ordering" slot opened opened-Valid.inv
