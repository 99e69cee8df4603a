-- ===== src/Behavior/Run.antt =====
-- behavior_memory.py, `summary` and `main`: the end of a replay. The retention stays in nanoseconds, and the
-- fixed texts of the summary are left out.
use e_bpf_based_kernel_ai_se.Prelude.{
  ℕ, ◌≤◌, ◌≡◌, List, [], ◌∷◌, Option, none, some, Bool, true, false, String, length, if◌then◌else◌,
}
use e_bpf_based_kernel_ai_se.Dict.{Dict}
use e_bpf_based_kernel_ai_se.Aggregate.Buckets.{text_lt}
use e_bpf_based_kernel_ai_se.Behavior.State.{Memory, Result, ok, raise, init, clear}
use e_bpf_based_kernel_ai_se.Behavior.Event.{Advisory}
use e_bpf_based_kernel_ai_se.Behavior.Stream.{Source, Ending, complete, failed, stuck, replay}

pub record Summary : Type 0 where
  pub is_complete : Bool
  pub retention : ℕ
  pub max_tasks : ℕ
  pub pending_precursors : ℕ
  pub tracked_tasks : ℕ
  pub counters : Dict String ℕ

unfoldable pub insert_counter : String → ℕ → Dict String ℕ → Dict String ℕ
unfolding text_lt
insert_counter k n [] = (k, n) ∷ []
insert_counter k n ((j, m) ∷ d) =
    let rest = insert_counter k n d in if text_lt j k then (j, m) ∷ rest else (k, n) ∷ (j, m) ∷ d

-- `dict(sorted(self.counts.items()))`
unfoldable pub sorted_counters : Dict String ℕ → Dict String ℕ
unfolding insert_counter
sorted_counters [] = []
sorted_counters ((k, n) ∷ d) = insert_counter k n (sorted_counters d)

unfoldable pub summary : Bool → Memory → Summary
unfolding sorted_counters
summary whole m = record {
  is_complete = whole;
  retention = m.ttl;
  max_tasks = m.max_tasks;
  pending_precursors = length m.evidence;
  tracked_tasks = length m.tasks;
  counters = sorted_counters m.counts;
}

-- What `main` prints and returns. `parser.error` rejects the arguments.
pub record Report : Type 0 where
  pub advisories : List Advisory
  pub error : Option String
  pub summary : Summary
  pub exit : ℕ

pub data Outcome : Type 0 where
  rejected : String → Outcome
  reported : Report → Outcome
  unfinished : Outcome

-- The two ways in which the loop over the advisories ends.
unfoldable pub report : Ending → Memory → List Advisory → Outcome
unfolding summary clear
report complete m advisories =
    reported (record { advisories = advisories; error = none; summary = summary true m; exit = 0 })
report (failed e) m advisories = reported (record {
  advisories = advisories;
  error = some e;
  summary = summary false (clear "replay_failed" true m);
  exit = 2;
})
report stuck m advisories = unfinished

unfoldable pub run_with : Result Memory → Source → Outcome
unfolding report replay
run_with (raise e) s = rejected e
run_with (ok m) s = let r = replay s m in report r.ending r.memory r.advisories

-- The arguments of `init`, and the stream.
unfoldable pub main : Bool → ℕ → ℕ → Option String → String → Source → Outcome
unfolding run_with init
main b ttl cap epoch uuid s = run_with (init b ttl cap epoch uuid) s

-- The exit status goes with the summary: 0 and no error after a complete replay, 2 with an error and no
-- evidence left after any other.
abbrev pub IsSound : Outcome → Type 0
IsSound (rejected e) = Unit
IsSound (reported r) =
    (r.summary.tracked_tasks ≤ r.summary.max_tasks)
    × (if r.summary.is_complete
        then (r.error ≡ none) × (r.exit ≡ 0)
        else (r.exit ≡ 2) × (r.summary.pending_precursors ≡ 0))
IsSound unfinished = ⊥
