-- ===== src/Examples/Observer.antt =====
-- The theorems on the observer at sample data.
use recompile.Base.{
  ◌==◌, ℕ, ◌≡◌, refl, ◌≤◌, ◌<◌, true, false, none, some, List, [], ◌∷◌, map, Text, codes, arith,
  any, length, span, unwrap_or, if◌then◌else◌, ltb, inr, inl,
}
use recompile.Observation.Status.{clean, findings, failed, timeout}
use recompile.Observation.Run.{ObservationRunSummary, new_run}
use recompile.Observation.Attempt.{RepeatAttemptSummary}
use recompile.Escalate.Result.{EscalationStatus}
use recompile.Cli.Policy.{
  repeat_target_can_run_escalation, repeat_target_is_failure_like, first_failure, ok,
  repeat_reason_selects_target,
}
use recompile.Cli.Select.{fresh_state, selections, select_attempt, has_failure_candidate}
use recompile.Cli.Select.Flags.{policy_flags, escalated_flags}
use recompile.Cli.Fallback.{fallback_target_status, escalation_status}
use recompile.Cli.Fallback.Laws.{fallback_status_ranks}
use recompile.Cli.Observe.{observation_target_name}
use recompile.Cli.Repeat.{Outcome, run_observe_repeated}
use recompile.Cli.Repeat.Steps.{repeated_run-Complete, Complete}
use recompile.Cli.Effects.{ObserveRequest}
use recompile.Cli.Repeat.Completes.{
  Gives, AsciiInputs, IsReliable, IsReliableWorld, repeated_run_completes,
}
use recompile.Cli.Repeat.Bounded.{repeated_run_limited}
use recompile.Examples.{attempt_effects, target_with, tool_result, request, world}

abbrev clean_run : ObservationRunSummary
clean_run = record {
  schema_version = codes "1.0";
  purpose = codes "local_runtime_observation";
  output_root = codes "out";
  target_count = 1;
  status_totals = [];
  finding_totals_by_class = [];
  escalation_totals_by_tool = [];
  targets = target_with clean 0 ∷ [];
  next_commands = [];
}

abbrev found_run : ObservationRunSummary
found_run = record clean_run { targets = target_with findings 1 ∷ [] }

policy_flags_example :
    escalated_flags
      (selections fresh_state first_failure false 1 (clean_run ∷ found_run ∷ found_run ∷ []))
    ≡ false ∷ true ∷ false ∷ []
unfolding has_failure_candidate repeat_target_can_run_escalation repeat_target_is_failure_like
policy_flags_example = policy_flags false first_failure (clean_run ∷ found_run ∷ found_run ∷ [])

fallback_status_ranks_example :
    fallback_target_status (target_with failed 0) (
      tool_result (codes "asan") EscalationStatus.tool_unavailable
      ∷ tool_result (codes "valgrind") EscalationStatus.timeout
      ∷ [])
    ≡ timeout
unfolding escalation_status
fallback_status_ranks_example = fallback_status_ranks (target_with failed 0) (
    tool_result (codes "asan") EscalationStatus.tool_unavailable
    ∷ tool_result (codes "valgrind") EscalationStatus.timeout
    ∷ [])

-- A run of three attempts completes, and escalates the second.
unfoldable completed : (outcome : Outcome) × (run_observe_repeated world request 3 ≡ ok outcome)
unfolding run_observe_repeated recompile.Cli.Observe.run_observe_once select_attempt
    has_failure_candidate new_run repeat_target_can_run_escalation
    recompile.Cli.Target.observation_target_from_native_result
    recompile.Observation.Target.new_target repeat_target_is_failure_like
    repeat_reason_selects_target recompile.Cli.Escalation.apply_observe_escalation_to_target
    recompile.Base.Sets.insert recompile.Base.Dict.alter recompile.Observation.Repeat.new_repeat
    recompile.Observation.Groups.aggregate_repeat_issue_groups
    recompile.Observation.Groups.finish_all recompile.Observation.Groups.collect
    recompile.Observation.Attempt.from_target recompile.Base.Order.text_cmp
    recompile.Observation.Groups.update recompile.Observation.Groups.extend
    recompile.Observation.Groups.new_builder recompile.Observation.Groups.repeat_issue_group_id
    recompile.Base.slice_to recompile.Base.rsplit_once recompile.Base.text_len
    recompile.Base.Sort.sort_by recompile.Observation.Groups.compare_occurrences
    recompile.Base.Sets.last recompile.Cli.Escalation.run_observe_escalation
completed = (_, refl)

repeated_run-Complete_example : Complete 3 completed.0
repeated_run-Complete_example = repeated_run-Complete world request 3 completed.0 completed.1

repeated_run_limited_example :
    length completed.0.repeat_summary.escalation_policy.selected_attempts ≤ 1
repeated_run_limited_example = repeated_run_limited world request 3 completed.0 completed.1

abbrev native_request : ObserveRequest
native_request = record request { native_only = true }

sample_inputs :
    (n : ℕ) (a : RepeatAttemptSummary)
    → Gives AsciiInputs ((attempt_effects n).issue_group_inputs a)
unfolding Gives
sample_inputs n a = ground arith

attempt_effects-IsReliable : (n : ℕ) → IsReliable (attempt_effects n)
attempt_effects-IsReliable n = record {
  create_dir = λ dir. refl;
  native_run = λ dir. refl;
  write_summary = λ root s. refl;
  inputs = λ a. sample_inputs n a;
}

world-IsReliable : IsReliableWorld world
world-IsReliable = record {
  clear_attempts = λ dir. refl;
  during = λ n. attempt_effects-IsReliable (if n == 2 then 1 else 0);
  write_repeat = λ root s. refl;
  write_run = λ root s. refl;
}

repeated_run_completes_example :
    (outcome : Outcome) × (run_observe_repeated world native_request 3 ≡ ok outcome)
repeated_run_completes_example = repeated_run_completes world world-IsReliable native_request 3 refl
