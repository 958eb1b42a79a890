-- ===== src/Cli/Repeat.antt =====
-- recompile/rerun/src/cli.rs: `run_observe_repeated`, the loop over the attempts of a repeated run.
pub mod Steps
pub mod Bounded
pub mod Completes
use recompile.Base.{
  ℕ, zero, suc, Bool, true, false, ◌++◌, Option, none, some, List, [], ◌∷◌, map, Text, codes,
  if◌then◌else◌,
}
use recompile.Base.Order.{text_ord}
use recompile.Base.Sets.{Set, insert, member}
use recompile.Base.Paths.{path_join}
use recompile.Observation.Target.{ObservationTargetSummary}
use recompile.Observation.Run.{ObservationRunSummary, new_run}
use recompile.Observation.Attempt.{
  RepeatAttemptSummary, RepeatEscalationAttempt, from_target, escalated, new_escalation,
}
use recompile.Observation.Groups.{RepeatIssueGroupInput}
use recompile.Observation.Repeat.{RepeatRunSummary, new_repeat}
use recompile.Cli.Policy.{
  Result, ok, err, panicked, ◌>>=◌, ◌>>◌, policy_str, repeat_reason_selects_target,
}
use recompile.Cli.Select.{RepeatEscalationState, fresh_state, select_attempt}
use recompile.Escalate.Result.{is_empty}
use recompile.Cli.Effects.{Effects, World, ObserveRequest}
use recompile.Cli.Escalation.{apply_observe_escalation_to_target}
use recompile.Cli.Observe.{
  repeat_attempt_dir, repeat_target_name, jq_of, run_observe_once, observation_summary_had_error,
}

-- The variables of the loop over the attempts.
pub record Progress : Type 0 where
  pub aggregate_targets : List ObservationTargetSummary
  pub repeat_attempts : List RepeatAttemptSummary
  pub escalations : List RepeatEscalationAttempt
  pub state : RepeatEscalationState
  pub inputs : List RepeatIssueGroupInput
  pub next_commands : List Text

-- What a completed run has written, and the error that it returns after that, if it does.
pub record Outcome : Type 0 where
  pub repeat_summary : RepeatRunSummary
  pub run_summary : ObservationRunSummary
  pub had_error : Bool

-- The entry of an attempt in the list of escalated ones.
escalation_entry :
    Option Text → Set Text → Text → RepeatAttemptSummary → List RepeatEscalationAttempt
escalation_entry none names name attempt = []
escalation_entry (some reason) names name attempt =
    if member name names then escalated attempt reason ∷ [] else []

module _ {E : Type 0} (eff : Effects E) (request : ObserveRequest) where
  -- Escalates the selected targets, and collects their names.
  escalate_targets :
      Text
      → List ObservationTargetSummary
      → Set Text
      → Result (List ObservationTargetSummary × Set Text)
  escalate_targets reason [] names = ok ([], names)
  escalate_targets reason (target ∷ targets) names =
      if repeat_reason_selects_target reason target request.deep
      then (do
        (target', done) ←
            apply_observe_escalation_to_target eff target request target.artifacts.crashpack
        (targets', names') ← escalate_targets reason targets (insert target'.name names)
        ok (target' ∷ targets', names'))
      else do
        (targets', names') ← escalate_targets reason targets names
        ok (target ∷ targets', names')

  -- With no reason nothing is escalated and nothing written.
  pub escalate_attempt :
      Option Text → ObservationRunSummary → Text → Result (List ObservationTargetSummary × Set Text)
  unfolding escalate_targets
  escalate_attempt none summary dir = ok (summary.targets, [])
  escalate_attempt (some reason) summary dir = do
    (targets, names) ← escalate_targets reason summary.targets []
    if is_empty names then ok tt else eff.write_summary dir (record summary { targets = targets })
    ok (targets, names)

  absorb :
      ℕ → Text → Option Text → Set Text → List ObservationTargetSummary → Progress → Result Progress
  unfolding escalation_entry
  absorb n dir reason names [] progress = ok progress
  absorb n dir reason names (target ∷ targets) progress = do
    let attempt =
        from_target n (repeat_target_name n target.name) dir
          (path_join dir (codes "run-summary.json")) target
    inputs ← eff.issue_group_inputs attempt
    absorb n dir reason names targets (record progress {
      inputs = progress.inputs ++ inputs;
      escalations = progress.escalations ++ escalation_entry reason names target.name attempt;
      repeat_attempts = progress.repeat_attempts ++ attempt ∷ [];
    })

  -- One round of the loop.
  unfoldable pub attempt_step : ℕ → Progress → Result Progress
  unfolding escalate_attempt absorb
  attempt_step n progress = do
    let dir = repeat_attempt_dir request.output_root n
    summary ←
        run_observe_once eff (record request { output_root = dir; escalation_enabled = false })
    let (state', reason) =
        select_attempt progress.state request.repeat_escalation_policy n summary request.deep
    (targets, names) ← escalate_attempt reason summary dir
    absorbed ← absorb n dir reason names targets (record progress { state = state' })
    ok (record absorbed {
      next_commands = progress.next_commands ++ jq_of dir (codes "run-summary.json") ∷ [];
      aggregate_targets =
          progress.aggregate_targets
          ++ map (λ (t : ObservationTargetSummary). record t { name = repeat_target_name n t.name })
              targets;
    })

module _ {E : Type 0} (world : World E) (request : ObserveRequest) where
  -- `for attempt in n..n + k`
  unfoldable pub attempts : ℕ → ℕ → Progress → Result Progress
  unfolding attempt_step
  attempts zero n progress = ok progress
  attempts (suc k) n progress = do
    next ← attempt_step (world.during n) request n progress
    attempts k (suc n) next

  abbrev pub start : Progress
  start = record {
    aggregate_targets = [];
    repeat_attempts = [];
    escalations = [];
    state = fresh_state;
    inputs = [];
    next_commands =
        jq_of request.output_root (codes "repeat-summary.json")
        ∷ jq_of request.output_root (codes "run-summary.json")
        ∷ [];
  }

  summarize_repeat : ℕ → Progress → Result RepeatRunSummary
  summarize_repeat repeat progress =
      elim (new_repeat request.output_root repeat progress.repeat_attempts progress.inputs
        (new_escalation (policy_str request.repeat_escalation_policy) request.deep
          progress.escalations)
        progress.next_commands) [ none ↦ panicked | some summary ↦ ok summary ]

  unfoldable pub run_observe_repeated : ℕ → Result Outcome
  unfolding attempts summarize_repeat
  run_observe_repeated repeat = do
    world.clear_attempts (path_join request.output_root (codes "attempts"))
    progress ← attempts repeat 1 start
    let summary = new_run request.output_root progress.aggregate_targets progress.next_commands
    repeat_summary ← summarize_repeat repeat progress
    world.write_repeat request.output_root repeat_summary
    world.write_run request.output_root summary
    ok (record {
      repeat_summary = repeat_summary;
      run_summary = summary;
      had_error = observation_summary_had_error summary;
    })
