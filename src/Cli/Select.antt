-- ===== src/Cli/Select.antt =====
-- recompile/rerun/src/cli.rs: `RepeatEscalationState::select_attempt`, which attempts of a repeated
-- run are escalated.
pub mod Laws
pub mod Flags
pub mod Budget
use recompile.Base.{
  ℕ, suc, Bool, true, false, ◌&&◌, not, Option, none, some, List, [], ◌∷◌, Text, arith, any, ◌==◌,
  if◌then◌else◌,
}
use recompile.Observation.Target.{ObservationTargetSummary}
use recompile.Observation.Run.{ObservationRunSummary}
use recompile.Cli.Policy.{
  Policy, never, first_failure, sampled, always, repeat_target_can_run_escalation,
  repeat_target_is_failure_like, repeat_reason_selects_target, first_escalatable_failure,
  sampled_first_failure, sampled_first_attempt, policy_always,
}

pub record RepeatEscalationState : Type 0 where
  pub first_failure_selected : Bool
  pub sampled_first_attempt_selected : Bool
  pub sampled_failure_selected : Bool

abbrev pub fresh_state : RepeatEscalationState
fresh_state = record {
  first_failure_selected = false;
  sampled_first_attempt_selected = false;
  sampled_failure_selected = false;
}

unfoldable pub has_candidate : ObservationRunSummary → Bool → Bool
has_candidate summary deep =
    any (λ target. repeat_target_can_run_escalation target deep) summary.targets

unfoldable pub has_failure_candidate : ObservationRunSummary → Bool → Bool
has_failure_candidate summary deep =
    any
      (λ target.
        repeat_target_can_run_escalation target deep && repeat_target_is_failure_like target)
      summary.targets

-- The four arms of the match, on the two tests.
choose :
    RepeatEscalationState → Policy → ℕ → Bool → Bool → Bool → RepeatEscalationState × Option Text
choose state never attempt candidate failing deep = (state, none)
choose state always attempt candidate failing deep =
    (state, if candidate then some policy_always else none)
choose state first_failure attempt candidate failing deep =
    if failing && not state.first_failure_selected
    then (record state { first_failure_selected = true }, some first_escalatable_failure)
    else (state, none)
choose state sampled attempt candidate failing deep =
    if deep && attempt == 1 && candidate && not state.sampled_first_attempt_selected
    then (
      record state {
        sampled_first_attempt_selected = true;
        sampled_failure_selected = if failing then true else state.sampled_failure_selected;
      },
      some sampled_first_attempt,
    )
    else if failing && not state.sampled_failure_selected
    then (record state { sampled_failure_selected = true }, some sampled_first_failure)
    else (state, none)

unfoldable pub select_attempt :
    RepeatEscalationState
    → Policy
    → ℕ
    → ObservationRunSummary
    → Bool
    → RepeatEscalationState × Option Text
unfolding choose
select_attempt state policy attempt summary deep =
    choose state policy attempt (has_candidate summary deep) (has_failure_candidate summary deep)
      deep

-- The reasons that the loop over the attempts gets, from attempt `n` on.
unfoldable pub selections :
    RepeatEscalationState → Policy → Bool → ℕ → List ObservationRunSummary → List (Option Text)
unfolding select_attempt
selections state policy deep n [] = []
selections state policy deep n (summary ∷ summaries) =
    let (state', reason) = select_attempt state policy n summary deep in
    reason ∷ selections state' policy deep (suc n) summaries
