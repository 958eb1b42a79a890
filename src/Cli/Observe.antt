-- ===== src/Cli/Observe.antt =====
-- recompile/rerun/src/cli.rs: one observation, and the names and directories of its targets.
pub mod Name
pub mod Told
use recompile.Base.{
  ℕ, zero, suc, Bool, true, false, ◌++◌, ◌&&◌, ◌||◌, not, Option, none, some, List, [], ◌∷◌, map,
  Text, codes, ltb, leb, ◌==◌, or_else, unwrap_or, if◌then◌else◌, any, is_some,
}
use recompile.Base.Order.{text_ord}
use recompile.Base.Sets.{Set, insert, member}
use recompile.Base.Paths.{path_join}
use recompile.Base.FileNames.{file_name, file_stem}
use recompile.Base.Decimal.{padded}
use recompile.Observation.Target.{ObservationTargetSummary}
use recompile.Observation.Run.{ObservationRunSummary, new_run}
use recompile.Observation.Attempt.{
  RepeatAttemptSummary, RepeatEscalationAttempt, from_target, escalated, new_escalation,
}
use recompile.Observation.Groups.{RepeatIssueGroupInput}
use recompile.Observation.Repeat.{RepeatRunSummary, new_repeat}
use recompile.Cli.Policy.{
  Result, ok, err, panicked, ◌>>=◌, ◌>>◌, policy_str, had_observation_error,
  repeat_reason_selects_target,
}
use recompile.Cli.Select.{RepeatEscalationState, fresh_state, select_attempt}
use recompile.Escalate.Result.{is_empty}
use recompile.Cli.Effects.{Effects, World, ObserveRequest}
use recompile.Cli.Target.{observation_target_from_native_result, observation_target_from_error}
use recompile.Cli.Escalation.{apply_observe_escalation_to_target}

unfoldable pub is_safe_char : ℕ → Bool
is_safe_char c =
    (leb b'0' c && leb c b'9')
    || (leb b'A' c && leb c b'Z')
    || (leb b'a' c && leb c b'z')
    || c == b'-'
    || c == b'_'
    || c == b'.'

sanitize : Text → Text
unfolding is_safe_char
sanitize raw = map (λ c. if is_safe_char c then c else b'_') raw

or_target : Text → Text
or_target [] = codes "target"
or_target (c ∷ s) = c ∷ s

unfoldable pub observation_target_name : Text → Text
unfolding sanitize or_target
observation_target_name path =
    or_target (sanitize (unwrap_or (or_else (file_stem path) (file_name path)) (codes "target")))

unfoldable pub repeat_attempt_dir : Text → ℕ → Text
repeat_attempt_dir root attempt = path_join (path_join root (codes "attempts")) (padded attempt)

unfoldable pub repeat_target_name : ℕ → Text → Text
repeat_target_name attempt name = codes "attempt-" ++ padded attempt ++ codes "-" ++ name

abbrev pub jq_of : Text → Text → Text
jq_of root file = codes "jq . " ++ path_join root file

unfoldable pub observation_summary_had_error : ObservationRunSummary → Bool
observation_summary_had_error summary =
    any (λ target. had_observation_error target.status) summary.targets

module _ {E : Type 0} where
  -- The target of a traced run, or of one that failed to start.
  unfoldable pub traced : Effects E → ObserveRequest → Text → Text → Result ObservationTargetSummary
  traced eff request name dir = elim (eff.native_run dir) [
    | ok result ↦ ok (observation_target_from_native_result name request.timeout_ms result)
    | err error ↦ ok (
        observation_target_from_error name request.binary_path request.args request.cwd
          request.output_root request.timeout_ms error eff.elapsed)
    | panicked ↦ panicked
  ]

  unfoldable pub escalate_if :
      Effects E → ObserveRequest → ObservationTargetSummary → Text → Result ObservationTargetSummary
  escalate_if eff request target dir =
      if request.escalation_enabled
      then (do
        (target', done) ← apply_observe_escalation_to_target eff target request dir
        ok target')
      else ok target

  unfoldable pub run_observe_once : Effects E → ObserveRequest → Result ObservationRunSummary
  unfolding traced escalate_if
  run_observe_once eff request = do
    let name = observation_target_name request.binary_path
    let dir = path_join (path_join request.output_root (codes "targets")) name
    eff.create_dir dir
    target ← traced eff request name dir
    target' ← escalate_if eff request (record target { diagnostics = eff.diagnostics }) dir
    let summary =
        new_run request.output_root (target' ∷ [])
          (jq_of request.output_root (codes "run-summary.json") ∷ [])
    eff.write_summary request.output_root summary
    ok summary
