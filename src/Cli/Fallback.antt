-- ===== src/Cli/Fallback.antt =====
-- recompile/rerun/src/cli.rs: escalation results as the observer reads and makes them, and the
-- status of a target that only tools could look at.
pub mod Laws
use recompile.Base.{
  ℕ, ◌++◌, ◌&&◌, ◌||◌, not, Bool, true, false, Option, none, some, List, [], ◌∷◌, Text, codes, ltb,
  any, all, keep, or_else, if◌then◌else◌, text_eq,
}
use recompile.Observation.Status.{
  TargetStatus, clean, findings, failed, timeout, skipped, tool_unavailable, not_applicable,
  status_eq,
}
use recompile.Observation.Target.{ObservationTargetSummary, ObservationEscalationSummary}
use recompile.Escalate.Result
use recompile.Escalate.Result.{EscalationResult, EscalationStatus, is_empty}

unfoldable pub escalation_status : EscalationResult → TargetStatus
escalation_status result = elim result.status [
  | EscalationStatus.clean ↦ clean
  | EscalationStatus.findings ↦ findings
  | EscalationStatus.failed ↦ failed
  | EscalationStatus.timeout ↦ timeout
  | EscalationStatus.skipped ↦ skipped
  | EscalationStatus.tool_unavailable ↦ tool_unavailable
  | EscalationStatus.not_applicable ↦ not_applicable
]

unfoldable pub observation_escalation_summary : EscalationResult → ObservationEscalationSummary
unfolding escalation_status
observation_escalation_summary result = record {
  tool = result.tool;
  status = escalation_status result;
  confirmed = result.confirmed;
  findings_detected = result.findings_detected;
  artifact_path = or_else result.report_path result.output_path;
  error = result.error;
  duration_ms = result.duration_ms;
  timeout_ms = result.timeout_ms;
}

unfoldable pub observe_escalation_failure : Text → Text → Text → ℕ → EscalationResult
observe_escalation_failure finding_id tool error now = record {
  id = codes "observe-" ++ tool ++ codes "-failed";
  finding_id = finding_id;
  tool = tool;
  status = EscalationStatus.failed;
  success = false;
  tool_available = true;
  duration_ms = 0;
  timeout_ms = none;
  output_path = none;
  stdout_path = none;
  stderr_path = none;
  report_path = none;
  command = [];
  exit_code = none;
  confirmed = false;
  error = some error;
  findings_detected = [];
  timestamp = now;
}

unfoldable pub observe_escalation_skipped : Text → Text → Text → ℕ → EscalationResult
observe_escalation_skipped finding_id tool reason now = record {
  id = codes "observe-" ++ tool ++ codes "-skipped";
  finding_id = finding_id;
  tool = tool;
  status = EscalationStatus.skipped;
  success = false;
  tool_available = true;
  duration_ms = 0;
  timeout_ms = none;
  output_path = none;
  stdout_path = none;
  stderr_path = none;
  report_path = none;
  command = [];
  exit_code = none;
  confirmed = false;
  error = some (codes "skipped: " ++ reason);
  findings_detected = [];
  timestamp = now;
}

-- `result.confirmed || !result.findings_detected.is_empty()`
abbrev pub shows_findings : EscalationResult → Bool
shows_findings result = result.confirmed || not (is_empty result.findings_detected)

has_status : TargetStatus → EscalationResult → Bool
unfolding escalation_status
has_status s result = status_eq (escalation_status result) s

unfoldable pub fallback_target_status :
    ObservationTargetSummary → List EscalationResult → TargetStatus
unfolding has_status
fallback_target_status target results =
    let non_skipped = keep (λ r. not (has_status skipped r)) results in
    if ltb 0 target.findings_count || any shows_findings results
    then findings
    else if any (has_status clean) non_skipped
    then clean
    else if any (has_status timeout) non_skipped
    then timeout
    else if any (has_status tool_unavailable) non_skipped
    then tool_unavailable
    else if not (is_empty non_skipped) && all (has_status not_applicable) non_skipped
    then not_applicable
    else if not (is_empty results) && all (has_status skipped) results
    then skipped
    else if all (has_status not_applicable) results
    then not_applicable
    else failed
