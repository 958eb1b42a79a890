-- ===== src/Observation/Attempt.antt =====
-- recompile/rerun/src/observation.rs: one attempt of a repeated run, and what is selected of it.
use recompile.Base.{ℕ, Bool, Option, List, Text, length}
use recompile.Base.Dict.{Dict}
use recompile.Observation.Status.{TargetStatus, RepeatAttemptOutcome, from_status}
use recompile.Observation.Target.{ObservationTargetSummary}

pub record RepeatAttemptSummary : Type 0 where
  pub attempt : ℕ
  pub target_name : Text
  pub status : TargetStatus
  pub outcome : RepeatAttemptOutcome
  pub output_root : Text
  pub run_summary : Text
  pub crashpack : Text
  pub findings : Text
  pub evidence_pack : Text
  pub issue_groups : Option Text
  pub findings_count : ℕ
  pub findings_by_class : Dict Text ℕ
  pub issue_group_count : ℕ
  pub error : Option Text
  pub duration_ms : Option ℕ
  pub next_commands : List Text

unfoldable pub from_target :
    ℕ → Text → Text → Text → ObservationTargetSummary → RepeatAttemptSummary
from_target attempt target_name output_root run_summary target = record {
  attempt = attempt;
  target_name = target_name;
  status = target.status;
  outcome = from_status target.status;
  output_root = output_root;
  run_summary = run_summary;
  crashpack = target.artifacts.crashpack;
  findings = target.artifacts.findings;
  evidence_pack = target.artifacts.evidence_pack;
  issue_groups = target.artifacts.issue_groups;
  findings_count = target.findings_count;
  findings_by_class = target.findings_by_class;
  issue_group_count = target.issue_group_count;
  error = target.error;
  duration_ms = target.duration_ms;
  next_commands = target.next_commands;
}

pub record RepeatAttemptSelection : Type 0 where
  pub attempt : ℕ
  pub target_name : Text
  pub status : TargetStatus
  pub outcome : RepeatAttemptOutcome
  pub reason : Text
  pub run_summary : Text
  pub crashpack : Text
  pub findings_count : ℕ
  pub findings_by_class : Dict Text ℕ

unfoldable pub select : RepeatAttemptSummary → Text → RepeatAttemptSelection
select a reason = record {
  attempt = a.attempt;
  target_name = a.target_name;
  status = a.status;
  outcome = a.outcome;
  reason = reason;
  run_summary = a.run_summary;
  crashpack = a.crashpack;
  findings_count = a.findings_count;
  findings_by_class = a.findings_by_class;
}

-- The same fields as a selection, in a type of its own.
pub record RepeatEscalationAttempt : Type 0 where
  pub attempt : ℕ
  pub target_name : Text
  pub status : TargetStatus
  pub outcome : RepeatAttemptOutcome
  pub reason : Text
  pub run_summary : Text
  pub crashpack : Text
  pub findings_count : ℕ
  pub findings_by_class : Dict Text ℕ

unfoldable pub escalated : RepeatAttemptSummary → Text → RepeatEscalationAttempt
escalated a reason = record {
  attempt = a.attempt;
  target_name = a.target_name;
  status = a.status;
  outcome = a.outcome;
  reason = reason;
  run_summary = a.run_summary;
  crashpack = a.crashpack;
  findings_count = a.findings_count;
  findings_by_class = a.findings_by_class;
}

pub record RepeatEscalationSummary : Type 0 where
  pub policy : Text
  pub deep : Bool
  pub selected_attempt_count : ℕ
  pub selected_attempts : List RepeatEscalationAttempt

unfoldable pub new_escalation : Text → Bool → List RepeatEscalationAttempt → RepeatEscalationSummary
new_escalation policy deep selected = record {
  policy = policy;
  deep = deep;
  selected_attempt_count = length selected;
  selected_attempts = selected;
}
