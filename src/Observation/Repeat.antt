-- ===== src/Observation/Repeat.antt =====
-- recompile/rerun/src/observation.rs: `RepeatRunSummary`, with the totals over the attempts of a
-- repeated run and the attempts that it singles out. A panic in the issue groups is `none`.
pub mod Totals
pub mod Selection
use recompile.Base.{
  ℕ, Bool, true, false, Option, none, some, List, [], ◌∷◌, map, Text, codes, length, find, ltb,
  or_else, opt_map, ◌>>=◌,
}
use recompile.Base.Order.{text_ord, nat_ord}
use recompile.Base.Dict.{Dict}
use recompile.Base.Sets.{insert_all}
use recompile.Base.Tally.{tally}
use recompile.Observation.Status.{
  RepeatAttemptOutcome, timed_out, failure, as_str, outcome_str, is_failure_like,
}
use recompile.Observation.Attempt.{
  RepeatAttemptSummary, RepeatAttemptSelection, RepeatEscalationSummary, select,
}
use recompile.Observation.Groups.{
  RepeatIssueGroup, RepeatIssueGroupInput, aggregate_repeat_issue_groups,
}
use recompile.Observation.Run.{add_classes}

unfoldable pub repeat_status_totals : List RepeatAttemptSummary → Dict Text ℕ
repeat_status_totals attempts = tally (λ attempt. as_str attempt.status) (λ _. 1) [] attempts

unfoldable pub repeat_outcome_totals : List RepeatAttemptSummary → Dict Text ℕ
repeat_outcome_totals attempts = tally (λ attempt. outcome_str attempt.outcome) (λ _. 1) [] attempts

unfoldable pub repeat_completed_attempts : List RepeatAttemptSummary → ℕ
repeat_completed_attempts attempts =
    length (insert_all (map (λ (a : RepeatAttemptSummary). a.attempt) attempts) [])

add_attempts : Dict Text ℕ → List RepeatAttemptSummary → Dict Text ℕ
add_attempts totals [] = totals
add_attempts totals (attempt ∷ attempts) =
    add_attempts (add_classes totals attempt.findings_by_class) attempts

unfoldable pub repeat_finding_totals_by_class : List RepeatAttemptSummary → Dict Text ℕ
unfolding add_attempts
repeat_finding_totals_by_class attempts = add_attempts [] attempts

is_timeout : RepeatAttemptOutcome → Bool
is_timeout timed_out = true
is_timeout _ = false

is_failure : RepeatAttemptOutcome → Bool
is_failure failure = true
is_failure _ = false

-- The two selections of `new_with_issue_groups_and_escalation`.
unfoldable pub first_failure : List RepeatAttemptSummary → Option RepeatAttemptSelection
first_failure attempts =
    opt_map (λ a. select a (codes "first_non_pass"))
      (find (λ a. is_failure_like a.outcome) attempts)

unfoldable pub best_evidence_attempt : List RepeatAttemptSummary → Option RepeatAttemptSelection
unfolding is_timeout is_failure
best_evidence_attempt attempts =
    opt_map (λ a. select a (codes "best_available_evidence"))
      (or_else
        (or_else (find (λ a. ltb 0 a.findings_count) attempts)
          (find (λ a. is_timeout a.outcome) attempts))
        (find (λ a. is_failure a.outcome) attempts))

pub record RepeatRunSummary : Type 0 where
  pub schema_version : Text
  pub purpose : Text
  pub output_root : Text
  pub requested_attempts : ℕ
  pub completed_attempts : ℕ
  pub status_totals : Dict Text ℕ
  pub outcome_totals : Dict Text ℕ
  pub finding_totals_by_class : Dict Text ℕ
  pub first_failure : Option RepeatAttemptSelection
  pub best_evidence_attempt : Option RepeatAttemptSelection
  pub escalation_policy : RepeatEscalationSummary
  pub issue_groups : List RepeatIssueGroup
  pub attempts : List RepeatAttemptSummary
  pub next_commands : List Text

unfoldable pub new_repeat :
    Text
    → ℕ
    → List RepeatAttemptSummary
    → List RepeatIssueGroupInput
    → RepeatEscalationSummary
    → List Text
    → Option RepeatRunSummary
new_repeat output_root requested attempts inputs policy next_commands = do
  groups ← aggregate_repeat_issue_groups inputs
  some (record {
    schema_version = codes "1.0";
    purpose = codes "repeat_observation_summary";
    output_root = output_root;
    requested_attempts = requested;
    completed_attempts = repeat_completed_attempts attempts;
    status_totals = repeat_status_totals attempts;
    outcome_totals = repeat_outcome_totals attempts;
    finding_totals_by_class = repeat_finding_totals_by_class attempts;
    first_failure = first_failure attempts;
    best_evidence_attempt = best_evidence_attempt attempts;
    escalation_policy = policy;
    issue_groups = groups;
    attempts = attempts;
    next_commands = next_commands;
  })
