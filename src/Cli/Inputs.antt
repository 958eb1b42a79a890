-- ===== src/Cli/Inputs.antt =====
-- recompile/rerun/src/cli.rs: `load_repeat_issue_group_inputs`, what the issue groups of an attempt give
-- for those of the repeated run.
pub mod Counted
pub mod Whole
use recompile.Base.{
  ℕ, ◌==◌, ◌∷◌, [], ◌++◌, Bool, Option, none, some, List, map, Text, codes, if◌then◌else◌,
}
use recompile.Observation.Attempt.{RepeatAttemptSummary}
use recompile.Observation.Groups.{RepeatIssueGroupInput}
use recompile.Issues.Annotate.{IssueGroup, IssueGroupReport}
use recompile.Cli.Policy.{Result, ok, err, panicked, ◌>>=◌}

-- The closure over a group of the report.
unfoldable pub input_of : RepeatAttemptSummary → Text → IssueGroup → RepeatIssueGroupInput
input_of attempt issue_groups_path group = record {
  fingerprint = group.fingerprint;
  class = group.class;
  operation = group.operation;
  severity = group.severity;
  confidence = group.confidence;
  occurrence = record {
    attempt = attempt.attempt;
    target_name = attempt.target_name;
    issue_group_id = group.id;
    finding_count = group.finding_count;
    issue_groups = issue_groups_path;
    crashpack = attempt.crashpack;
  };
}

-- Whether a file exists, and the report that is read and parsed from it, are parameters.
module _ (exists : Text → Bool) (read_report : Text → Result IssueGroupReport) where
  unfoldable pub load_repeat_issue_group_inputs :
      RepeatAttemptSummary → Result (List RepeatIssueGroupInput)
  load_repeat_issue_group_inputs attempt = elim attempt.issue_groups [
    | none ↦ ok []
    | some path ↦
        if exists path
        then (do report ← read_report path; ok (map (input_of attempt path) report.groups))
        else if attempt.issue_group_count == 0
        then ok []
        else err (
            codes "missing issue group artifact for "
            ++ attempt.target_name
            ++ codes " at "
            ++ path)
  ]
