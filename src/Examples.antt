-- ===== src/Examples.antt =====
-- Sample data for the tests of the observer and its summaries, and those tests.
mod Summaries
mod Observer
mod Escalations
mod Reports
mod Rules
mod Clusters
mod Compiler
mod Promotion
mod Crashpack
mod Processes
mod Issues
mod Inputs
mod Agent
mod Told
use recompile.Base.{ℕ, true, false, none, some, [], ◌∷◌, Text, codes, ◌==◌, if◌then◌else◌}
use recompile.Observation.Status.{TargetStatus, clean, findings, from_status}
use recompile.Observation.Target.{ObservationTargetSummary, ObservationArtifacts, not_run}
use recompile.Observation.Attempt.{RepeatAttemptSummary}
use recompile.Observation.Groups.{RepeatIssueGroupInput}
use recompile.Escalate.Result
use recompile.Escalate.Result.{EscalationResult, EscalationStatus}
use recompile.Cli.Policy.{ok, first_failure}
use recompile.Cli.Timeouts.{EscalationTimeoutOverrides}
use recompile.Cli.Effects.{Effects, World, ObserveRequest}

abbrev artifacts : ObservationArtifacts
artifacts = record {
  crashpack = codes "out/targets/app";
  evidence_pack = codes "out/targets/app/evidence-pack.json";
  findings = codes "out/targets/app/findings.json";
  analysis = codes "out/targets/app/analysis.json";
  manifest = codes "out/targets/app/manifest.json";
  logs = codes "out/targets/app/logs";
  dependencies = none;
  issue_groups = none;
}

abbrev target_with : TargetStatus → ℕ → ObservationTargetSummary
target_with status n = record {
  name = codes "app";
  binary_path = codes "bin/app";
  args = [];
  cwd = codes ".";
  env = [];
  status = status;
  error = none;
  exit = not_run;
  duration_ms = some 12;
  timeout_ms = none;
  findings_count = n;
  findings_by_class = [];
  issue_group_count = n;
  escalation = [];
  diagnostics = [];
  artifacts = artifacts;
  replay_command = none;
  summarize_command = none;
  next_commands = [];
}

abbrev attempt_with : ℕ → TargetStatus → ℕ → RepeatAttemptSummary
attempt_with attempt status n = record {
  attempt = attempt;
  target_name = codes "app";
  status = status;
  outcome = from_status status;
  output_root = codes "out";
  run_summary = codes "out/run-summary.json";
  crashpack = codes "out/targets/app";
  findings = codes "out/targets/app/findings.json";
  evidence_pack = codes "out/targets/app/evidence-pack.json";
  issue_groups = none;
  findings_count = n;
  findings_by_class = [];
  issue_group_count = n;
  error = none;
  duration_ms = some 12;
  next_commands = [];
}

-- One finding of an attempt, in the group with the fingerprint.
abbrev issue_input : Text → ℕ → RepeatIssueGroupInput
issue_input fingerprint attempt = record {
  fingerprint = fingerprint;
  class = codes "double_free";
  operation = codes "free";
  severity = codes "high";
  confidence = codes "high";
  occurrence = record {
    attempt = attempt;
    target_name = codes "app";
    issue_group_id = codes "IG-1";
    finding_count = 1;
    issue_groups = codes "out/targets/app/issue-groups.json";
    crashpack = codes "out/targets/app";
  };
}

abbrev tool_result : Text → EscalationStatus → EscalationResult
tool_result tool status = record {
  id = codes "1";
  finding_id = codes "F-1";
  tool = tool;
  status = status;
  success = true;
  tool_available = true;
  duration_ms = 40;
  timeout_ms = none;
  output_path = none;
  stdout_path = none;
  stderr_path = none;
  report_path = none;
  command = [];
  exit_code = none;
  confirmed = false;
  error = none;
  findings_detected = [];
  timestamp = 0;
}

abbrev no_budgets : EscalationTimeoutOverrides
no_budgets = record {
  default_ms = none;
  asan_ms = none;
  lsan_ms = none;
  ubsan_ms = none;
  valgrind_ms = none;
  gdb_ms = none;
}

abbrev request : ObserveRequest
request = record {
  binary_path = codes "bin/app";
  output_root = codes "out";
  cwd = none;
  timeout_ms = some 1000;
  tool_timeouts = no_budgets;
  native_only = false;
  deep = false;
  escalation_enabled = true;
  repeat_escalation_policy = first_failure;
  args = [];
}

-- An attempt in which the target ends with `n` findings, which a tool then looks at.
abbrev attempt_effects : ℕ → Effects (Unit {0})
attempt_effects n = record {
  create_dir = λ dir. ok tt;
  diagnostics = [];
  native_run = λ dir. ok (record {
    binary_path = codes "bin/app";
    output_dir = dir;
    args = [];
    cwd = none;
    exit_code = none;
    signal = none;
    crashed = false;
    timed_out = false;
    duration_ms = 12;
    findings_count = n;
    findings_by_class = [];
    issue_group_count = n;
  });
  elapsed = 12;
  now = 100;
  analysis = λ dir.
      ok (record { binary_path = codes "bin/app"; source_path = none; cwd = none; args = [] });
  findings = λ dir. ok [];
  sanitizer_runtime = λ path. false;
  escalate = λ config finding. ok (tool_result (codes "valgrind") EscalationStatus.clean);
  check_clean_binary = λ config path. ok (tool_result (codes "valgrind") EscalationStatus.clean);
  prepare_tool_only = λ dir. ok tt;
  write_results = λ dir results. ok tt;
  promote = λ dir results. ok none;
  write_summary = λ root summary. ok tt;
  issue_group_inputs = λ attempt. ok (
      if attempt.findings_count == 0
      then []
      else issue_input (codes "IGF-abc") attempt.attempt ∷ []);
}

-- The second attempt finds something, the others do not.
abbrev world : World (Unit {0})
world = record {
  clear_attempts = λ dir. ok tt;
  during = λ n. attempt_effects (if n == 2 then 1 else 0);
  write_repeat = λ root summary. ok tt;
  write_run = λ root summary. ok tt;
}
