-- ===== src/Cli/Effects.antt =====
-- recompile/rerun/src/cli.rs: the request and the records that the observer exchanges with its
-- surroundings, and those surroundings: files, the clock, the native tracer and the tools. They
-- answer for one attempt at a time.
use recompile.Base.{ℕ, ℤ, Bool, Option, List, Text, min, ◌-◌, ◌^◌}
use recompile.Base.Dict.{Dict}
use recompile.Observation.Target.{ObservationDiagnostic}
use recompile.Observation.Run.{ObservationRunSummary}
use recompile.Observation.Attempt.{RepeatAttemptSummary}
use recompile.Observation.Repeat.{RepeatRunSummary}
use recompile.Observation.Groups.{RepeatIssueGroupInput}
use recompile.Escalate.Finding.{Finding}
use recompile.Escalate.Config.{EscalationConfig}
use recompile.Escalate.Result.{EscalationResult}
use recompile.Cli.Policy.{Policy, Result}
use recompile.Cli.Timeouts.{EscalationTimeoutOverrides}

pub record ObserveRequest : Type 0 where
  pub binary_path : Text
  pub output_root : Text
  pub cwd : Option Text
  pub timeout_ms : Option ℕ
  pub tool_timeouts : EscalationTimeoutOverrides
  pub native_only : Bool
  pub deep : Bool
  pub escalation_enabled : Bool
  pub repeat_escalation_policy : Policy
  pub args : List Text

pub record NativeRunMetadata : Type 0 where
  pub binary_path : Text
  pub source_path : Option Text
  pub cwd : Option Text
  pub args : List Text

pub record CrashpackFindingSnapshot : Type 0 where
  pub count : ℕ
  pub class_counts : Dict Text ℕ
  pub issue_group_count : ℕ

-- native.rs: what a traced run returns.
pub record NativeRunResult : Type 0 where
  pub binary_path : Text
  pub output_dir : Text
  pub args : List Text
  pub cwd : Option Text
  pub exit_code : Option ℤ
  pub signal : Option ℤ
  pub crashed : Bool
  pub timed_out : Bool
  pub duration_ms : ℕ
  pub findings_count : ℕ
  pub findings_by_class : Dict Text ℕ
  pub issue_group_count : ℕ

-- The surroundings during one attempt.
pub record Effects (E : Type 0) : Type 0 where
  -- fs::create_dir_all
  pub create_dir : Text → Result (Unit {0})
  -- native_capability_diagnostics and run_native_with_options
  pub diagnostics : List ObservationDiagnostic
  pub native_run : Text → Result NativeRunResult
  -- started.elapsed() in milliseconds, and current_unix_timestamp
  pub elapsed : ℕ
  pub now : ℕ
  -- load_analysis_metadata, load_findings, binary_has_sanitizer_runtime
  pub analysis : Text → Result NativeRunMetadata
  pub findings : Text → Result (List (Finding E))
  pub sanitizer_runtime : Text → Bool
  -- EscalationRunner::escalate and ::check_clean_binary, each of a new runner
  pub escalate : EscalationConfig → Finding E → Result EscalationResult
  pub check_clean_binary : EscalationConfig → Text → Result EscalationResult
  -- prepare_tool_only_crashpack, write_escalation_results, promote_tool_findings_to_crashpack
  pub prepare_tool_only : Text → Result (Unit {0})
  pub write_results : Text → List EscalationResult → Result (Unit {0})
  pub promote : Text → List EscalationResult → Result (Option CrashpackFindingSnapshot)
  -- write_observation_summary and load_repeat_issue_group_inputs
  pub write_summary : Text → ObservationRunSummary → Result (Unit {0})
  pub issue_group_inputs : RepeatAttemptSummary → Result (List RepeatIssueGroupInput)

-- The surroundings of a repeated run: those of each attempt, the clearing of the attempts'
-- directory before the first, and the writing of the two summaries after the last.
pub record World (E : Type 0) : Type 0 where
  pub clear_attempts : Text → Result (Unit {0})
  pub during : ℕ → Effects E
  pub write_repeat : Text → RepeatRunSummary → Result (Unit {0})
  pub write_run : Text → ObservationRunSummary → Result (Unit {0})

-- `value.min(u64::MAX)`
unfoldable pub u128_to_u64 : ℕ → ℕ
u128_to_u64 value = min value (2 ^ 64 - 1)
