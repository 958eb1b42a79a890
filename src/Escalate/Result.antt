-- ===== src/Escalate/Result.antt =====
-- recompile/re-escalate/src/lib.rs: the result of one escalation, and runner.rs: the results of
-- runs that fail, time out or end.
use recompile.Base.{
  ℕ, ℤ, ◌++◌, ◌||◌, not, Bool, true, false, Option, none, some, List, [], ◌∷◌, Text, codes,
  if◌then◌else◌,
}
use recompile.Base.Decimal.{decimal}

pub data EscalationStatus : Type 0 where
  clean findings failed timeout skipped tool_unavailable not_applicable : EscalationStatus

pub record EscalationResult : Type 0 where
  pub id : Text
  pub finding_id : Text
  pub tool : Text
  pub status : EscalationStatus
  pub success : Bool
  pub tool_available : Bool
  pub duration_ms : ℕ
  pub timeout_ms : Option ℕ
  pub output_path : Option Text
  pub stdout_path : Option Text
  pub stderr_path : Option Text
  pub report_path : Option Text
  pub command : List Text
  pub exit_code : Option ℤ
  pub confirmed : Bool
  pub error : Option Text
  pub findings_detected : List Text
  pub timestamp : ℕ

pub record EscalationDetection : Type 0 where
  pub class : Text
  pub summary : Text
  pub line : Option ℕ

abbrev pub is_empty {ℓ} : {A : Type ℓ} → List A → Bool
is_empty [] = true
is_empty (x ∷ xs) = false

-- The clock is read at the end: `timestamp` is `unix_timestamp()`.
unfoldable pub result_failure_with_status :
    Text → Text → Text → EscalationStatus → Bool → ℕ → Option ℕ → Text → ℕ → EscalationResult
result_failure_with_status finding_id id tool status available duration timeout_ms error now =
    record {
      id = id;
      finding_id = finding_id;
      tool = tool;
      status = status;
      success = false;
      tool_available = available;
      duration_ms = duration;
      timeout_ms = timeout_ms;
      output_path = none;
      stdout_path = none;
      stderr_path = none;
      report_path = none;
      command = [];
      exit_code = none;
      confirmed = false;
      error = some error;
      findings_detected = [];
      timestamp = now;
    }

unfoldable pub result_failure : Text → Text → Text → Bool → ℕ → Text → ℕ → EscalationResult
unfolding result_failure_with_status
result_failure finding_id id tool available duration error now =
    result_failure_with_status finding_id id tool failed available duration none error now

unfoldable pub timeout_result :
    Text → Text → Text → ℕ → ℕ → List Text → Option Text → Option Text → ℕ → EscalationResult
timeout_result finding_id id tool timeout_ms duration command stdout_path stderr_path now = record {
  id = id;
  finding_id = finding_id;
  tool = tool;
  status = timeout;
  success = false;
  tool_available = true;
  duration_ms = duration;
  timeout_ms = some timeout_ms;
  output_path = none;
  stdout_path = stdout_path;
  stderr_path = stderr_path;
  report_path = none;
  command = command;
  exit_code = none;
  confirmed = false;
  error = some (tool ++ codes " execution timed out after " ++ decimal timeout_ms ++ codes "ms");
  findings_detected = [];
  timestamp = now;
}

unfoldable pub successful_status : Bool → List Text → EscalationStatus
successful_status confirmed detected =
    if confirmed || not (is_empty detected) then findings else clean
