-- ===== src/Escalate/Process.antt =====
-- recompile/re-escalate/src/runner.rs: starting a tool, keeping its output and reporting on it.
-- What the functions call outside is a record of functions; the files that they write are returned.
pub mod Sanitizers
pub mod External
pub mod Dispatch
pub mod Consistent
pub mod Answering
pub mod Sound
use recompile.Base.{
  ℕ, ℤ, ◌∷◌, [], ◌++◌, ◌>>=◌, Bool, true, not, Option, none, some, List, Text, codes, map, or_else,
  unwrap_or, opt_map, if◌then◌else◌,
}
use recompile.Base.Paths.{path_join}
use recompile.Base.Decimal.{decimal}
use recompile.Escalate.Finding.{Finding}
use recompile.Escalate.Config.{EscalationConfig}
use recompile.Escalate.Runner.{EscalationError, tool_execution, config, io}
use recompile.Escalate.Result.{
  EscalationResult, EscalationStatus, EscalationDetection, is_empty, timeout_result,
  successful_status,
}
use recompile.Escalate.Tools.{confirmed, detected_classes}
use recompile.Escalate.Tools.Asan.{AsanReport}
use recompile.Escalate.Tools.Lsan.{LsanReport}
use recompile.Escalate.Tools.Ubsan.{UbsanReport}
use recompile.Escalate.Tools.Valgrind.{ValgrindReport}
use recompile.Escalate.Tools.Gdb.{GdbReport}

-- `Result<A>` of the crate.
pub data Outcome (A : Type 0) : Type 0 where
  done : A → Outcome A
  failed_with : EscalationError → Outcome A

infixl 5 ◌>>>◌
-- `m?` followed by the rest of the function.
abbrev pub ◌>>>◌ : {A B : Type 0} → Outcome A → (A → Outcome B) → Outcome B
done a >>> f = f a
failed_with e >>> f = failed_with e

pub data Report : Type 0 where
  of_asan : AsanReport → Report
  of_lsan : LsanReport → Report
  of_ubsan : UbsanReport → Report
  of_valgrind : ValgrindReport → Report
  of_gdb : GdbReport → Report

unfoldable pub report_detected : Report → List EscalationDetection
report_detected (of_asan r) = r.detected
report_detected (of_lsan r) = r.detected
report_detected (of_ubsan r) = r.detected
report_detected (of_valgrind r) = r.detected
report_detected (of_gdb r) = r.detected

-- `report.confirmed()`, and gdb's `report.confirmed`.
unfoldable pub report_confirmed : Report → Bool
unfolding report_detected
report_confirmed (of_gdb r) = r.confirmed
report_confirmed report = confirmed (report_detected report)

-- What a process is started with.
pub record Command : Type 0 where
  pub program : Text
  pub args : List Text
  pub env : List (Text × Text)
  pub current_dir : Option Text

-- How `timeout(limit, cmd.output())` ends: with an exit code and the two streams as text, too
-- late, or with an error, of the kind NotFound or another.
pub data Ending : Type 0 where
  exited : Option ℤ → Text → Text → Ending
  late : Ending
  not_found broken : Text → Ending

pub record Surroundings : Type 0 where
  -- Path::exists, fs::canonicalize, fs::read as text
  pub exists : Text → Bool
  pub canonicalize : Text → Option Text
  pub read : Text → Outcome Text
  -- fs::create_dir_all and fs::write
  pub create_dir : Text → Outcome (Unit {0})
  pub write : Text → Text → Outcome (Unit {0})
  -- serde_json::to_vec_pretty
  pub to_json : Report → Outcome Text
  pub run : Command → ℕ → Ending
  -- start_time.elapsed() in milliseconds, and unix_timestamp()
  pub elapsed : ℕ
  pub stamp : ℕ

-- The files written, with what is in them.
abbrev pub Files : Type 0
Files = List (Text × Text)

pub record LogPaths : Type 0 where
  pub dir : Text
  pub stdout_file : Text
  pub stderr_file : Text
  pub report_file : Text

unfoldable pub log_paths : EscalationConfig → Text → Text → LogPaths
log_paths c tool id =
    let dir = path_join c.output_dir tool in
    let stem = tool ++ codes "_" ++ id in
    record {
      dir = dir;
      stdout_file = path_join dir (stem ++ codes ".stdout.log");
      stderr_file = path_join dir (stem ++ codes ".stderr.log");
      report_file = path_join dir (stem ++ codes ".json");
    }

-- The recorded command, with the directory in front of it if there is one.
unfoldable pub apply_cwd : EscalationConfig → List Text → List Text
apply_cwd c command = elim c.cwd [ none ↦ command | some cwd ↦ codes "cwd" ∷ cwd ∷ command ]

module _ (env : Surroundings) where
  unfoldable pub canonical_binary_path : Text → Text
  canonical_binary_path binary_path = unwrap_or (env.canonicalize binary_path) binary_path

  -- `path.filter(|path| path.exists())`
  unfoldable pub existing : Option Text → Option Text
  existing path = path >>= λ p. if env.exists p then some p else none

  unfoldable pub find_binary : {E : Type 0} → EscalationConfig → Finding E → Outcome Text
  unfolding existing
  find_binary c finding = elim (existing (finding.provenance >>= λ p. p.binary_path)) [
    | some path ↦ done path
    | none ↦ elim (existing (finding.provenance >>= λ p. p.original_binary_path)) [
      | some path ↦ done path
      | none ↦ elim (existing c.binary_path) [
        | some path ↦ done path
        | none ↦ failed_with (config (codes "Could not find binary for finding " ++ finding.id))
      ]
    ]
  ]

  -- The configured binary of a clean check, with what the error says without one.
  unfoldable pub clean_binary : EscalationConfig → Text → Outcome Text
  unfolding existing
  clean_binary c message = elim (existing c.binary_path) [
    | none ↦ failed_with (config message)
    | some path ↦ done path
  ]

  unfoldable pub write_file : Text → Text → Files → Outcome Files
  write_file path text files = env.write path text >>> λ _. done (files ++ (path, text) ∷ [])

  -- The process ran out of time.
  unfoldable pub end_late :
      Text → Text → Text → ℕ → List Text → LogPaths → Files → Outcome (Files × EscalationResult)
  unfolding write_file timeout_result
  end_late finding_id id tool timeout_ms command paths files =
      write_file paths.stdout_file [] files >>> λ files.
      write_file paths.stderr_file
        (tool ++ codes " execution timed out after " ++ decimal timeout_ms ++ codes "ms\n") files
      >>> λ files. done (
        files,
        timeout_result finding_id id tool timeout_ms env.elapsed command (some paths.stdout_file)
            (some paths.stderr_file) env.stamp,
      )

  -- The result of a process that has ended.
  unfoldable pub reported :
      Text → Text → Text → ℕ → List Text → LogPaths → Option ℤ → Report → EscalationResult
  unfolding report_confirmed report_detected detected_classes successful_status
  reported finding_id id tool timeout_ms command paths code report =
      let findings_detected = detected_classes (report_detected report) in
      record {
        id = id;
        finding_id = finding_id;
        tool = tool;
        status = successful_status (report_confirmed report) findings_detected;
        success = true;
        tool_available = true;
        duration_ms = env.elapsed;
        timeout_ms = some timeout_ms;
        output_path = some paths.report_file;
        stdout_path = some paths.stdout_file;
        stderr_path = some paths.stderr_file;
        report_path = some paths.report_file;
        command = command;
        exit_code = code;
        confirmed = report_confirmed report;
        error = none;
        findings_detected = findings_detected;
        timestamp = env.stamp;
      }

  -- The process has ended: its output and the report are written.
  unfoldable pub end_reported :
      Text
      → Text
      → Text
      → ℕ
      → List Text
      → LogPaths
      → Files
      → Option ℤ
      → Text
      → Text
      → Report
      → Outcome (Files × EscalationResult)
  unfolding write_file reported
  end_reported finding_id id tool timeout_ms command paths files code stdout stderr report =
      write_file paths.stdout_file stdout files >>> λ files.
      write_file paths.stderr_file stderr files >>> λ files. env.to_json report >>> λ json.
      write_file paths.report_file json files >>> λ files.
      done (files, reported finding_id id tool timeout_ms command paths code report)
