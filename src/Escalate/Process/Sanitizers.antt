-- ===== src/Escalate/Process/Sanitizers.antt =====
-- recompile/re-escalate/src/runner.rs: running a binary that is built with a sanitizer. The
-- functions for the three sanitizers differ in the names that a `Sanitizer` holds.
use recompile.Base.{
  ℕ, ◌∷◌, [], ◌++◌, Bool, true, false, some, List, Text, codes, any, if◌then◌else◌,
}
use recompile.Base.Scan.{contains, join}
use recompile.Escalate.Finding.{Finding}
use recompile.Escalate.Config.{EscalationConfig}
use recompile.Escalate.Runner.{tool_execution}
use recompile.Escalate.Result.{
  EscalationResult, not_applicable, result_failure, result_failure_with_status,
}
use recompile.Escalate.Tools.Asan.{parse_asan_output}
use recompile.Escalate.Tools.Lsan.{parse_lsan_output}
use recompile.Escalate.Tools.Ubsan.{parse_ubsan_output}
use recompile.Escalate.Process.{
  Outcome, done, failed_with, ◌>>>◌, Report, of_asan, of_lsan, of_ubsan, Command, Ending, exited,
  late, not_found, broken, Surroundings, Files, LogPaths, log_paths, apply_cwd,
  canonical_binary_path, clean_binary, find_binary, end_late, end_reported,
}

pub record Sanitizer : Type 0 where
  pub name : Text
  pub title : Text
  pub flag : Text
  -- the environment variable for the runtime flags
  pub variable : Text
  -- what the file of a binary holds that is built with it
  pub traces : List Text
  pub parse : Text → Text → Report

unfoldable pub asan : Sanitizer
asan = record {
  name = codes "asan";
  title = codes "ASan";
  flag = codes "address";
  variable = codes "ASAN_OPTIONS";
  traces = codes "__asan_" ∷ codes "libasan" ∷ codes "AddressSanitizer" ∷ [];
  parse = λ out err. of_asan (parse_asan_output out err);
}

unfoldable pub lsan : Sanitizer
lsan = record {
  name = codes "lsan";
  title = codes "LSan";
  flag = codes "leak";
  variable = codes "LSAN_OPTIONS";
  traces = codes "__lsan_" ∷ codes "liblsan" ∷ codes "LeakSanitizer" ∷ [];
  parse = λ out err. of_lsan (parse_lsan_output out err);
}

unfoldable pub ubsan : Sanitizer
ubsan = record {
  name = codes "ubsan";
  title = codes "UBSan";
  flag = codes "undefined";
  variable = codes "UBSAN_OPTIONS";
  traces = codes "__ubsan_" ∷ codes "libubsan" ∷ codes "UndefinedBehaviorSanitizer" ∷ [];
  parse = λ out err. of_ubsan (parse_ubsan_output out err);
}

-- The part of a tool's configuration that they read.
pub record Setting : Type 0 where
  pub enabled : Bool
  pub timeout_ms : ℕ
  pub runtime_flags : List Text

module _ (env : Surroundings) (s : Sanitizer) where
  unfoldable pub looks_instrumented : Text → Outcome Bool
  looks_instrumented binary_path =
      env.read binary_path >>> λ haystack. done (any (λ trace. contains trace haystack) s.traces)

  -- The process with the runtime flags.
  unfoldable pub sanitizer_command : EscalationConfig → Setting → Text → Command
  unfolding join
  sanitizer_command c setting executable = record {
    program = executable;
    args = c.args;
    env = (s.variable, join (b':' ∷ []) setting.runtime_flags) ∷ [];
    current_dir = c.cwd;
  }

  -- How the process of the binary ended.
  unfoldable pub end_instrumented :
      Text → Text → ℕ → List Text → LogPaths → Ending → Outcome (Files × EscalationResult)
  end_instrumented finding_id id timeout_ms command paths late =
      end_late env finding_id id s.name timeout_ms command paths []
  end_instrumented finding_id id timeout_ms command paths (not_found message) =
      failed_with (tool_execution message)
  end_instrumented finding_id id timeout_ms command paths (broken message) =
      failed_with (tool_execution message)
  end_instrumented finding_id id timeout_ms command paths (exited code out err) =
      end_reported env finding_id id s.name timeout_ms command paths [] code out err
        (s.parse out err)

  -- The binary is built with the sanitizer.
  unfoldable pub run_instrumented :
      EscalationConfig → Setting → Text → Text → Text → Outcome (Files × EscalationResult)
  unfolding log_paths apply_cwd end_instrumented
  run_instrumented c setting finding_id binary_path id =
      let paths = log_paths c s.name id in
      let executable = canonical_binary_path env binary_path in
      env.create_dir paths.dir >>> λ _.
      end_instrumented finding_id id setting.timeout_ms (apply_cwd c (executable ∷ c.args)) paths
        (env.run (sanitizer_command c setting executable) setting.timeout_ms)

  unfoldable pub run_sanitizer_binary :
      EscalationConfig → Setting → Text → Text → Text → Outcome (Files × EscalationResult)
  unfolding looks_instrumented run_instrumented result_failure_with_status
  run_sanitizer_binary c setting finding_id binary_path id =
      looks_instrumented binary_path >>> λ instrumented.
      if instrumented
      then run_instrumented c setting finding_id binary_path id
      else done (
        [],
        result_failure_with_status finding_id id s.name not_applicable true env.elapsed
            (some setting.timeout_ms)
            (s.title
              ++ codes " requires a binary built with -fsanitize="
              ++ s.flag
              ++ codes ": "
              ++ binary_path)
            env.stamp,
      )

  -- The tool is switched off.
  unfoldable pub disabled : Text → Text → Outcome (Files × EscalationResult)
  unfolding result_failure
  disabled finding_id id = done (
    [],
    result_failure finding_id id s.name false env.elapsed
        (s.title ++ codes " escalation is disabled") env.stamp,
  )

  unfoldable pub run_sanitizer_result :
      {E : Type 0}
      → EscalationConfig
      → Setting
      → Finding E
      → Text
      → Outcome (Files × EscalationResult)
  unfolding run_sanitizer_binary disabled
  run_sanitizer_result c setting finding id =
      if setting.enabled
      then (find_binary env c finding >>> λ binary_path.
          run_sanitizer_binary c setting finding.id binary_path id)
      else disabled finding.id id

  unfoldable pub run_sanitizer_clean_check :
      EscalationConfig → Setting → Text → Outcome (Files × EscalationResult)
  unfolding run_sanitizer_binary disabled
  run_sanitizer_clean_check c setting id =
      if setting.enabled
      then (clean_binary env c
            (codes "Clean " ++ s.title ++ codes " check requires an existing binary_path")
          >>> λ binary_path. run_sanitizer_binary c setting (codes "clean-run") binary_path id)
      else disabled (codes "clean-run") id
