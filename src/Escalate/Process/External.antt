-- ===== src/Escalate/Process/External.antt =====
-- recompile/re-escalate/src/runner.rs: running a binary under valgrind and under gdb.
use recompile.Base.{ℕ, ◌∷◌, [], ◌++◌, false, some, List, Text, codes, map, if◌then◌else◌}
use recompile.Base.Paths.{path_join}
use recompile.Base.Scan.{join}
use recompile.Escalate.Finding.{Finding}
use recompile.Escalate.Config.{EscalationConfig}
use recompile.Escalate.Runner.{tool_execution}
use recompile.Escalate.Result.{
  EscalationResult, tool_unavailable, result_failure, result_failure_with_status, is_empty,
}
use recompile.Escalate.Tools.Valgrind.{parse_valgrind_output}
use recompile.Escalate.Tools.Gdb.{parse_gdb_output}
use recompile.Escalate.Process.{
  Outcome, done, failed_with, ◌>>>◌, Report, of_valgrind, of_gdb, Command, Ending, exited, late,
  not_found, broken, Surroundings, Files, LogPaths, log_paths, apply_cwd, canonical_binary_path,
  clean_binary, find_binary, write_file, end_late, end_reported,
}

unfoldable pub default_gdb_commands : List Text
default_gdb_commands = map codes (
    "set pagination off" ∷ "set confirm off" ∷ "run" ∷ "bt full" ∷ "info registers"
    ∷ "thread apply all bt" ∷ "quit" ∷ [])

module _ (env : Surroundings) where
  -- How the process of an external tool ended.
  unfoldable pub end_external :
      Text
      → Text
      → Text
      → ℕ
      → List Text
      → LogPaths
      → Files
      → (Text → Text → Report)
      → Ending
      → Outcome (Files × EscalationResult)
  unfolding result_failure_with_status
  end_external finding_id id tool timeout_ms command paths files parse late =
      end_late env finding_id id tool timeout_ms command paths files
  end_external finding_id id tool timeout_ms command paths files parse (not_found message) = done (
    files,
    result_failure_with_status finding_id id tool tool_unavailable false env.elapsed
        (some timeout_ms) (tool ++ codes " not found in PATH") env.stamp,
  )
  end_external finding_id id tool timeout_ms command paths files parse (broken message) =
      failed_with (tool_execution message)
  end_external finding_id id tool timeout_ms command paths files parse (exited code out err) =
      end_reported env finding_id id tool timeout_ms command paths files code out err
        (parse out err)

  unfoldable pub run_valgrind_binary :
      EscalationConfig → Text → Text → Text → Outcome (Files × EscalationResult)
  unfolding end_external log_paths apply_cwd
  run_valgrind_binary c finding_id binary_path id =
      let paths = log_paths c (codes "valgrind") id in
      let args = c.tools.valgrind.flags ++ canonical_binary_path env binary_path ∷ c.args in
      let process : Command = record {
        program = codes "valgrind";
        args = args;
        env = [];
        current_dir = c.cwd;
      } in
      env.create_dir paths.dir >>> λ _.
      end_external finding_id id (codes "valgrind") c.tools.valgrind.timeout_ms
        (apply_cwd c (codes "valgrind" ∷ args)) paths []
        (λ out err. of_valgrind (parse_valgrind_output out err))
        (env.run process c.tools.valgrind.timeout_ms)

  unfoldable pub run_valgrind_escalation :
      {E : Type 0} → EscalationConfig → Finding E → Text → Outcome (Files × EscalationResult)
  unfolding run_valgrind_binary result_failure
  run_valgrind_escalation c finding id =
      if c.tools.valgrind.enabled
      then (find_binary env c finding >>> λ binary_path.
          run_valgrind_binary c finding.id binary_path id)
      else done (
        [],
        result_failure finding.id id (codes "valgrind") false env.elapsed
            (codes "Valgrind escalation is disabled") env.stamp,
      )

  unfoldable pub run_valgrind_clean_check :
      EscalationConfig → Text → Outcome (Files × EscalationResult)
  unfolding run_valgrind_binary result_failure
  run_valgrind_clean_check c id =
      if c.tools.valgrind.enabled
      then (clean_binary env c (codes "Clean Valgrind check requires an existing binary_path")
          >>> λ binary_path. run_valgrind_binary c (codes "clean-run") binary_path id)
      else done (
        [],
        result_failure (codes "clean-run") id (codes "valgrind") false env.elapsed
            (codes "Valgrind escalation is disabled") env.stamp,
      )

  unfoldable pub gdb_script : EscalationConfig → Text
  unfolding default_gdb_commands join
  gdb_script c =
      if is_empty c.tools.gdb.commands
      then join (10 ∷ []) default_gdb_commands
      else join (10 ∷ []) c.tools.gdb.commands

  unfoldable pub run_gdb_binary :
      EscalationConfig → Text → Text → Text → Outcome (Files × EscalationResult)
  unfolding end_external log_paths apply_cwd gdb_script write_file
  run_gdb_binary c finding_id binary_path id =
      let paths = log_paths c (codes "gdb") id in
      let script_file = path_join paths.dir (codes "gdb_script_" ++ id ++ codes ".gdb") in
      let args =
        map codes ("-q" ∷ "-batch" ∷ "-x" ∷ [])
        ++ script_file ∷ codes "--args" ∷ canonical_binary_path env binary_path ∷ c.args in
      let process : Command = record {
        program = codes "gdb";
        args = args;
        env = [];
        current_dir = c.cwd;
      } in
      env.create_dir paths.dir >>> λ _. write_file env script_file (gdb_script c) [] >>> λ files.
      end_external finding_id id (codes "gdb") c.tools.gdb.timeout_ms
        (apply_cwd c (codes "gdb" ∷ args)) paths files
        (λ out err. of_gdb (parse_gdb_output out err)) (env.run process c.tools.gdb.timeout_ms)

  unfoldable pub run_gdb_result :
      {E : Type 0} → EscalationConfig → Finding E → Text → Outcome (Files × EscalationResult)
  unfolding run_gdb_binary result_failure
  run_gdb_result c finding id =
      if c.tools.gdb.enabled
      then (find_binary env c finding >>> λ binary_path. run_gdb_binary c finding.id binary_path id)
      else done (
        [],
        result_failure finding.id id (codes "gdb") false env.elapsed
            (codes "GDB escalation is disabled") env.stamp,
      )
