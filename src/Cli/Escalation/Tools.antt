-- ===== src/Cli/Escalation/Tools.antt =====
-- recompile/rerun/src/cli.rs: the observer with the runner of recompile/re-escalate/src/runner.rs, a new
-- one for each call.
use recompile.Base.{Text, codes, ◌++◌}
use recompile.Escalate.Config.{EscalationConfig}
use recompile.Escalate.Finding.{Finding}
use recompile.Escalate.Result.{EscalationResult}
use recompile.Escalate.Runner.{
  EscalationError, tool_execution, compilation, timeout, config, io, json, output_parsing, Moment,
  Answer, answered, refused, new, escalate, check_clean_binary,
}
use recompile.Escalate.Process.{Surroundings}
use recompile.Escalate.Process.Consistent.{Consistent}
use recompile.Escalate.Process.Dispatch.{tools_in}
use recompile.Escalate.Runner.Answers.{ConsistentAnswer, escalate-Consistent, check-Consistent}
use recompile.Cli.Policy.{Result, ok, err}
use recompile.Cli.Ensures.{Ensures}
use recompile.Cli.Effects.{Effects}

-- `error.to_string()`
unfoldable pub error_text : EscalationError → Text
error_text (tool_execution e) = codes "Tool execution failed: " ++ e
error_text (compilation e) = codes "Compilation failed: " ++ e
error_text (timeout e) = codes "Timeout exceeded: " ++ e
error_text (config e) = codes "Configuration error: " ++ e
error_text (io e) = codes "IO error: " ++ e
error_text (json e) = codes "JSON serialization error: " ++ e
error_text (output_parsing e) = codes "Output parsing error: " ++ e

abbrev pub of_answer : Answer → Result EscalationResult
of_answer (answered r) = ok r
of_answer (refused e) = err (error_text e)

answer-Ensures : (a : Answer) → ConsistentAnswer a → Ensures Consistent (of_answer a)
unfolding Ensures
answer-Ensures (answered r) h = h
answer-Ensures (refused e) h = tt

module _ {E : Type 0} (env : Text → Surroundings) (asked : Finding E → Moment)
    (asked_clean : Text → Moment) where
  -- The surroundings in which the runner starts the tools, at some moments.
  unfoldable pub with_runner : Effects E → Effects E
  with_runner eff = record eff {
    escalate = λ c f. of_answer (escalate (tools_in env) (new c) f (asked f)).1;
    check_clean_binary = λ c tool.
        of_answer (check_clean_binary (tools_in {E = E} env) (new c) tool (asked_clean tool)).1;
  }

  pub escalates :
      (eff : Effects E) (c : EscalationConfig) (f : Finding E)
      → Ensures Consistent ((with_runner eff).escalate c f)
  unfolding with_runner
  escalates eff c f = answer-Ensures _ (escalate-Consistent E env (new c) f (codes "") (asked f)).0

  pub checks :
      (eff : Effects E) (c : EscalationConfig) (tool : Text)
      → Ensures Consistent ((with_runner eff).check_clean_binary c tool)
  unfolding with_runner
  checks eff c tool = answer-Ensures _ (check-Consistent E env (new c) tool (asked_clean tool))
