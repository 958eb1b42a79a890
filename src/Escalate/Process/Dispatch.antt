-- ===== src/Escalate/Process/Dispatch.antt =====
-- recompile/re-escalate/src/runner.rs: the functions that the runner starts a tool with.
use recompile.Base.{Text}
use recompile.Escalate.Finding.{Finding}
use recompile.Escalate.Config.{EscalationConfig}
use recompile.Escalate.Result.{EscalationResult}
use recompile.Escalate.Runner.{Tools, Answer, answered, refused}
use recompile.Escalate.Process.{Outcome, done, failed_with, Surroundings, Files}
use recompile.Escalate.Process.Sanitizers.{
  Setting, asan, lsan, ubsan, run_sanitizer_binary, run_sanitizer_result, run_sanitizer_clean_check,
}
use recompile.Escalate.Process.External.{
  run_valgrind_escalation, run_valgrind_clean_check, run_gdb_result,
}

abbrev pub asan_setting : EscalationConfig → Setting
asan_setting c = record {
  enabled = c.tools.asan.enabled;
  timeout_ms = c.tools.asan.timeout_ms;
  runtime_flags = c.tools.asan.runtime_flags;
}

abbrev pub lsan_setting : EscalationConfig → Setting
lsan_setting c = record {
  enabled = c.tools.lsan.enabled;
  timeout_ms = c.tools.lsan.timeout_ms;
  runtime_flags = c.tools.lsan.runtime_flags;
}

abbrev pub ubsan_setting : EscalationConfig → Setting
ubsan_setting c = record {
  enabled = c.tools.ubsan.enabled;
  timeout_ms = c.tools.ubsan.timeout_ms;
  runtime_flags = c.tools.ubsan.runtime_flags;
}

-- The functions for each sanitizer.
abbrev pub run_asan_binary :
    Surroundings → EscalationConfig → Text → Text → Text → Outcome (Files × EscalationResult)
run_asan_binary env c finding_id binary_path id =
    run_sanitizer_binary env asan c (asan_setting c) finding_id binary_path id

abbrev pub run_asan_result :
    {E : Type 0}
    → Surroundings
    → EscalationConfig
    → Finding E
    → Text
    → Outcome (Files × EscalationResult)
run_asan_result env c finding id = run_sanitizer_result env asan c (asan_setting c) finding id

abbrev pub run_asan_clean_check :
    Surroundings → EscalationConfig → Text → Outcome (Files × EscalationResult)
run_asan_clean_check env c id = run_sanitizer_clean_check env asan c (asan_setting c) id

abbrev pub run_lsan_binary :
    Surroundings → EscalationConfig → Text → Text → Text → Outcome (Files × EscalationResult)
run_lsan_binary env c finding_id binary_path id =
    run_sanitizer_binary env lsan c (lsan_setting c) finding_id binary_path id

abbrev pub run_lsan_result :
    {E : Type 0}
    → Surroundings
    → EscalationConfig
    → Finding E
    → Text
    → Outcome (Files × EscalationResult)
run_lsan_result env c finding id = run_sanitizer_result env lsan c (lsan_setting c) finding id

abbrev pub run_lsan_clean_check :
    Surroundings → EscalationConfig → Text → Outcome (Files × EscalationResult)
run_lsan_clean_check env c id = run_sanitizer_clean_check env lsan c (lsan_setting c) id

abbrev pub run_ubsan_binary :
    Surroundings → EscalationConfig → Text → Text → Text → Outcome (Files × EscalationResult)
run_ubsan_binary env c finding_id binary_path id =
    run_sanitizer_binary env ubsan c (ubsan_setting c) finding_id binary_path id

abbrev pub run_ubsan_result :
    {E : Type 0}
    → Surroundings
    → EscalationConfig
    → Finding E
    → Text
    → Outcome (Files × EscalationResult)
run_ubsan_result env c finding id = run_sanitizer_result env ubsan c (ubsan_setting c) finding id

abbrev pub run_ubsan_clean_check :
    Surroundings → EscalationConfig → Text → Outcome (Files × EscalationResult)
run_ubsan_clean_check env c id = run_sanitizer_clean_check env ubsan c (ubsan_setting c) id

-- The result without the files that have been written.
abbrev pub answer : Outcome (Files × EscalationResult) → Answer
answer (done r) = answered r.1
answer (failed_with e) = refused e

-- The surroundings may differ from call to call, which an id tells apart.
unfoldable pub tools_in : {E : Type 0} → (Text → Surroundings) → Tools E
unfolding asan lsan ubsan
tools_in env = record {
  run_asan_result = λ c finding id. answer (run_asan_result (env id) c finding id);
  run_lsan_result = λ c finding id. answer (run_lsan_result (env id) c finding id);
  run_ubsan_result = λ c finding id. answer (run_ubsan_result (env id) c finding id);
  run_valgrind_escalation = λ c finding id. answer (run_valgrind_escalation (env id) c finding id);
  run_gdb_result = λ c finding id. answer (run_gdb_result (env id) c finding id);
  run_valgrind_clean_check = λ c id. answer (run_valgrind_clean_check (env id) c id);
  run_asan_clean_check = λ c id. answer (run_asan_clean_check (env id) c id);
  run_lsan_clean_check = λ c id. answer (run_lsan_clean_check (env id) c id);
  run_ubsan_clean_check = λ c id. answer (run_ubsan_clean_check (env id) c id);
}
