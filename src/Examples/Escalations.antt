-- ===== src/Examples/Escalations.antt =====
-- The theorem on the escalation runner at sample data.
use recompile.Base.{ℕ, ◌≡◌, refl, ◌*◌, none, [], ◌∷◌, codes}
use recompile.Base.Order.{text_cmp}
use recompile.Base.Dict.{get}
use recompile.Escalate.Finding.{Finding, EscalationPlan}
use recompile.Escalate.Config.{default_config}
use recompile.Escalate.Result.{EscalationStatus}
use recompile.Escalate.Runner.{
  EscalationRunner, Tools, Moment, answered, refused, in_cooldown, new, escalate, is_in_cooldown,
  effective_cooldown,
}
use recompile.Escalate.Runner.Cooldown.{Call, of_finding, of_binary, play, play_all, tool_rests}
use recompile.Examples.{tool_result}

abbrev pub sample_finding : Finding (Unit {0})
sample_finding = record {
  schema_version = codes "1.0";
  id = codes "F-1";
  class = codes "double_free";
  confidence = codes "high";
  severity = codes "high";
  timestamp = 0;
  pid = 7;
  evidence = tt;
  escalation = none;
  provenance = none;
  related = [];
}

abbrev pub sample_plan : EscalationPlan
sample_plan = record {
  tool = codes "valgrind";
  reason = codes "confirm";
  estimated_cost = codes "medium";
  cooldown_ms = 2000;
}

abbrev sample_tools : Tools (Unit {0})
sample_tools = record {
  run_asan_result = λ c finding id. answered (tool_result (codes "asan") EscalationStatus.clean);
  run_lsan_result = λ c finding id. answered (tool_result (codes "lsan") EscalationStatus.clean);
  run_ubsan_result = λ c finding id. answered (tool_result (codes "ubsan") EscalationStatus.clean);
  run_valgrind_escalation =
      λ c finding id. answered (tool_result (codes "valgrind") EscalationStatus.findings);
  run_gdb_result = λ c finding id. answered (tool_result (codes "gdb") EscalationStatus.clean);
  run_valgrind_clean_check =
      λ c id. answered (tool_result (codes "valgrind") EscalationStatus.clean);
  run_asan_clean_check = λ c id. answered (tool_result (codes "asan") EscalationStatus.clean);
  run_lsan_clean_check = λ c id. answered (tool_result (codes "lsan") EscalationStatus.clean);
  run_ubsan_clean_check = λ c id. answered (tool_result (codes "ubsan") EscalationStatus.clean);
}

abbrev pub at_second : ℕ → Moment
at_second n = record {
  asked = n * 1000000000;
  ended = n * 1000000000;
  elapsed = 0;
  stamp = n;
  id = codes "id";
}

abbrev first_call : Call (Unit {0})
first_call = of_finding sample_finding sample_plan (at_second 1)

abbrev between : Call (Unit {0})
between = of_binary (codes "asan") (at_second 2)

abbrev early : Call (Unit {0})
early = of_binary (codes "valgrind") (at_second 2)

abbrev rested : EscalationRunner
rested = play_all sample_tools (play sample_tools (new default_config) first_call).0 (between ∷ [])

-- One second after a cooldown of two seconds began, valgrind is still at rest.
tool_rests_example :
    play sample_tools rested early ≡ (rested, refused (in_cooldown (codes "valgrind")))
unfolding play escalate is_in_cooldown get text_cmp effective_cooldown
tool_rests_example =
    tool_rests sample_tools (new default_config) first_call (between ∷ []) early refl (refl, tt)
      refl
