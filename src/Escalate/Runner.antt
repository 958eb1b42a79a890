-- ===== src/Escalate/Runner.antt =====
-- recompile/re-escalate/src/runner.rs: `EscalationRunner`, which asks a tool about a finding or
-- about a binary, and lets the tool rest after that. Instants count nanoseconds.
pub mod Cooldown
pub mod Answers
use recompile.Base.{
  ℕ, ◌+◌, ◌*◌, ◌++◌, Bool, false, Option, none, some, List, [], ◌∷◌, Text, codes, text_eq, ltb,
  ◌==◌, unwrap_or, if◌then◌else◌,
}
use recompile.Base.Order.{text_ord}
use recompile.Base.Dict.{Dict, get, alter}
use recompile.Escalate.Finding.{Finding, EscalationPlan}
use recompile.Escalate.Config.{EscalationConfig}
use recompile.Escalate.Result.{EscalationResult, result_failure}

pub data EscalationError : Type 0 where
  tool_execution compilation timeout config io json output_parsing : Text → EscalationError

pub data Answer : Type 0 where
  answered : EscalationResult → Answer
  refused : EscalationError → Answer

pub record EscalationRunner : Type 0 where
  pub config : EscalationConfig
  pub cooldowns : Dict Text ℕ

abbrev pub new : EscalationConfig → EscalationRunner
new c = record { config = c; cooldowns = [] }

-- The functions that start a tool and read its output, each with the id of the escalation.
pub record Tools (E : Type 0) : Type 0 where
  pub run_asan_result : EscalationConfig → Finding E → Text → Answer
  pub run_lsan_result : EscalationConfig → Finding E → Text → Answer
  pub run_ubsan_result : EscalationConfig → Finding E → Text → Answer
  pub run_valgrind_escalation : EscalationConfig → Finding E → Text → Answer
  pub run_gdb_result : EscalationConfig → Finding E → Text → Answer
  pub run_valgrind_clean_check : EscalationConfig → Text → Answer
  pub run_asan_clean_check : EscalationConfig → Text → Answer
  pub run_lsan_clean_check : EscalationConfig → Text → Answer
  pub run_ubsan_clean_check : EscalationConfig → Text → Answer

-- What one call reads: the instants at which it looks at the cooldown and sets it, the time in
-- between in milliseconds, the time of day, and a fresh id.
pub record Moment : Type 0 where
  pub asked : ℕ
  pub ended : ℕ
  pub elapsed : ℕ
  pub stamp : ℕ
  pub id : Text

unfoldable pub is_in_cooldown : EscalationRunner → Text → ℕ → Bool
is_in_cooldown runner tool now = elim (get tool runner.cooldowns) [
  | none ↦ false
  | some until ↦ ltb now until
]

unfoldable pub effective_cooldown : EscalationRunner → Text → ℕ → ℕ
effective_cooldown runner tool cooldown_ms =
    if cooldown_ms == 0
    then unwrap_or (get tool runner.config.cooldowns.per_tool) runner.config.cooldowns.default_ms
    else cooldown_ms

unfoldable pub update_cooldown : EscalationRunner → Text → ℕ → ℕ → EscalationRunner
update_cooldown runner tool cooldown_ms now =
    let until = now + effective_cooldown runner tool cooldown_ms * 1000000 in
    record runner { cooldowns = alter tool (λ _. until) runner.cooldowns }

pub in_cooldown : Text → EscalationError
in_cooldown tool = config (codes "Tool " ++ tool ++ codes " is in cooldown")

-- `result?`, and the cooldown after it.
pub settle : EscalationRunner → Text → ℕ → ℕ → Answer → EscalationRunner × Answer
unfolding update_cooldown
settle runner tool cooldown_ms ended (answered result) =
    (update_cooldown runner tool cooldown_ms ended, answered result)
settle runner tool cooldown_ms ended (refused error) = (runner, refused error)

module _ {E : Type 0} (tools : Tools E) where
  ask : EscalationConfig → Finding E → Text → Moment → Answer
  unfolding text_eq
  ask c finding tool m =
      if text_eq tool (codes "asan")
      then tools.run_asan_result c finding m.id
      else if text_eq tool (codes "lsan")
      then tools.run_lsan_result c finding m.id
      else if text_eq tool (codes "ubsan")
      then tools.run_ubsan_result c finding m.id
      else if text_eq tool (codes "valgrind")
      then tools.run_valgrind_escalation c finding m.id
      else if text_eq tool (codes "gdb")
      then tools.run_gdb_result c finding m.id
      else answered (
          result_failure finding.id m.id tool false m.elapsed
            (codes "Unknown escalation tool: " ++ tool) m.stamp)

  ask_clean : EscalationConfig → Text → Moment → Answer
  unfolding text_eq
  ask_clean c tool m =
      if text_eq tool (codes "valgrind")
      then tools.run_valgrind_clean_check c m.id
      else if text_eq tool (codes "asan")
      then tools.run_asan_clean_check c m.id
      else if text_eq tool (codes "lsan")
      then tools.run_lsan_clean_check c m.id
      else if text_eq tool (codes "ubsan")
      then tools.run_ubsan_clean_check c m.id
      else answered (
          result_failure (codes "clean-run") m.id tool false m.elapsed
            ((if text_eq tool (codes "gdb")
                then codes "Clean checks are not implemented for "
                else codes "Unknown escalation tool: ")
              ++ tool)
            m.stamp)

  -- The finding's plan is there.
  escalate_planned :
      EscalationRunner → Finding E → EscalationPlan → Moment → EscalationRunner × Answer
  unfolding ask settle in_cooldown
  escalate_planned runner finding plan m =
      if is_in_cooldown runner plan.tool m.asked
      then (runner, refused (in_cooldown plan.tool))
      else settle runner plan.tool plan.cooldown_ms m.ended (ask runner.config finding plan.tool m)

  unfoldable pub escalate : EscalationRunner → Finding E → Moment → EscalationRunner × Answer
  unfolding escalate_planned
  escalate runner finding m = elim finding.escalation [
    | none ↦ (runner, refused (config (codes "No escalation plan in finding")))
    | some plan ↦ escalate_planned runner finding plan m
  ]

  unfoldable pub check_clean_binary : EscalationRunner → Text → Moment → EscalationRunner × Answer
  unfolding ask_clean settle in_cooldown
  check_clean_binary runner tool m =
      if is_in_cooldown runner tool m.asked
      then (runner, refused (in_cooldown tool))
      else settle runner tool 0 m.ended (ask_clean runner.config tool m)
