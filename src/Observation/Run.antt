-- ===== src/Observation/Run.antt =====
-- recompile/rerun/src/observation.rs: `ObservationRunSummary` and the totals over its targets.
pub mod Totals
pub mod Classes
use recompile.Base.{ℕ, ◌++◌, unwrap_or, List, [], ◌∷◌, Text, codes, length}
use recompile.Base.Order.{text_ord}
use recompile.Base.Dict.{Dict, alter}
use recompile.Base.Tally.{bump, tally}
use recompile.Observation.Status.{as_str}
use recompile.Observation.Target.{ObservationTargetSummary, ObservationEscalationSummary}

unfoldable pub status_totals : List ObservationTargetSummary → Dict Text ℕ
status_totals targets = tally (λ target. as_str target.status) (λ _. 1) [] targets

-- The inner loop of the two totals by class: `for (class, count) in &findings_by_class`.
unfoldable pub add_classes : Dict Text ℕ → Dict Text ℕ → Dict Text ℕ
add_classes totals by_class = tally (λ entry. entry.0) (λ entry. entry.1) totals by_class

add_targets : Dict Text ℕ → List ObservationTargetSummary → Dict Text ℕ
add_targets totals [] = totals
add_targets totals (target ∷ targets) =
    add_targets (add_classes totals target.findings_by_class) targets

unfoldable pub finding_totals_by_class : List ObservationTargetSummary → Dict Text ℕ
unfolding add_targets
finding_totals_by_class targets = add_targets [] targets

count_escalations :
    Dict Text (Dict Text ℕ) → List ObservationEscalationSummary → Dict Text (Dict Text ℕ)
count_escalations totals [] = totals
count_escalations totals (e ∷ es) =
    count_escalations (alter e.tool (λ old. bump (as_str e.status) 1 (unwrap_or old [])) totals) es

add_escalations : Dict Text (Dict Text ℕ) → List ObservationTargetSummary → Dict Text (Dict Text ℕ)
unfolding count_escalations
add_escalations totals [] = totals
add_escalations totals (target ∷ targets) =
    add_escalations (count_escalations totals target.escalation) targets

unfoldable pub escalation_totals_by_tool : List ObservationTargetSummary → Dict Text (Dict Text ℕ)
unfolding add_escalations
escalation_totals_by_tool targets = add_escalations [] targets

pub record ObservationRunSummary : Type 0 where
  pub schema_version : Text
  pub purpose : Text
  pub output_root : Text
  pub target_count : ℕ
  pub status_totals : Dict Text ℕ
  pub finding_totals_by_class : Dict Text ℕ
  pub escalation_totals_by_tool : Dict Text (Dict Text ℕ)
  pub targets : List ObservationTargetSummary
  pub next_commands : List Text

unfoldable pub new_run : Text → List ObservationTargetSummary → List Text → ObservationRunSummary
new_run output_root targets next_commands = record {
  schema_version = codes "1.0";
  purpose = codes "local_runtime_observation";
  output_root = output_root;
  target_count = length targets;
  status_totals = status_totals targets;
  finding_totals_by_class = finding_totals_by_class targets;
  escalation_totals_by_tool = escalation_totals_by_tool targets;
  targets = targets;
  next_commands = next_commands;
}
