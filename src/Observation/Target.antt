-- ===== src/Observation/Target.antt =====
-- recompile/rerun/src/observation.rs: what a run records of one target.
use recompile.Base.{ℕ, ℤ, ◌++◌, Bool, false, Option, none, some, List, [], Text, codes}
use recompile.Base.Dict.{Dict}
use recompile.Observation.Status.{TargetStatus}

pub record TargetExitSummary : Type 0 where
  pub code : Option ℤ
  pub signal : Option ℤ
  pub crashed : Bool

abbrev pub not_run : TargetExitSummary
not_run = record { code = none; signal = none; crashed = false }

pub record ObservationEscalationSummary : Type 0 where
  pub tool : Text
  pub status : TargetStatus
  pub confirmed : Bool
  pub findings_detected : List Text
  pub artifact_path : Option Text
  pub error : Option Text
  pub duration_ms : ℕ
  pub timeout_ms : Option ℕ

pub record ObservationDiagnostic : Type 0 where
  pub component : Text
  pub status : Text
  pub detail : Text
  pub remediation : Option Text

pub record ObservationArtifacts : Type 0 where
  pub crashpack : Text
  pub evidence_pack : Text
  pub findings : Text
  pub analysis : Text
  pub manifest : Text
  pub logs : Text
  pub dependencies : Option Text
  pub issue_groups : Option Text

unfoldable pub target_defaults : Text → ObservationArtifacts
target_defaults target_dir = record {
  crashpack = target_dir;
  evidence_pack = target_dir ++ codes "/evidence-pack.json";
  findings = target_dir ++ codes "/findings.json";
  analysis = target_dir ++ codes "/analysis.json";
  manifest = target_dir ++ codes "/manifest.json";
  logs = target_dir ++ codes "/logs";
  dependencies = some (target_dir ++ codes "/dependencies.json");
  issue_groups = some (target_dir ++ codes "/issue-groups.json");
}

pub record ObservationTargetSummary : Type 0 where
  pub name : Text
  pub binary_path : Text
  pub args : List Text
  pub cwd : Text
  pub env : Dict Text Text
  pub status : TargetStatus
  pub error : Option Text
  pub exit : TargetExitSummary
  pub duration_ms : Option ℕ
  pub timeout_ms : Option ℕ
  pub findings_count : ℕ
  pub findings_by_class : Dict Text ℕ
  pub issue_group_count : ℕ
  pub escalation : List ObservationEscalationSummary
  pub diagnostics : List ObservationDiagnostic
  pub artifacts : ObservationArtifacts
  pub replay_command : Option Text
  pub summarize_command : Option Text
  pub next_commands : List Text

unfoldable pub new_target :
    Text
    → Text
    → List Text
    → Text
    → TargetStatus
    → TargetExitSummary
    → ObservationArtifacts
    → ObservationTargetSummary
new_target name binary_path args cwd status exit artifacts = record {
  name = name;
  binary_path = binary_path;
  args = args;
  cwd = cwd;
  env = [];
  status = status;
  error = none;
  exit = exit;
  duration_ms = none;
  timeout_ms = none;
  findings_count = 0;
  findings_by_class = [];
  issue_group_count = 0;
  escalation = [];
  diagnostics = [];
  artifacts = artifacts;
  replay_command = none;
  summarize_command = none;
  next_commands = [];
}
