-- ===== src/Escalate/Finding.antt =====
-- recompile/re-crashpack/src/lib.rs: the findings that tools are asked to confirm.
use recompile.Base.{ℕ, Option, List, Text}

-- The plan in a finding, and the finding; its evidence, which holds JSON
-- values, is passed through unread.
pub record EscalationPlan : Type 0 where
  pub tool : Text
  pub reason : Text
  pub estimated_cost : Text
  pub cooldown_ms : ℕ

pub record FindingProvenance : Type 0 where
  pub binary_path : Option Text
  pub original_binary_path : Option Text
  pub source_path : Option Text
  pub source_status : Option Text

pub record Finding (E : Type 0) : Type 0 where
  pub schema_version : Text
  pub id : Text
  pub class : Text
  pub confidence : Text
  pub severity : Text
  pub timestamp : ℕ
  pub pid : ℕ
  pub evidence : E
  pub escalation : Option EscalationPlan
  pub provenance : Option FindingProvenance
  pub related : List Text
