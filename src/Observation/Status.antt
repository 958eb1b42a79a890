-- ===== src/Observation/Status.antt =====
-- recompile/rerun/src/observation.rs: `TargetStatus`, `RepeatAttemptOutcome` and their names.
use recompile.Base.{Bool, true, false, Text, codes}

pub data TargetStatus : Type 0 where
  clean findings failed timeout skipped tool_unavailable not_applicable : TargetStatus

unfoldable pub as_str : TargetStatus → Text
as_str clean = codes "clean"
as_str findings = codes "findings"
as_str failed = codes "failed"
as_str timeout = codes "timeout"
as_str skipped = codes "skipped"
as_str tool_unavailable = codes "tool_unavailable"
as_str not_applicable = codes "not_applicable"

-- The derived `PartialEq`.
abbrev pub status_eq : TargetStatus → TargetStatus → Bool
status_eq clean clean = true
status_eq findings findings = true
status_eq failed failed = true
status_eq timeout timeout = true
status_eq skipped skipped = true
status_eq tool_unavailable tool_unavailable = true
status_eq not_applicable not_applicable = true
status_eq _ _ = false

pub data RepeatAttemptOutcome : Type 0 where
  pass finding failure timed_out inconclusive : RepeatAttemptOutcome

unfoldable pub outcome_str : RepeatAttemptOutcome → Text
outcome_str pass = codes "pass"
outcome_str finding = codes "finding"
outcome_str failure = codes "failure"
outcome_str timed_out = codes "timeout"
outcome_str inconclusive = codes "inconclusive"

unfoldable pub from_status : TargetStatus → RepeatAttemptOutcome
from_status clean = pass
from_status findings = finding
from_status failed = failure
from_status skipped = failure
from_status timeout = timed_out
from_status tool_unavailable = inconclusive
from_status not_applicable = inconclusive

unfoldable pub is_failure_like : RepeatAttemptOutcome → Bool
is_failure_like finding = true
is_failure_like failure = true
is_failure_like timed_out = true
is_failure_like pass = false
is_failure_like inconclusive = false
