-- ===== src/Cli.antt =====
-- recompile/rerun/src/cli.rs: the observer. The children hold the policies of repeated runs, the
-- selection of attempts for escalation, the loop over the attempts, and the statuses that
-- escalation results give a target.
pub mod Policy
pub mod Ensures
pub mod Select
pub mod Fallback
pub mod Timeouts
pub mod Effects
pub mod Target
pub mod Escalation
pub mod Observe
pub mod Repeat
pub mod Promote
pub mod Inputs
pub mod Agent
