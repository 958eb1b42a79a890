-- ===== src/Observation.antt =====
-- recompile/rerun/src/observation.rs: the observation-run contract. The children follow the file:
-- the statuses, a target, a run with its totals, the attempts of a repeated run, the issue groups
-- over attempts and the repeat summary.
pub mod Status
pub mod Target
pub mod Run
pub mod Attempt
pub mod Groups
pub mod Repeat
