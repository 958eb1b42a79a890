-- ===== src/Escalate.antt =====
-- recompile/re-escalate/src: findings, the results of tools, their configuration, and the runner.
pub mod Result
pub mod Config
pub mod Finding
pub mod Tools
pub mod Runner
pub mod Process
