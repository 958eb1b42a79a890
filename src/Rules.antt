-- ===== src/Rules.antt =====
-- recompile/re-rules/src: rules over the events of the sentinel, and the clusters of their findings.
pub mod Event
pub mod Matchers
pub mod Outside
pub mod Config
pub mod Registry
pub mod Likeness
pub mod Ranking
pub mod Clusters
pub mod Report
pub mod Checks
pub mod Engine
pub mod Process
