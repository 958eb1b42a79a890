-- ===== src/Issues.antt =====
-- recompile/rerun/src/issue_groups.rs: fingerprints of findings, and the groups of a crashpack.
-- A panic is `none`.
pub mod Json
pub mod Normalize
pub mod Finding
pub mod Inputs
pub mod Fingerprint
pub mod Annotate
