-- ===== src/Epic/Readiness.antt =====
-- src/specialist/epic-readiness.ts: what the jobs of an epic say about its readiness. The
-- summary line is not kept: it is a text made from the other fields.
pub mod Verdict
pub mod Chains
pub mod Derive
