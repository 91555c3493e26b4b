-- ===== src/Epic.antt =====
-- Epics: the life cycle of an epic and its readiness to merge, src/specialist/epic-*.ts.
pub mod Lifecycle
pub mod Readiness
pub mod Database
pub mod Stored
pub mod Reconciler
mod Examples
mod StoredExamples
