-- ===== src/Activation.antt =====
-- The activation host of src/activation: the writer lease of a workspace and its reconciliation,
-- the messages between participants, and their durable records.
pub mod Lease
pub mod Reconcile
pub mod Interaction
pub mod PendingStore
mod LeaseExamples
mod MessageExamples
mod RecordExamples
