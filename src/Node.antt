-- ===== src/Node.antt =====
-- src/specialist/node-contract.ts and src/specialist/node-supervisor.ts: the states of a node, the
-- dispatch of actions to its members, and the loop that watches its coordinator.
pub mod States
pub mod Members
pub mod Actions
pub mod Round
mod Examples
