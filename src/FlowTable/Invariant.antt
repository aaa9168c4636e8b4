-- ===== src/FlowTable/Invariant.antt =====
-- What holds of every table: the two indexes agree with the admitted flows.
pub mod Allocations
pub mod Nodes
pub mod Removal
pub mod Selection
pub mod Changes
pub mod Forwards
pub mod Histories
