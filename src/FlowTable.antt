-- ===== src/FlowTable.antt =====
-- src/flow_table.rs: the admitted flows, and what the packet loops ask of them.
pub mod Types
pub mod Rules
pub mod ControlPorts
pub mod Flows
pub mod RuleChanges
pub mod SourcePorts
pub mod Forward
pub mod Reply
pub mod Pending
pub mod Invariant
pub mod Bounds
