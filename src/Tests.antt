-- ===== src/Tests.antt =====
-- The theorems at concrete inputs, and the data that they run on.
pub mod Data
pub mod Fleet
pub mod Heartbeats
pub mod Reports
pub mod Tables
pub mod Memories
pub mod Names
pub mod Control
pub mod Packets
pub mod Startup
