-- ===== src/Query.antt =====
-- src/osc-query.{h,cpp} and src/osc-query-bonjour.{h,cpp} over the calls of the operating system,
-- and, beside them, the start and stop of src/osc-server.cpp over the same calls.
pub mod Bonjour
pub mod Service
pub mod Transport
pub mod Running
pub mod Owing
pub mod ServerOwing
pub mod QueryHeld
pub mod QueryOwing
pub mod Ledger
pub mod Refines
pub mod Ports
pub mod HostInfo
