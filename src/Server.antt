-- ===== src/Server.antt =====
-- src/osc-server.{h,cpp}: the UDP transport. The datagrams that reach `sendto` are returned as
-- values, in order; the calls of the operating system enter as arguments.
pub mod State
pub mod Batch
pub mod Bundle
pub mod Queue
pub mod Steps
pub mod Drain
pub mod Target
