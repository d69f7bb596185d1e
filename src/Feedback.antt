-- ===== src/Feedback.antt =====
-- src/osc-feedback.cpp: what becomes of one outgoing event, the rate limit on the chatty ones, the
-- callbacks that report changes of OBS, and the bookkeeping of their connections.
pub mod Send
pub mod Throttle
pub mod Silence
pub mod Spacing
pub mod Signals
pub mod Events
pub mod Hooks
pub mod Agreement
pub mod Histories
pub mod Pairing
pub mod Balance
