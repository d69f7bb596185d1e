-- ===== src/Controls.antt =====
-- src/osc-controls.cpp: the dispatcher, the polls, and what they call; and `handle_datagram` of
-- src/plugin.cpp.
pub mod Outputs
pub mod Sources
pub mod Branch
pub mod Poll
pub mod Dispatch
pub mod Chains
pub mod Reading
pub mod Commands
pub mod Polls
pub mod Effects
pub mod Driving
pub mod Arrivals
pub mod Muting
pub mod Recall
