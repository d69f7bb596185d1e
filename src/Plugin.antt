-- ===== src/Plugin.antt =====
-- src/plugin.cpp, and src/osc-query.cpp as it sees it: the configuration and what is restarted when it
-- changes.
pub mod Config
pub mod Lifecycle
pub mod Apply
pub mod Outcomes
