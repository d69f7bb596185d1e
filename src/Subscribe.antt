-- ===== src/Subscribe.antt =====
-- src/osc-subscribe.{h,cpp}: the registries of UDP topic subscriptions and of websocket listeners,
-- and the fan-out. Each operation runs under `registry_mutex`, so it is one function.
pub mod Registry
pub mod Fanout
pub mod Distinct
pub mod Invariant
pub mod Histories
pub mod Redirect
pub mod Delivery
