-- ===== src/Addresses.antt =====
-- src/osc-addresses.{h,cpp}: the address namespace, its routing helpers and address builders.
pub mod Names
pub mod Routes
pub mod Laws
