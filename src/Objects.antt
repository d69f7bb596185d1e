-- ===== src/Objects.antt =====
-- src/osc-objects.{h,cpp}: scene items, filters, tally and hotkeys.
pub mod Items
pub mod Filters
pub mod Params
pub mod Misc
pub mod Reading
pub mod Passes
pub mod Writing
