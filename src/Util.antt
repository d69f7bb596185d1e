-- ===== src/Util.antt =====
-- src/osc-util.{h,cpp}: glob matching and selectors, enumerations, transform fields.
pub mod Glob
pub mod Matches
pub mod Correct
pub mod Meaning
pub mod Visit
pub mod Fields
pub mod Visiting
pub mod Lookup
