-- ===== src/Schema.antt =====
-- src/osc-query-schema.cpp: the tree that OSCQuery clients read.
pub mod Data
pub mod Nodes
pub mod Sections
pub mod Listings
pub mod Tree
pub mod Paths
pub mod Lookups
