-- ===== src/Schema.antt =====
-- crates/lynxes-core/src/schema: field types and values, the inheritance of node schemas, and the
-- validation of a graph against a schema.
pub mod Types
pub mod Inheritance
pub mod Lineage
pub mod Returning
pub mod Resolution
pub mod Merging
pub mod Resolved
pub mod Validation
pub mod Checks
mod Examples
pub mod Conforming
pub mod EdgeReports
pub mod Loading
pub mod NodeReports
