-- ===== src/ExprJson.antt =====
-- crates/lynxes-core/src/query/expr.rs: the JSON form of expressions and aggregations.
-- serde reads and writes the definition forms (`ExprDef`, `AggExprDef`); what is modelled is their
-- conversion to and from expressions. A conversion that returns an error text is `none`.
pub mod Tags
pub mod Literals
pub mod Reading
pub mod Forms
pub mod Conversions
pub mod RoundTrip
mod Examples
