-- ===== src/Optimizer.antt =====
-- crates/lynxes-core/src/query/optimizer: the rewrite passes over logical plans.
pub mod Columns
pub mod PredicatePushdown
pub mod ProjectionPushdown
pub mod TraversalPruning
pub mod SubgraphCaching
pub mod EarlyTermination
pub mod PartitionParallel
pub mod PatternExpansion
pub mod Domains
pub mod Essence
pub mod Pipeline
pub mod Examples
