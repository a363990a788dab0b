-- ===== src/Optimizer/Domains.antt =====
-- crates/lynxes-core/src/query/optimizer: the output domain of the plans that the passes return.
pub mod Moves
pub mod Hints
