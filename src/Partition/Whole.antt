-- ===== src/Partition/Whole.antt =====
-- crates/lynxes-core/src/algo/partition.rs: a graph that `partition` has divided, and the search of it.
use lynxes_mojo.Common.{ℕ, ◌<◌, ◌≡◌, ◌↔◌, String, List}
use lynxes_mojo.Outcome.{ok}
use lynxes_mojo.Direction.{Direction}
use lynxes_mojo.Plan.Expressions.{EdgeTypeSpec}
use lynxes_mojo.Partition.{Node, Edge, PartitionedGraph, distributed_expand}
use lynxes_mojo.Partition.Expansion.{In}
use lynxes_mojo.Partition.Reach.{Shares}
use lynxes_mojo.Partition.Hops.{Within, expand-Within}
use lynxes_mojo.Partition.Shards.{PartitionMethod, partition}
use lynxes_mojo.Partition.Division.{divided, divided-Shares, partition-divided}

-- For any hash, any method and at least one shard, `partition` returns shards and a boundary that hold
-- the edges of the graph and no others: an edge whose ends are in one shard stands in that shard,
-- every edge of a shard has both ends in it, and no edge of the boundary has.
pub partition-Shares :
    (hash : String → ℕ) (nodes : List Node) (edges : List Edge) (method : PartitionMethod) (n : ℕ)
    → 0 < n
    → (pg : PartitionedGraph) × (partition hash nodes edges n method ≡ ok pg) × Shares pg edges
partition-Shares hash nodes edges method n some_shard =
    let (shards, m, below, run) = partition-divided hash nodes edges method n some_shard in
    (divided nodes edges n shards m, run, divided-Shares nodes edges n shards m below)

-- For any hash, any method and at least one shard, `partition` returns a graph in which
-- `distributed_expand` visits an id exactly if at most `hops` edges of a wanted type lead to it from
-- a seed, in the direction asked for, in the graph before it was divided.
pub partitioned_expand_lem :
    (hash : String → ℕ) (nodes : List Node) (edges : List Edge) (method : PartitionMethod) (n : ℕ)
    → 0 < n
    → (pg : PartitionedGraph) × (partition hash nodes edges n method ≡ ok pg)
      × ((spec : EdgeTypeSpec) (direction : Direction) (seeds : List String) (hops : ℕ) (v : String)
          → In v (distributed_expand pg spec direction seeds hops).visited
            ↔ Within spec direction edges seeds hops v)
partitioned_expand_lem hash nodes edges method n some_shard =
    let (pg, run, shares) = partition-Shares hash nodes edges method n some_shard in
    (
      pg,
      run,
      λ spec direction seeds hops v. expand-Within pg spec direction edges seeds hops shares v,
    )
