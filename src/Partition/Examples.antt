-- ===== src/Partition/Examples.antt =====
-- crates/lynxes-core/src/algo/partition.rs: three nodes in two shards, and the theorems at them.
use lynxes_mojo.Common.{ℕ, ◌≡◌, ◌↔◌, refl, String, List, [], ◌∷◌, arith}
use lynxes_mojo.Outcome.{ok}
use lynxes_mojo.Direction.{Direction, out}
use lynxes_mojo.Plan.Expressions.{EdgeTypeSpec, any}
use lynxes_mojo.Partition.{Node, Edge, PartitionedGraph, distributed_expand}
use lynxes_mojo.Partition.Expansion.{In}
use lynxes_mojo.Partition.Reach.{Shares}
use lynxes_mojo.Partition.Hops.{Within}
use lynxes_mojo.Partition.Shards.{PartitionMethod, partition, assign_nodes}
use lynxes_mojo.Partition.Whole.{partition-Shares, partitioned_expand_lem}

abbrev three_nodes : List Node
three_nodes =
    record { id = "c"; labels = "X" ∷ [] }
    ∷ record { id = "a"; labels = "Y" ∷ [] }
    ∷ record { id = "b"; labels = "X" ∷ [] }
    ∷ []

abbrev two_links : List Edge
two_links =
    record { src = "a"; dst = "b"; edge_type = "t" }
    ∷ record { src = "b"; dst = "c"; edge_type = "t" }
    ∷ []

abbrev no_hash : String → ℕ
no_hash _ = 0

by_range : assign_nodes no_hash three_nodes 2 PartitionMethod.range ≡ 1 ∷ 0 ∷ 0 ∷ []
unfolding assign_nodes
by_range = refl

by_label : assign_nodes no_hash three_nodes 2 PartitionMethod.label ≡ 0 ∷ 1 ∷ 0 ∷ []
unfolding assign_nodes
by_label = refl

abbrev ranged : PartitionedGraph
ranged = record {
  shards =
      record {
        nodes =
            record { id = "a"; labels = "Y" ∷ [] } ∷ record { id = "b"; labels = "X" ∷ [] } ∷ [];
        edges = record { src = "a"; dst = "b"; edge_type = "t" } ∷ [];
      }
      ∷ record { nodes = record { id = "c"; labels = "X" ∷ [] } ∷ []; edges = [] }
      ∷ [];
  boundary_edges = record { src = "b"; dst = "c"; edge_type = "t" } ∷ [];
  n_shards = 2;
  node_to_shard = ("b", 0) ∷ ("a", 0) ∷ ("c", 1) ∷ [];
}

partitioned : partition no_hash three_nodes two_links 2 PartitionMethod.range ≡ ok ranged
unfolding partition
partitioned = refl

expanded : (distributed_expand ranged any out ("a" ∷ []) 2).visited ≡ "c" ∷ "b" ∷ "a" ∷ []
unfolding distributed_expand
expanded = refl

partition-Shares_example :
    (pg : PartitionedGraph) × (partition no_hash three_nodes two_links 2 PartitionMethod.range
      ≡ ok pg)
    × Shares pg two_links
partition-Shares_example =
    partition-Shares no_hash three_nodes two_links PartitionMethod.range 2 (omega arith)

partitioned_expand_lem_example :
    (pg : PartitionedGraph) × (partition no_hash three_nodes two_links 2 PartitionMethod.range
      ≡ ok pg)
    × ((spec : EdgeTypeSpec) (direction : Direction) (seeds : List String) (hops : ℕ) (v : String)
        → In v (distributed_expand pg spec direction seeds hops).visited
          ↔ Within spec direction two_links seeds hops v)
partitioned_expand_lem_example =
    partitioned_expand_lem no_hash three_nodes two_links PartitionMethod.range 2 (omega arith)
