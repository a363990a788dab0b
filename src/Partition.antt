-- ===== src/Partition.antt =====
-- crates/lynxes-core/src/algo/partition.rs: the shards of a graph, and the expansion across them.
-- A node is its id and its labels, an edge its endpoints and its type; the reserved columns are there
-- and of their types, as every frame is built. The hash of an id is a parameter. A map is an
-- association list. A shard is its rows of nodes and edges: the checks of `GraphFrame::new` and the
-- frames that `subgraph` and `concat` materialize are left out.
pub mod Expansion
pub mod Boundary
pub mod Rounds
pub mod Reach
pub mod Hops
pub mod Shards
pub mod Masks
pub mod Assignment
pub mod Division
pub mod Whole
mod Examples
use Prim.Native.Nat.{◌/◌}
use lynxes_mojo.Common.{
  ℕ, zero, suc, ◌+◌, ◌-◌, ◌%◌, min, String, Bool, true, false, not, ◌&&◌, ◌||◌, Option, none, some,
  List, [], ◌∷◌, ◌++◌, map, length, get_elem?, get_or, set, replicate, filter, zip, ◌==◌,
  if◌then◌else◌, str_eq, member, set_insert, set_extend, lookup,
}
use lynxes_mojo.Direction.{Direction, out, in_, both, none_}
use lynxes_mojo.Outcome.{Outcome, ok, err, panicked, ◌>>=◌, invalid_config}
use lynxes_mojo.Plan.Expressions.{EdgeTypeSpec, single, multiple, any}
use lynxes_mojo.Mutable.{or_panic}

pub record Node : Type 0 where
  pub id : String
  pub labels : List String

pub record Edge : Type 0 where
  pub src : String
  pub dst : String
  pub edge_type : String

pub record Shard : Type 0 where
  pub nodes : List Node
  pub edges : List Edge

pub record PartitionedGraph : Type 0 where
  pub shards : List Shard
  pub boundary_edges : List Edge
  pub n_shards : ℕ
  pub node_to_shard : List (String × ℕ)

unfoldable pub shard_of : PartitionedGraph → String → Option ℕ
unfolding lookup
shard_of pg id = lookup id pg.node_to_shard

-- The loop of `shard_of(id) == Some(shard_idx)`.
abbrev pub is_at : ℕ → Option ℕ → Bool
is_at shard_idx none = false
is_at shard_idx (some s) = s == shard_idx

unfoldable pub edge_type_matches : Edge → EdgeTypeSpec → Bool
unfolding member
edge_type_matches e any = true
edge_type_matches e (single t) = str_eq e.edge_type t
edge_type_matches e (multiple ts) = member e.edge_type ts

-- What one edge pushes in `direct_expand`.
abbrev pub hits : List String → Direction → Edge → List String
hits seeds out e = if member e.src seeds then e.dst ∷ [] else []
hits seeds in_ e = if member e.dst seeds then e.src ∷ [] else []
hits seeds both e =
    (if member e.src seeds then e.dst ∷ [] else [])
    ++ (if member e.dst seeds then e.src ∷ [] else [])
hits seeds none_ e =
    (if member e.src seeds then e.dst ∷ [] else [])
    ++ (if member e.dst seeds then e.src ∷ [] else [])

unfoldable pub direct_expand : List Edge → List String → EdgeTypeSpec → Direction → List String
unfolding member edge_type_matches
direct_expand [] seeds spec direction = []
direct_expand (e ∷ edges) seeds spec direction =
    let rest = direct_expand edges seeds spec direction in
    if not (edge_type_matches e spec) then rest else hits seeds direction e ++ rest

abbrev pub touches : List String → Direction → Edge → Bool
touches seeds out e = member e.src seeds
touches seeds in_ e = member e.dst seeds
touches seeds both e = member e.src seeds || member e.dst seeds
touches seeds none_ e = member e.src seeds || member e.dst seeds

-- The rows from `row` on; the set that they are put into is a list.
unfoldable pub collect_reachable_edge_rows :
    List Edge → ℕ → List String → EdgeTypeSpec → Direction → List ℕ → List ℕ
unfolding member edge_type_matches
collect_reachable_edge_rows [] row seeds spec direction rows = rows
collect_reachable_edge_rows (e ∷ edges) row seeds spec direction rows =
    collect_reachable_edge_rows edges (suc row) seeds spec direction
      (if touches seeds direction e && edge_type_matches e spec then row ∷ rows else rows)

-- What one boundary edge pushes: nodes that are not visited yet, with the edge's row.
abbrev pub crossing : List String → List String → Direction → Edge → List String
crossing frontier visited out e =
    if member e.src frontier && not (member e.dst visited) then e.dst ∷ [] else []
crossing frontier visited in_ e =
    if member e.dst frontier && not (member e.src visited) then e.src ∷ [] else []
crossing frontier visited both e =
    (if member e.src frontier && not (member e.dst visited) then e.dst ∷ [] else [])
    ++ (if member e.dst frontier && not (member e.src visited) then e.src ∷ [] else [])
crossing frontier visited none_ e =
    (if member e.src frontier && not (member e.dst visited) then e.dst ∷ [] else [])
    ++ (if member e.dst frontier && not (member e.src visited) then e.src ∷ [] else [])

unfoldable pub expand_via_boundary :
    List Edge → ℕ → List String → EdgeTypeSpec → Direction → List String → List String × List ℕ
unfolding member edge_type_matches
expand_via_boundary [] row frontier spec direction visited = ([], [])
expand_via_boundary (e ∷ edges) row frontier spec direction visited =
    let (new_nodes, new_rows) =
      expand_via_boundary edges (suc row) frontier spec direction visited in
    let pushed = crossing frontier visited direction e in
    if not (edge_type_matches e spec)
    then (new_nodes, new_rows)
    else (pushed ++ new_nodes, map (λ _. row) pushed ++ new_rows)

pub record Expanding : Type 0 where
  pub visited : List String
  pub next_frontier : List String
  pub visited_edge_rows : List (List ℕ)
  pub visited_boundary : List ℕ

-- `if visited.insert(id) { next_frontier.insert(id) }`
abbrev pub admit_one : String → Expanding → Expanding
admit_one id x =
    if member id x.visited
    then x
    else record x { visited = id ∷ x.visited; next_frontier = set_insert id x.next_frontier }

unfoldable pub admit : List String → Expanding → Expanding
unfolding member set_insert
admit [] x = x
admit (id ∷ ids) x = admit ids (admit_one id x)

module _ (pg : PartitionedGraph) (spec : EdgeTypeSpec) (direction : Direction) where
  unfoldable pub expand_shard : ℕ → Shard → List String → Expanding → Expanding
  unfolding direct_expand collect_reachable_edge_rows admit
  expand_shard shard_idx shard [] x = x
  expand_shard shard_idx shard (seed ∷ seeds) x =
      let expanded = admit (direct_expand shard.edges (seed ∷ seeds) spec direction) x in
      record expanded {
        visited_edge_rows = set x.visited_edge_rows shard_idx (
            collect_reachable_edge_rows shard.edges 0 (seed ∷ seeds) spec direction
              (get_or x.visited_edge_rows shard_idx []));
      }

  unfoldable pub expand_shards : ℕ → List Shard → List String → Expanding → Expanding
  unfolding expand_shard shard_of
  expand_shards shard_idx [] frontier x = x
  expand_shards shard_idx (shard ∷ shards) frontier x =
      expand_shards (suc shard_idx) shards frontier
        (expand_shard shard_idx shard (filter (λ id. is_at shard_idx (shard_of pg id)) frontier) x)

  unfoldable pub cross : List String → Expanding → Expanding
  unfolding expand_via_boundary admit
  cross frontier x =
      let (new_nodes, new_rows) =
        expand_via_boundary pg.boundary_edges 0 frontier spec direction x.visited in
      let crossed = admit new_nodes x in
      record crossed { visited_boundary = new_rows ++ crossed.visited_boundary }

  -- The loop over hops, from a frontier on.
  unfoldable pub expand_hops : ℕ → List String → Expanding → Expanding
  unfolding expand_shards cross
  expand_hops zero frontier x = x
  expand_hops (suc hops) frontier x =
      let round =
        cross frontier (expand_shards 0 pg.shards frontier (record x { next_frontier = [] })) in
      elim round.next_frontier [ [] ↦ round | id ∷ ids ↦ expand_hops hops (id ∷ ids) round ]

  -- The sets that `distributed_expand` makes its frames of.
  unfoldable pub distributed_expand : List String → ℕ → Expanding
  unfolding expand_hops set_extend
  distributed_expand seeds hops = expand_hops hops (set_extend [] seeds) (record {
    visited = set_extend [] seeds;
    next_frontier = [];
    visited_edge_rows = replicate pg.n_shards [];
    visited_boundary = [];
  })
