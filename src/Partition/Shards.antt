-- ===== src/Partition/Shards.antt =====
-- crates/lynxes-core/src/algo/partition.rs: `GraphPartitioner::partition`, `assign_nodes` and what they
-- call. The hash of an id is a parameter. A null label is read as the empty text.
use Prim.Native.Nat.{◌/◌, max}
use lynxes_mojo.Common.{
  ℕ, zero, suc, ◌+◌, ◌-◌, ◌%◌, min, String, Bool, true, false, Option, none, some, List, [], ◌∷◌,
  map, length, get_elem?, set, replicate, zip, ◌==◌, if◌then◌else◌, str_le, lookup,
}
use lynxes_mojo.Outcome.{Outcome, ok, err, ◌>>=◌, invalid_config}
use lynxes_mojo.Mutable.{or_panic}
use lynxes_mojo.Partition.{Node, Edge, Shard, PartitionedGraph}

pub data PartitionMethod : Type 0 where
  hash range label : PartitionMethod

-- `enumerate`
abbrev pub indexed : ℕ → List String → List (ℕ × String)
indexed row [] = []
indexed row (id ∷ ids) = (row, id) ∷ indexed (suc row) ids

-- `sort_by_key(|&(_, id)| id)`, which keeps the order of equal ids.
abbrev pub insert_indexed : ℕ × String → List (ℕ × String) → List (ℕ × String)
insert_indexed (row, id) [] = (row, id) ∷ []
insert_indexed (row, id) ((r, i) ∷ rest) =
    let later = insert_indexed (row, id) rest in
    if str_le id i then (row, id) ∷ (r, i) ∷ rest else (r, i) ∷ later

abbrev pub sort_indexed : List (ℕ × String) → List (ℕ × String)
sort_indexed [] = []
sort_indexed (entry ∷ entries) = insert_indexed entry (sort_indexed entries)

abbrev pub assign_bands : ℕ → ℕ → ℕ → List (ℕ × String) → List ℕ → List ℕ
assign_bands n_shards band rank [] result = result
assign_bands n_shards band rank ((row, _) ∷ entries) result =
    assign_bands n_shards band (suc rank) entries
      (set result row (min (rank / max band 1) (n_shards - 1)))

abbrev pub ids_of : List Node → List String
ids_of nodes = map (λ (node : Node). node.id) nodes

-- `collect` into a map: a later entry takes the place of an earlier one.
abbrev pub collect_map : List (String × ℕ) → List (String × ℕ) → List (String × ℕ)
collect_map [] entries = entries
collect_map (entry ∷ rest) entries = collect_map rest (entry ∷ entries)

-- `masks[shard][row] = true`
unfoldable pub mark_row : List (List Bool) → ℕ → ℕ → Outcome (List (List Bool))
mark_row masks shard row = do
  mask ← or_panic (get_elem? masks shard)
  ok (set masks shard (set mask row true))

unfoldable pub mark_nodes : List ℕ → ℕ → List (List Bool) → Outcome (List (List Bool))
unfolding mark_row
mark_nodes [] row masks = ok masks
mark_nodes (shard ∷ shards) row masks = do
  marked ← mark_row masks shard row
  mark_nodes shards (suc row) marked

-- The shard of both ends of an edge, if there is one.
abbrev pub common_shard : Option ℕ → Option ℕ → Option ℕ
common_shard none _ = none
common_shard (some s) none = none
common_shard (some s) (some d) = if s == d then some s else none

abbrev pub edge_shard : List (String × ℕ) → Edge → Option ℕ
edge_shard node_to_shard e = common_shard (lookup e.src node_to_shard) (lookup e.dst node_to_shard)

unfoldable pub mark_edges :
    List (String × ℕ)
    → List Edge
    → ℕ
    → List (List Bool)
    → List Bool
    → Outcome (List (List Bool) × List Bool)
unfolding lookup mark_row
mark_edges node_to_shard [] row masks boundary_mask = ok (masks, boundary_mask)
mark_edges node_to_shard (e ∷ edges) row masks boundary_mask = elim (edge_shard node_to_shard e) [
  | none ↦ mark_edges node_to_shard edges (suc row) masks (set boundary_mask row true)
  | some s ↦ do
    marked ← mark_row masks s row
    mark_edges node_to_shard edges (suc row) marked boundary_mask
]

-- `filter` of a frame by a mask.
abbrev pub filter_rows {ℓ} : {A : Type ℓ} → List Bool → List A → List A
filter_rows [] rows = []
filter_rows (keep ∷ mask) [] = []
filter_rows (keep ∷ mask) (row ∷ rows) =
    let rest = filter_rows mask rows in if keep then row ∷ rest else rest

abbrev pub build_shards : List Node → List Edge → List (List Bool) → List (List Bool) → List Shard
build_shards nodes edges [] edge_masks = []
build_shards nodes edges (node_mask ∷ node_masks) [] = []
build_shards nodes edges (node_mask ∷ node_masks) (edge_mask ∷ edge_masks) =
    record { nodes = filter_rows node_mask nodes; edges = filter_rows edge_mask edges }
    ∷ build_shards nodes edges node_masks edge_masks

module _ (hash : String → ℕ) where
  unfoldable pub hash_shard : String → ℕ → ℕ
  hash_shard id n_shards = hash id % n_shards

  -- Every new first label takes the next shard in turn.
  unfoldable pub assign_labels : ℕ → List Node → List (String × ℕ) → ℕ → List ℕ
  unfolding hash_shard lookup
  assign_labels n_shards [] label_map next_shard = []
  assign_labels n_shards (node ∷ nodes) label_map next_shard = elim node.labels [
    | [] ↦ hash_shard node.id n_shards ∷ assign_labels n_shards nodes label_map next_shard
    | first ∷ _ ↦ elim (lookup first label_map) [
      | some shard ↦ shard ∷ assign_labels n_shards nodes label_map next_shard
      | none ↦
          next_shard % n_shards
          ∷ assign_labels n_shards nodes ((first, next_shard % n_shards) ∷ label_map)
              (suc next_shard)
    ]
  ]

  unfoldable pub assign_nodes : List Node → ℕ → PartitionMethod → List ℕ
  unfolding hash_shard assign_labels
  assign_nodes nodes n_shards PartitionMethod.hash =
      map (λ (node : Node). hash_shard node.id n_shards) nodes
  assign_nodes nodes n_shards PartitionMethod.range =
      assign_bands n_shards ((length nodes + n_shards - 1) / max n_shards 1) 0
        (sort_indexed (indexed 0 (ids_of nodes))) (replicate (length nodes) 0)
  assign_nodes nodes n_shards PartitionMethod.label = assign_labels n_shards nodes [] 0

  unfoldable pub partition : List Node → List Edge → ℕ → PartitionMethod → Outcome PartitionedGraph
  unfolding assign_nodes mark_nodes mark_edges
  partition nodes edges zero method = err invalid_config
  partition nodes edges (suc more) method = do
    let assignments = assign_nodes nodes (suc more) method
    let node_to_shard = collect_map (zip (ids_of nodes) assignments) []
    node_masks ← mark_nodes assignments 0 (replicate (suc more) (replicate (length nodes) false))
    (edge_masks, boundary_mask) ←
        mark_edges node_to_shard edges 0 (replicate (suc more) (replicate (length edges) false))
          (replicate (length edges) false)
    ok (record {
      shards = build_shards nodes edges node_masks edge_masks;
      boundary_edges = filter_rows boundary_mask edges;
      n_shards = suc more;
      node_to_shard = node_to_shard;
    })
