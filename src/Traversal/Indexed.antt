-- ===== src/Traversal/Indexed.antt =====
-- crates/lynxes-core/src/frame/edge_frame.rs: what the construction of an edge frame makes of its columns,
-- and the edges that the columns hold.
use lynxes_mojo.Common.{ℕ, ◌<◌, ◌^◌, ◌≡◌, ◌⊎◌, String, some, List, [], ◌∷◌, length, get_elem?, Has}
use lynxes_mojo.Direction.{Direction, out, in_, both, none_}
use lynxes_mojo.Plan.Expressions.{EdgeTypeSpec, single, multiple, any}
use lynxes_mojo.Csr.{build, build_reverse}
use lynxes_mojo.Mutable.{Ids, get_id}
use lynxes_mojo.Traversal.{IndexedEdges}

-- The rows hold the indexes of the ids.
abbrev pub Located : Ids → List String → List ℕ → Type 0
Located node_index [] [] = Unit
Located node_index [] (_ ∷ _) = ⊥
Located node_index (_ ∷ _) [] = ⊥
Located node_index (id ∷ ids) (row ∷ rows) =
    (get_id id node_index ≡ some row) × Located node_index ids rows

-- The two indexes are built from the columns, whose ids have indexes of their own, without a gap.
pub record IsIndexed (es : IndexedEdges) : Type 0 where
  pub src_rows : List ℕ
  pub dst_rows : List ℕ
  pub src_located : Located es.node_index es.src src_rows
  pub dst_located : Located es.node_index es.dst dst_rows
  pub one_length : length es.src ≡ length es.dst
  pub typed : length es.types ≡ length es.src
  pub small : length es.src < 2 ^ 32
  pub distinct :
      (a b : String) (idx : ℕ)
      → get_id a es.node_index ≡ some idx
      → get_id b es.node_index ≡ some idx
      → a ≡ b
  pub inside :
      (id : String) (idx : ℕ) → get_id id es.node_index ≡ some idx → idx < length es.node_index
  pub filled :
      (idx : ℕ)
      → idx < length es.node_index
      → (id : String) × (get_id id es.node_index ≡ some idx)
        × ((row : ℕ) × (u : String) × (v : String) × (get_elem? es.src row ≡ some u)
            × (get_elem? es.dst row ≡ some v)
            × ((id ≡ u) ⊎ (id ≡ v)))
  pub out_built : build src_rows dst_rows (length es.node_index) ≡ some es.out_csr
  pub in_built : build_reverse src_rows dst_rows (length es.node_index) ≡ some es.in_csr

-- The edge types that a specification asks for.
abbrev pub Wanted : EdgeTypeSpec → String → Type 0
Wanted (single value) edge_type = edge_type ≡ value
Wanted (multiple values) edge_type = Has edge_type values
Wanted any edge_type = Unit

module _ (es : IndexedEdges) (spec : EdgeTypeSpec) (Admitted : ℕ → Type 0) where
  -- A row of the columns, of a wanted type and admitted, leads from `u` to `v`.
  abbrev pub Links : String → String → Type 0
  Links u v =
      (row : ℕ) × (get_elem? es.src row ≡ some u)
      × (get_elem? es.dst row ≡ some v)
      × (edge_type : String) × (get_elem? es.types row ≡ some edge_type)
      × Wanted spec edge_type
      × Admitted row

  -- Against the direction of the rows for `in_`, in either direction for `both` and `none_`.
  abbrev pub Joins : Direction → String → String → Type 0
  Joins out u v = Links u v
  Joins in_ u v = Links v u
  Joins both u v = Links u v ⊎ Links v u
  Joins none_ u v = Links u v ⊎ Links v u
