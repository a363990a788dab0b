-- ===== src/Traversal/Examples.antt =====
-- crates/lynxes-lazy/src/query/executor/traversal.rs: two edges in a row, and the theorems at them.
use lynxes_mojo.Common.{
  some, ◌⊎◌, ◌≤◌, length, ℕ, zero, suc, ◌≡◌, ◌↔◌, String, true, none, List, [], ◌∷◌, ◌++◌, arith,
  refl, member, All-append, zip, ◌<◌,
}
use lynxes_mojo.Direction.{Direction, out, in_, both, none_}
use lynxes_mojo.Outcome.{ok}
use lynxes_mojo.Plan.Expressions.{PatternStep, single, any}
use lynxes_mojo.Csr.{CsrIndex, neighbors, edge_ids, node_count}
use lynxes_mojo.Csr.Bounds.{lookup_outside}
use lynxes_mojo.Traversal.{
  IndexedEdges, Found, entries_of, build_edge_node_ids, expand_frontier_csr, traverse_ids,
}
use lynxes_mojo.Traversal.Frontier.{TypedRows}
use lynxes_mojo.Traversal.Indexed.{IsIndexed}
use lynxes_mojo.Traversal.Steps.{Neighbor, Trail, step_finds_neighbors, traversal_visits_trails}
use lynxes_mojo.Traversal.Prefixes.{traversal_stops_at_limit}
use lynxes_mojo.Mutable.{Ids, get_id}
use lynxes_mojo.Csr.{build, build_reverse}
use lynxes_mojo.Common.{Has, Bool-cases, inl, inr, str_eq, eq_iff, ap, sym, ◌∙◌, ⊎_elim, get_elem?}

-- ada → bob → cyd
abbrev pub two_edges : IndexedEdges
two_edges = record {
  node_index = ("ada", 0) ∷ ("bob", 1) ∷ ("cyd", 2) ∷ [];
  src = "ada" ∷ "bob" ∷ [];
  dst = "bob" ∷ "cyd" ∷ [];
  types = "knows" ∷ "likes" ∷ [];
  out_csr = record { offsets = 0 ∷ 1 ∷ 2 ∷ 2 ∷ []; neighbors = 1 ∷ 2 ∷ []; edge_ids = 0 ∷ 1 ∷ [] };
  in_csr = record { offsets = 0 ∷ 0 ∷ 1 ∷ 2 ∷ []; neighbors = 0 ∷ 1 ∷ []; edge_ids = 0 ∷ 1 ∷ [] };
}

abbrev pub two_names : List String
two_names = "ada" ∷ "bob" ∷ "cyd" ∷ []

abbrev knows_then_any : List PatternStep
knows_then_any =
    record {
      from_alias = "a";
      edge_alias = none;
      edge_type = single "knows";
      direction = out;
      to_alias = "b";
    }
    ∷ record {
      from_alias = "b";
      edge_alias = none;
      edge_type = any;
      direction = both;
      to_alias = "c";
    }
    ∷ []

pub two_names_built : build_edge_node_ids two_edges ≡ ok two_names
unfolding build_edge_node_ids
two_names_built = refl

two_steps_run :
    traverse_ids two_edges none knows_then_any ("ada" ∷ [])
    ≡ ok ("cyd" ∷ "bob" ∷ "ada" ∷ [], 1 ∷ 0 ∷ [])
unfolding traverse_ids neighbors edge_ids
two_steps_run = refl

pub no_entries : (c : CsrIndex) (v : ℕ) → node_count c ≤ v → zip (neighbors c v) (edge_ids c v) ≡ []
no_entries c v past = let (_, nobody, _, _) = lookup_outside c v past in rw nobody refl

typed_out :
    (idx : ℕ)
    → TypedRows two_edges (zip (neighbors two_edges.out_csr idx) (edge_ids two_edges.out_csr idx))
unfolding neighbors edge_ids
typed_out zero = (omega arith, tt)
typed_out (suc zero) = (omega arith, tt)
typed_out (suc (suc zero)) = tt
typed_out (suc (suc (suc idx))) =
    rw (no_entries two_edges.out_csr (suc (suc (suc idx))) (omega arith)) tt

typed_in :
    (idx : ℕ)
    → TypedRows two_edges (zip (neighbors two_edges.in_csr idx) (edge_ids two_edges.in_csr idx))
unfolding neighbors edge_ids
typed_in zero = tt
typed_in (suc zero) = (omega arith, tt)
typed_in (suc (suc zero)) = (omega arith, tt)
typed_in (suc (suc (suc idx))) =
    rw (no_entries two_edges.in_csr (suc (suc (suc idx))) (omega arith)) tt

typed_both :
    (idx : ℕ)
    → TypedRows two_edges (
        zip (neighbors two_edges.out_csr idx) (edge_ids two_edges.out_csr idx)
        ++ zip (neighbors two_edges.in_csr idx) (edge_ids two_edges.in_csr idx))
typed_both idx =
    All-append (λ entry. entry.1 < length two_edges.types)
      (zip (neighbors two_edges.out_csr idx) (edge_ids two_edges.out_csr idx))
      (zip (neighbors two_edges.in_csr idx) (edge_ids two_edges.in_csr idx)) (typed_out idx)
      (typed_in idx)

pub two_edges_typed :
    (direction : Direction) (idx : ℕ) → TypedRows two_edges (entries_of two_edges direction idx)
unfolding entries_of
two_edges_typed out idx = typed_out idx
two_edges_typed in_ idx = typed_in idx
two_edges_typed both idx = typed_both idx
two_edges_typed none_ idx = typed_both idx

get_id-Has : (ids : Ids) (id : String) (idx : ℕ) → get_id id ids ≡ some idx → Has (id, idx) ids
unfolding get_id
get_id-Has [] id idx h = cc
get_id-Has ((key, i) ∷ ids) id idx h = elim (Bool-cases (str_eq key id)) [
  | inl same ↦
      let key_is : key ≡ id = (eq_iff key id).0 same in
      let at : some i ≡ some idx = rw same at h in
      let here : i ≡ idx = cc in inl (rw (key_is, here) refl)
  | inr other ↦ inr (get_id-Has ids id idx (rw other at h))
]

-- The three ids have an index each.
abbrev Indexes : String → ℕ → Type 0
Indexes id idx =
    ((id ≡ "ada") × (idx ≡ 0)) ⊎ ((id ≡ "bob") × (idx ≡ 1)) ⊎ ((id ≡ "cyd") × (idx ≡ 2))

two_edges-Indexes :
    (id : String) (idx : ℕ) → get_id id two_edges.node_index ≡ some idx → Indexes id idx
two_edges-Indexes id idx h =
    ⊎_elim (λ at. inl (ap (λ p. p.0) at, ap (λ p. p.1) at))
      (⊎_elim (λ at. inr (inl (ap (λ p. p.0) at, ap (λ p. p.1) at)))
        (⊎_elim (λ at. inr (inr (ap (λ p. p.0) at, ap (λ p. p.1) at))) (λ never. absurd never)))
      (get_id-Has two_edges.node_index id idx h)

Indexes-distinct : (a b : String) (idx : ℕ) → Indexes a idx → Indexes b idx → a ≡ b
Indexes-distinct a b idx (inl (x, i)) (inl (y, j)) = x ∙ sym y
Indexes-distinct a b idx (inl (x, i)) (inr (inl (y, j))) = absurd (omega (arith, i, j))
Indexes-distinct a b idx (inl (x, i)) (inr (inr (y, j))) = absurd (omega (arith, i, j))
Indexes-distinct a b idx (inr (inl (x, i))) (inl (y, j)) = absurd (omega (arith, i, j))
Indexes-distinct a b idx (inr (inl (x, i))) (inr (inl (y, j))) = x ∙ sym y
Indexes-distinct a b idx (inr (inl (x, i))) (inr (inr (y, j))) = absurd (omega (arith, i, j))
Indexes-distinct a b idx (inr (inr (x, i))) (inl (y, j)) = absurd (omega (arith, i, j))
Indexes-distinct a b idx (inr (inr (x, i))) (inr (inl (y, j))) = absurd (omega (arith, i, j))
Indexes-distinct a b idx (inr (inr (x, i))) (inr (inr (y, j))) = x ∙ sym y

Indexes-inside : (id : String) (idx : ℕ) → Indexes id idx → idx < 3
Indexes-inside id idx (inl (x, i)) = omega (arith, i)
Indexes-inside id idx (inr (inl (x, i))) = omega (arith, i)
Indexes-inside id idx (inr (inr (x, i))) = omega (arith, i)

two_edges-filled :
    (idx : ℕ)
    → idx < 3
    → (id : String) × (get_id id two_edges.node_index ≡ some idx)
      × ((row : ℕ) × (u : String) × (v : String) × (get_elem? two_edges.src row ≡ some u)
          × (get_elem? two_edges.dst row ≡ some v)
          × ((id ≡ u) ⊎ (id ≡ v)))
unfolding get_id
two_edges-filled zero h = ("ada", refl, (0, "ada", "bob", refl, refl, inl refl))
two_edges-filled (suc zero) h = ("bob", refl, (0, "ada", "bob", refl, refl, inr refl))
two_edges-filled (suc (suc zero)) h = ("cyd", refl, (1, "bob", "cyd", refl, refl, inr refl))
two_edges-filled (suc (suc (suc n))) h = absurd (omega (arith, h))

pub two_edges-IsIndexed : IsIndexed two_edges
unfolding build build_reverse get_id
two_edges-IsIndexed = record {
  src_rows = 0 ∷ 1 ∷ [];
  dst_rows = 1 ∷ 2 ∷ [];
  src_located = (refl, (refl, tt));
  dst_located = (refl, (refl, tt));
  one_length = refl;
  typed = refl;
  small = omega arith;
  distinct = λ a b idx h k.
      Indexes-distinct a b idx (two_edges-Indexes a idx h) (two_edges-Indexes b idx k);
  inside = λ id idx h. Indexes-inside id idx (two_edges-Indexes id idx h);
  filled = two_edges-filled;
  out_built = refl;
  in_built = refl;
}

step_finds_neighbors_example :
    (f : Found) × (expand_frontier_csr two_edges ("bob" ∷ []) any both ≡ ok f)
    × ((v : String)
        → (member v f.next ≡ true)
          ↔ ((u : String) × (member u ("bob" ∷ []) ≡ true) × Neighbor two_edges any both u v))
step_finds_neighbors_example =
    step_finds_neighbors two_edges ("bob" ∷ []) any both two_edges-IsIndexed

traversal_visits_trails_example :
    (seen : List String) × (retained : List ℕ) × (traverse_ids two_edges none knows_then_any
        ("ada" ∷ [])
      ≡ ok (seen, retained))
    × ((v : String)
        → (member v seen ≡ true)
          ↔ ((u : String) × (member u ("ada" ∷ []) ≡ true) × Trail two_edges knows_then_any u v))
traversal_visits_trails_example =
    traversal_visits_trails two_edges knows_then_any ("ada" ∷ []) two_edges-IsIndexed

traversal_stops_at_limit_example :
    (part rest : List PatternStep) × (part ++ rest ≡ knows_then_any)
    × (seen : List String) × (retained : List ℕ) × (traverse_ids two_edges
          (some 2)
          knows_then_any
          ("ada" ∷ [])
        ≡ ok (seen, retained))
    × ((v : String)
        → (member v seen ≡ true)
          ↔ ((u : String) × (member u ("ada" ∷ []) ≡ true) × Trail two_edges part u v))
    × (((v : String) (u : String)
          → member u ("ada" ∷ []) ≡ true
          → Trail two_edges knows_then_any u v
          → member v seen ≡ true)
        ⊎ (2 ≤ length seen))
    × ((first : PatternStep) (some_steps : List PatternStep) (next : PatternStep)
          (others : List PatternStep) (fewer : List String) (rows : List ℕ)
        → part ≡ (first ∷ some_steps) ++ next ∷ others
        → traverse_ids two_edges none (first ∷ some_steps) ("ada" ∷ []) ≡ ok (fewer, rows)
        → length fewer < 2)
traversal_stops_at_limit_example =
    traversal_stops_at_limit two_edges 2 knows_then_any ("ada" ∷ []) two_edges-IsIndexed
