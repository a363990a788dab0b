-- ===== src/Components/Connectivity.antt =====
-- crates/lynxes-core/src/algo/connected_components.rs: the ids that `compute_components` returns are those
-- of the connected components.
use lynxes_mojo.Common.{
  ℕ, zero, suc, ◌<◌, ◌^◌, ◌≡◌, ◌↔◌, refl, ap, sym, ◌∙◌, String, Option, none, some, List, [], ◌∷◌,
  map, length, get_elem?, get_or, replicate, arith, ⊎_elim, Has, length-map, subst,
}
use lynxes_mojo.Outcome.{ok}
use lynxes_mojo.Csr.{neighbors}
use lynxes_mojo.Csr.Packing.{AllBelow}
use lynxes_mojo.Mutable.{get_id}
use lynxes_mojo.Traversal.{IndexedEdges}
use lynxes_mojo.Components.{edge_indexes, fill_rows, compute_components, unwrap_or_zero}
use lynxes_mojo.Components.Labels.{label, label_some-inside}
use lynxes_mojo.Components.Queue.{adjacent, Linked, IsUndirected}
use lynxes_mojo.Components.Rows.{Covered, label_rows-Covered}
use lynxes_mojo.Components.Lookups.{label-replicate, length-fill_rows, IsInjective, links-slots}
use lynxes_mojo.Components.Adjacency.{IsDual, adjacent_sym}

get_or-unwrap :
    (ids : List (Option ℕ)) (u k : ℕ)
    → label ids u ≡ some k
    → get_or (map unwrap_or_zero ids) u 0 ≡ k
get_or-unwrap [] u k h = absurd cc
get_or-unwrap (x ∷ ids) zero k h = rw h refl
get_or-unwrap (x ∷ ids) (suc u) k h = get_or-unwrap ids u k h

get_elem-inside : (xs : List ℕ) (k : ℕ) → k < length xs → (x : ℕ) × (get_elem? xs k ≡ some x)
get_elem-inside [] k inside = absurd (omega (arith, inside))
get_elem-inside (x ∷ xs) zero inside = (x, refl)
get_elem-inside (x ∷ xs) (suc k) inside = get_elem-inside xs k (omega (arith, inside))

get_elem-lt : (xs : List ℕ) (k x : ℕ) → get_elem? xs k ≡ some x → k < length xs
get_elem-lt [] k x h = absurd cc
get_elem-lt (y ∷ xs) zero x h = omega arith
get_elem-lt (y ∷ xs) (suc k) x h = omega (arith, get_elem-lt xs k x h)

length-replicate-none : (n : ℕ) → length (replicate {A = Option ℕ} n none) ≡ n
length-replicate-none zero = refl
length-replicate-none (suc n) = ap suc (length-replicate-none n)

module _ (es : IndexedEdges) (links slots : List (Option ℕ)) where
  Linked-trans :
      {u v w : ℕ}
      → Linked es links slots u v
      → Linked es links slots v w
      → Linked es links slots u w
  Linked-trans p Linked.here = p
  Linked-trans p (Linked.step q adj) = Linked.step (Linked-trans p q) adj

  Linked-sym :
      ((u v : ℕ) → Has v (adjacent es links slots u) → Has u (adjacent es links slots v))
      → {u v : ℕ} → Linked es links slots u v
      → Linked es links slots v u
  Linked-sym back Linked.here = Linked.here
  Linked-sym back (Linked.step {v = v} {w = w} p adj) =
      Linked-trans (Linked.step Linked.here (back v w adj)) (Linked-sym back p)

  -- Before the first row nothing is labelled.
  none-Covered : (n : ℕ) (g : IsUndirected es links slots n) → Covered g 0 [] (replicate n none)
  none-Covered n g = record {
    inv = record {
      long = length-replicate-none n;
      rooted = λ u k h. absurd let never = label-replicate n u in cc;
      closed = λ u k v h adj. absurd let never = label-replicate n u in cc;
      waits = λ u h. absurd h;
    };
    started = λ k r h. absurd cc;
    below = λ u lt. absurd (omega (arith, lt));
    few = omega arith;
  }

  module _ (n : ℕ) (g : IsUndirected es links slots n) (starts : List ℕ) (ids : List (Option ℕ))
      (c : Covered g n starts ids) where
    -- A label spreads along edges.
    spread :
        {u v : ℕ} (k : ℕ) → Linked es links slots u v → label ids u ≡ some k → label ids v ≡ some k
    spread k Linked.here h = h
    spread k (Linked.step {v = v} {w = w} p adj) h =
        ⊎_elim (λ inside. inside) (λ nowhere. absurd nowhere)
          (c.inv.closed v k w (spread k p h) adj)

    labels-Linked :
        (u v k : ℕ) → label ids u ≡ some k → label ids v ≡ some k → Linked es links slots u v
    labels-Linked u v k hu hv =
        let (r, start, to_u) = c.inv.rooted u k hu in
        let (r', start', to_v) = c.inv.rooted v k hv in
        let one : r' ≡ r = cc in
        Linked-trans (Linked-sym g.symmetric to_u) (subst (λ x. Linked es links slots x v) one to_v)

    pub same_id-Linked :
        (u v : ℕ)
        → u < n
        → v < n
        → (get_or (map unwrap_or_zero ids) u 0 ≡ get_or (map unwrap_or_zero ids) v 0)
          ↔ Linked es links slots u v
    same_id-Linked u v in_u in_v =
        let (k, hu) = c.below u in_u in
        let (k', hv) = c.below v in_v in
        let ku = get_or-unwrap ids u k hu in
        let kv = get_or-unwrap ids v k' hv in
        (
          λ same. let eq : k' ≡ k = sym kv ∙ sym same ∙ ku in labels-Linked u v k hu (rw eq at hv),
          λ linked. let spread_v = spread k linked hu in ku ∙ sym (get_or-unwrap ids v k spread_v),
        )

    pub id_bound : (u : ℕ) → u < n → get_or (map unwrap_or_zero ids) u 0 < length starts
    id_bound u inside =
        let (k, h) = c.below u inside in
        let (r, start, _) = c.inv.rooted u k h in
        rw (get_or-unwrap ids u k h) (get_elem-lt starts k r start)

    pub id_used :
        (k : ℕ) → k < length starts → (u : ℕ) × (u < n) × (get_or (map unwrap_or_zero ids) u 0 ≡ k)
    id_used k inside =
        let (r, start) = get_elem-inside starts k inside in
        let h = c.started k r start in
        (r, subst (λ m. r < m) c.inv.long (label_some-inside ids r k h), get_or-unwrap ids r k h)

length-edge_indexes :
    (es : IndexedEdges) (node_ids : List String)
    → length (edge_indexes es node_ids) ≡ length node_ids
unfolding edge_indexes
length-edge_indexes es node_ids = length-map (λ id. get_id id es.node_index) node_ids

module _ (es : IndexedEdges) (node_ids : List String) (slots : List (Option ℕ)) (dual : IsDual es)
    (injective : IsInjective (edge_indexes es node_ids))
    (run : fill_rows (edge_indexes es node_ids) 0 (replicate (length es.node_index) none)
      ≡ ok slots)
    (narrow : length node_ids < 2 ^ 32) where
  undirected : IsUndirected es (edge_indexes es node_ids) slots (length node_ids)
  undirected = record {
    links_long = length-edge_indexes es node_ids;
    rows_below = λ e row found.
        subst (λ m. row < m) (length-edge_indexes es node_ids)
          (label_some-inside (edge_indexes es node_ids) row e (
            links-slots (edge_indexes es node_ids) slots (length es.node_index) injective run e row
              found));
    out_below =
        λ e. subst (λ m. AllBelow m (neighbors es.out_csr e)) (sym slots_long) (dual.out_below e);
    in_below =
        λ e. subst (λ m. AllBelow m (neighbors es.in_csr e)) (sym slots_long) (dual.in_below e);
    symmetric = adjacent_sym es (edge_indexes es node_ids) slots dual injective run;
  }
    where
      slots_long : length slots ≡ length es.node_index
      slots_long =
          length-fill_rows (edge_indexes es node_ids) 0 (replicate (length es.node_index) none)
            slots run
          ∙ length-replicate-none (length es.node_index)

  components_Covered :
      (ids : List (Option ℕ)) × (starts : List ℕ) × (compute_components es node_ids
        ≡ ok (map unwrap_or_zero ids, length starts))
      × Covered undirected (length node_ids) starts ids
  unfolding compute_components
  components_Covered =
      let (ids, starts, labelled, covered) =
        label_rows-Covered undirected (length node_ids) 0 [] (replicate (length node_ids) none)
          (none-Covered es (edge_indexes es node_ids) slots (length node_ids) undirected)
          (omega arith) narrow in
      (ids, starts, rw (run, labelled) refl, covered)

  -- The incoming index of the edges is the outgoing one turned round, both within their nodes, no two
  -- node rows have one edge index, the table of rows is filled, and there are fewer than 2^32 rows:
  -- then `compute_components` returns an id for each row, and two rows have the same id exactly if
  -- edges, followed in either direction, lead from the one to the other.
  pub same_component_iff_Linked :
      (cids : List ℕ) × (count : ℕ) × (compute_components es node_ids ≡ ok (cids, count))
      × (length cids ≡ length node_ids)
      × ((u v : ℕ)
          → u < length node_ids
          → v < length node_ids
          → (get_or cids u 0 ≡ get_or cids v 0) ↔ Linked es (edge_indexes es node_ids) slots u v)
  same_component_iff_Linked =
      let (ids, starts, computed, covered) = components_Covered in
      (
        map unwrap_or_zero ids,
        length starts,
        computed,
        length-map unwrap_or_zero ids ∙ covered.inv.long,
        same_id-Linked es (edge_indexes es node_ids) slots (length node_ids) undirected starts ids
            covered,
      )

  -- The incoming index of the edges is the outgoing one turned round, both within their nodes, no two
  -- node rows have one edge index, the table of rows is filled, and there are fewer than 2^32 rows:
  -- then `compute_components` returns an id for each row, and the ids are the numbers below the number
  -- of components that it returns: every row's id is, and every such number is some row's id.
  pub component_ids_dense :
      (cids : List ℕ) × (count : ℕ) × (compute_components es node_ids ≡ ok (cids, count))
      × (length cids ≡ length node_ids)
      × ((u : ℕ) → u < length node_ids → get_or cids u 0 < count)
      × ((k : ℕ) → k < count → (u : ℕ) × (u < length node_ids) × (get_or cids u 0 ≡ k))
  component_ids_dense =
      let (ids, starts, computed, covered) = components_Covered in
      (
        map unwrap_or_zero ids,
        length starts,
        computed,
        length-map unwrap_or_zero ids ∙ covered.inv.long,
        id_bound es (edge_indexes es node_ids) slots (length node_ids) undirected starts ids
            covered,
        id_used es (edge_indexes es node_ids) slots (length node_ids) undirected starts ids covered,
      )
