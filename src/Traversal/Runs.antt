-- ===== src/Traversal/Runs.antt =====
-- crates/lynxes-lazy/src/query/executor/traversal.rs, `expand_graph_raw`: three nodes in a row, and the
-- theorems at them.
use lynxes_mojo.Common.{
  some, ◌⊎◌, ℕ, zero, suc, ◌≡◌, ◌↔◌, String, true, none, List, [], ◌∷◌, arith, refl, member, Option,
  Bool, All,
}
use lynxes_mojo.Direction.{out, try_from}
use lynxes_mojo.Outcome.{ok}
use lynxes_mojo.Plan.Expressions.{any}
use lynxes_mojo.Csr.{neighbors, edge_ids}
use lynxes_mojo.Executor.Examples.{sample_floats}
use lynxes_mojo.Executor.Frames.{Row}
use lynxes_mojo.Executor.Values.{null}
use lynxes_mojo.Traversal.{entries_of}
use lynxes_mojo.Traversal.Examples.{
  two_edges, two_names, two_names_built, two_edges_typed, no_entries, two_edges-IsIndexed,
}
use lynxes_mojo.Traversal.Expand.{
  candidate_passes_pre_filter, NodeRows, expand_graph_raw, expand_chunks,
}
use lynxes_mojo.Traversal.Candidates.{IsCoded, IsReadable}
use lynxes_mojo.Traversal.Expansion.{
  Follows, HasCodes, Decided, expansion_stops_at_limit, expansion_visits_hops,
}
use lynxes_mojo.Common.{WithinHops, length, set_extend, ◌≤◌}
use lynxes_mojo.Traversal.Parallel.{expand_chunks_serial}

abbrev no_columns : Row
no_columns name = ok null

abbrev three_rows : NodeRows
three_rows = record {
  columns = [];
  rows = ("ada", no_columns) ∷ ("bob", no_columns) ∷ ("cyd", no_columns) ∷ [];
}

abbrev any_id : String → Bool
any_id id = true

-- Both edges lead out.
abbrev two_codes : List ℕ
two_codes = 0 ∷ 0 ∷ []

one_hop_run :
    expand_graph_raw sample_floats two_edges two_codes three_rows any out none none 1 ("ada" ∷ [])
    ≡ ok ("bob" ∷ "ada" ∷ [], 0 ∷ [])
unfolding expand_graph_raw neighbors edge_ids
one_hop_run = refl

chunks_run :
    expand_chunks sample_floats two_edges two_codes three_rows any out none 1
      (("ada" ∷ []) ∷ ("bob" ∷ []) ∷ [])
      []
      []
    ≡ ok ("cyd" ∷ "ada" ∷ "bob" ∷ [], 1 ∷ 0 ∷ [])
unfolding expand_chunks neighbors edge_ids
chunks_run = refl

two_codes-IsCoded :
    (idx : ℕ) → All (λ entry. IsCoded two_codes entry.1) (entries_of two_edges out idx)
unfolding entries_of neighbors edge_ids try_from
two_codes-IsCoded zero = ((0, out, refl, refl), tt)
two_codes-IsCoded (suc zero) = ((0, out, refl, refl), tt)
two_codes-IsCoded (suc (suc zero)) = tt
two_codes-IsCoded (suc (suc (suc idx))) =
    rw (no_entries two_edges.out_csr (suc (suc (suc idx))) (omega arith)) tt

two_edges_readable :
    (stop_at : Option ℕ)
    → IsReadable sample_floats two_edges two_codes three_rows two_names any out none stop_at any_id
unfolding candidate_passes_pre_filter
two_edges_readable stop_at = record {
  typed = two_edges_typed out;
  coded = two_codes-IsCoded;
  tested = λ i id h. refl;
}

two_codes-HasCodes : HasCodes two_edges two_codes
two_codes-HasCodes zero h = (0, refl, omega arith)
two_codes-HasCodes (suc zero) h = (0, refl, omega arith)
two_codes-HasCodes (suc (suc n)) h = absurd (omega (arith, h))

any_id-Decided : Decided sample_floats two_edges three_rows none any_id
unfolding candidate_passes_pre_filter
any_id-Decided id idx h = refl

expansion_stops_at_limit_example :
    (visited : List String) × (retained_rows : List ℕ) × (expand_graph_raw sample_floats two_edges
        two_codes three_rows any out none
        (some 2)
        2
        ("ada" ∷ [])
      ≡ ok (visited, retained_rows))
    × ((v : String) → member v ("ada" ∷ []) ≡ true → member v visited ≡ true)
    × ((v : String)
        → member v visited ≡ true
        → WithinHops (Follows two_edges two_codes any out any_id) ("ada" ∷ []) 2 v)
    × (((v : String)
          → WithinHops (Follows two_edges two_codes any out any_id) ("ada" ∷ []) 2 v
          → member v visited ≡ true)
        ⊎ (2 ≤ length visited))
    × ((length visited ≤ 2) ⊎ (length visited ≤ suc (length (set_extend [] ("ada" ∷ [])))))
expansion_stops_at_limit_example =
    expansion_stops_at_limit sample_floats two_edges two_codes three_rows any out none any_id 2 2
      ("ada" ∷ []) two_edges-IsIndexed two_codes-HasCodes any_id-Decided

expansion_visits_hops_example :
    (visited : List String) × (retained_rows : List ℕ) × (expand_graph_raw sample_floats two_edges
        two_codes three_rows any out none none 2
        ("ada" ∷ [])
      ≡ ok (visited, retained_rows))
    × ((v : String)
        → (member v visited ≡ true)
          ↔ WithinHops (Follows two_edges two_codes any out any_id) ("ada" ∷ []) 2 v)
expansion_visits_hops_example =
    expansion_visits_hops sample_floats two_edges two_codes three_rows any out none any_id 2
      ("ada" ∷ []) two_edges-IsIndexed two_codes-HasCodes any_id-Decided

expand_chunks_serial_example :
    (visited : List String) × (retained_rows : List ℕ) × (serial_visited : List String)
    × (serial_rows : List ℕ) × (expand_chunks sample_floats two_edges two_codes three_rows any out
          none 1
          (("ada" ∷ []) ∷ ("bob" ∷ []) ∷ [])
          []
          []
        ≡ ok (visited, retained_rows))
    × (expand_graph_raw sample_floats two_edges two_codes three_rows any out none none 1
          ("ada" ∷ "bob" ∷ [])
        ≡ ok (serial_visited, serial_rows))
    × ((v : String) → (member v visited ≡ true) ↔ (member v serial_visited ≡ true))
expand_chunks_serial_example =
    expand_chunks_serial sample_floats two_edges two_codes three_rows two_names any out none any_id
      1 (("ada" ∷ []) ∷ ("bob" ∷ []) ∷ []) two_names_built (two_edges_readable none)
