-- ===== src/Schema/EdgeReports.antt =====
-- crates/lynxes-core/src/schema/schema.rs: `validate_edges` reports exactly what does not conform.
use lynxes_mojo.Common.{
  List-cases, ◌≡◌, ◌↔◌, ◌⊎◌, refl, ap, sym, ◌∙◌, String, List, [], inl, inr, ⊎_elim,
}
use lynxes_mojo.Plan.Expressions.{DataType}
use lynxes_mojo.Schema.Inheritance.{Schema}
use lynxes_mojo.Schema.Validation.{
  Claim, Report, EdgeTable, check_edges, validate_edges, starting, errors_of,
}
use lynxes_mojo.Schema.Checks.{Checks, IsUnclaimed}
use lynxes_mojo.Schema.Conforming.{EdgesConform, edge_claims, check_edges-Checks}

pub starting-Checks :
    (step : Report → Report) (P : Type 0) (claims : List Claim)
    → Checks step P claims
    → (errors_of (step (starting [])) ≡ []) ↔ (P × IsUnclaimed [] claims)
starting-Checks step P claims c = (
  λ h. let (_, p, new) = c.clean (starting []) h in (p, new),
  λ (p, new). ap errors_of (c.passes (starting []) p new),
)

-- Unless the schema declares no edge type, `validate_edges` reports nothing exactly if the type of each
-- edge is declared, each declared field that has a column has its type and that is without null where
-- the field is required, no required field is without a column, and no value of a unique field comes twice
-- in one edge type.
pub validate_edges_iff :
    (debug : DataType → String) (s : Schema) (edges : EdgeTable)
    → (validate_edges debug s edges ≡ []) ↔ (
        (s.edges ≡ [])
        ⊎ (EdgesConform s edges.columns 0 edges.rows
            × IsUnclaimed [] (edge_claims s edges.columns 0 edges.rows)))
unfolding validate_edges
validate_edges_iff debug s edges = elim (List-cases s.edges) [
  | inl undeclared ↦ (λ _. inl undeclared, λ _. rw (validate_edges, undeclared) refl)
  | inr (one, more, declared) ↦
      let run : validate_edges debug s edges
          ≡ errors_of (check_edges debug s edges.columns 0 edges.rows (starting [])) =
        simp (validate_edges, declared) refl in
      let iff =
        starting-Checks (check_edges debug s edges.columns 0 edges.rows)
          (EdgesConform s edges.columns 0 edges.rows) (edge_claims s edges.columns 0 edges.rows)
          (check_edges-Checks debug s edges.columns 0 edges.rows) in
      (λ h. inr (iff.0 (sym run ∙ h)), λ h. run ∙ ⊎_elim (λ undeclared. absurd cc) iff.1 h)
]
