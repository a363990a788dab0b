-- ===== src/Traversal/Links.antt =====
-- crates/lynxes-lazy/src/query/executor/traversal.rs: the entries that its loops read of a node are the edges
-- of the columns at it.
use lynxes_mojo.Common.{
  ℕ, ◌≡◌, ◌↔◌, ◌⊎◌, sym, ◌∙◌, ap, String, some, List, ◌++◌, get_elem?, inl, inr, ⊎_elim,
}
use lynxes_mojo.Direction.{Direction, out, in_, both, none_}
use lynxes_mojo.Plan.Expressions.{EdgeTypeSpec}
use lynxes_mojo.Csr.Adjacency.{entries}
use lynxes_mojo.Mutable.{get_id}
use lynxes_mojo.Traversal.{IndexedEdges, entries_of}
use lynxes_mojo.Traversal.Indexed.{IsIndexed, Wanted, Links, Joins}
use lynxes_mojo.Traversal.Names.{Names}
use lynxes_mojo.Traversal.Frontier.{AnyEntry}
use lynxes_mojo.Traversal.Columns.{
  Located-at, Located-back, AnyEntry-Has, AnyEntry-append, some_eq, out_csr-entries, in_csr-entries,
}

module _ (es : IndexedEdges) (indexes : IsIndexed es) (spec : EdgeTypeSpec) (Admitted : ℕ → Type 0)
    (names : List String) (named : Names es indexes names) where
  -- The entry's row is of a wanted type and admitted, and its node is `v`.
  abbrev pub Lead : String → ℕ × ℕ → Type 0
  Lead v entry =
      (edge_type : String) × (get_elem? es.types entry.1 ≡ some edge_type)
      × Wanted spec edge_type
      × (get_elem? names entry.0 ≡ some v)
      × Admitted entry.1

  out_entries-Links :
      (u v : String) (idx : ℕ)
      → get_id u es.node_index ≡ some idx
      → AnyEntry (Lead v) (entries es.out_csr idx) ↔ Links es spec Admitted u v
  out_entries-Links u v idx at = (
    λ h.
        let ((d, r), listed, (t, got, wanted, name, admitted)) =
          (AnyEntry-Has (Lead v) (entries es.out_csr idx)).0 h in
        let (head, tail) = (out_csr-entries es indexes idx d r).0 listed in
        let (a, src, at_a) =
          Located-back es.node_index es.src indexes.src_rows r idx indexes.src_located head in
        let (b, dst, at_b) =
          Located-back es.node_index es.dst indexes.dst_rows r d indexes.dst_located tail in
        let same_u : a ≡ u = indexes.distinct a u idx at_a at in
        let same_v : b ≡ v = some_eq (sym ((named r a b src dst).1 d at_b) ∙ name) in
        (r, src ∙ ap some same_u, dst ∙ ap some same_v, t, got, wanted, admitted),
    λ (r, src, dst, t, got, wanted, admitted).
        let (i, head, at_i) =
          Located-at es.node_index es.src indexes.src_rows r u indexes.src_located src in
        let (d, tail, at_d) =
          Located-at es.node_index es.dst indexes.dst_rows r v indexes.dst_located dst in
        let here : i ≡ idx = some_eq (sym at_i ∙ at) in
        (AnyEntry-Has (Lead v) (entries es.out_csr idx)).1 (
          (d, r),
          (out_csr-entries es indexes idx d r).1 (head ∙ ap some here, tail),
          (t, got, wanted, (named r u v src dst).1 d at_d, admitted),
        ),
  )

  in_entries-Links :
      (u v : String) (idx : ℕ)
      → get_id u es.node_index ≡ some idx
      → AnyEntry (Lead v) (entries es.in_csr idx) ↔ Links es spec Admitted v u
  in_entries-Links u v idx at = (
    λ h.
        let ((d, r), listed, (t, got, wanted, name, admitted)) =
          (AnyEntry-Has (Lead v) (entries es.in_csr idx)).0 h in
        let (head, tail) = (in_csr-entries es indexes idx d r).0 listed in
        let (a, dst, at_a) =
          Located-back es.node_index es.dst indexes.dst_rows r idx indexes.dst_located head in
        let (b, src, at_b) =
          Located-back es.node_index es.src indexes.src_rows r d indexes.src_located tail in
        let same_u : a ≡ u = indexes.distinct a u idx at_a at in
        let same_v : b ≡ v = some_eq (sym ((named r b a src dst).0 d at_b) ∙ name) in
        (r, src ∙ ap some same_v, dst ∙ ap some same_u, t, got, wanted, admitted),
    λ (r, src, dst, t, got, wanted, admitted).
        let (i, head, at_i) =
          Located-at es.node_index es.dst indexes.dst_rows r u indexes.dst_located dst in
        let (d, tail, at_d) =
          Located-at es.node_index es.src indexes.src_rows r v indexes.src_located src in
        let here : i ≡ idx = some_eq (sym at_i ∙ at) in
        (AnyEntry-Has (Lead v) (entries es.in_csr idx)).1 (
          (d, r),
          (in_csr-entries es indexes idx d r).1 (head ∙ ap some here, tail),
          (t, got, wanted, (named r v u src dst).0 d at_d, admitted),
        ),
  )

  both_entries-Links :
      (u v : String) (idx : ℕ)
      → get_id u es.node_index ≡ some idx
      → AnyEntry (Lead v) (entries es.out_csr idx ++ entries es.in_csr idx)
        ↔ (Links es spec Admitted u v ⊎ Links es spec Admitted v u)
  both_entries-Links u v idx at =
      let parts = AnyEntry-append (Lead v) (entries es.out_csr idx) (entries es.in_csr idx) in
      let (ahead, back) = out_entries-Links u v idx at in
      let (ahead', back') = in_entries-Links u v idx at in
      (
        λ h. ⊎_elim (λ o. inl (ahead o)) (λ i. inr (ahead' i)) (parts.0 h),
        λ h. parts.1 (⊎_elim (λ o. inl (back o)) (λ i. inr (back' i)) h),
      )

  entries_of-Joins :
      (direction : Direction) (u v : String) (idx : ℕ)
      → get_id u es.node_index ≡ some idx
      → AnyEntry (Lead v) (entries_of es direction idx) ↔ Joins es spec Admitted direction u v
  unfolding entries_of
  entries_of-Joins out u v idx at = out_entries-Links u v idx at
  entries_of-Joins in_ u v idx at = in_entries-Links u v idx at
  entries_of-Joins both u v idx at = both_entries-Links u v idx at
  entries_of-Joins none_ u v idx at = both_entries-Links u v idx at

  Links-located :
      (u v : String)
      → Links es spec Admitted u v
      → ((i : ℕ) × (get_id u es.node_index ≡ some i))
        × ((j : ℕ) × (get_id v es.node_index ≡ some j))
  Links-located u v (r, src, dst, _, _, _, _) =
      let (i, _, at_i) =
        Located-at es.node_index es.src indexes.src_rows r u indexes.src_located src in
      let (j, _, at_j) =
        Located-at es.node_index es.dst indexes.dst_rows r v indexes.dst_located dst in
      ((i, at_i), (j, at_j))

  Joins-located :
      (direction : Direction) (u v : String)
      → Joins es spec Admitted direction u v
      → (i : ℕ) × (get_id u es.node_index ≡ some i)
  Joins-located out u v h = (Links-located u v h).0
  Joins-located in_ u v h = (Links-located v u h).1
  Joins-located both u v h = ⊎_elim (λ l. (Links-located u v l).0) (λ l. (Links-located v u l).1) h
  Joins-located none_ u v h = ⊎_elim (λ l. (Links-located u v l).0) (λ l. (Links-located v u l).1) h

  -- What the loops read of a node is what the columns hold.
  pub entries-Joins :
      (direction : Direction) (u v : String)
      → ((idx : ℕ) × (get_id u es.node_index ≡ some idx)
          × AnyEntry (Lead v) (entries_of es direction idx))
        ↔ Joins es spec Admitted direction u v
  entries-Joins direction u v = (
    λ (idx, at, h). (entries_of-Joins direction u v idx at).0 h,
    λ h.
        let (idx, at) = Joins-located direction u v h in
        (idx, at, (entries_of-Joins direction u v idx at).1 h),
  )
