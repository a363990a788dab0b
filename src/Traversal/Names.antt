-- ===== src/Traversal/Names.antt =====
-- crates/lynxes-lazy/src/query/executor/traversal.rs, `build_edge_node_ids`: the ids by their indexes.
use lynxes_mojo.Common.{
  ℕ, zero, suc, ◌<◌, ◌≡◌, ◌⊎◌, refl, sym, ◌∙◌, ap, subst, String, some, List, [], ◌∷◌, length,
  get_elem?, set, replicate, zip, arith, Bool-cases, inl, inr, ⊎_elim, str_eq, eq_iff,
}
use lynxes_mojo.Outcome.{Outcome, ok}
use lynxes_mojo.Mutable.{get_id}
use lynxes_mojo.Traversal.{IndexedEdges, put_id, put_rows, build_edge_node_ids}
use lynxes_mojo.Traversal.Indexed.{Located, IsIndexed}
use lynxes_mojo.Traversal.Frontier.{get_elem-inside}

pub get_elem-length :
    {A : Type 0} (xs : List A) (i : ℕ) (x : A) → get_elem? xs i ≡ some x → i < length xs
get_elem-length [] i x h = cc
get_elem-length (y ∷ xs) zero x h = omega arith
get_elem-length (y ∷ xs) (suc i) x h = omega (arith, get_elem-length xs i x h)

get_elem-set :
    (xs : List String) (i : ℕ) (v : String) → i < length xs → get_elem? (set xs i v) i ≡ some v
get_elem-set [] i v inside = absurd (omega (arith, inside))
get_elem-set (x ∷ xs) zero v inside = refl
get_elem-set (x ∷ xs) (suc i) v inside = get_elem-set xs i v (omega (arith, inside))

-- What is read after a write is what was written, or was there before.
set-get_elem :
    (xs : List String) (i j : ℕ) (v x : String)
    → get_elem? (set xs i v) j ≡ some x
    → ((i ≡ j) × (v ≡ x)) ⊎ (get_elem? xs j ≡ some x)
set-get_elem [] i j v x h = inr h
set-get_elem (y ∷ xs) zero zero v x h = let same : v ≡ x = cc in inl (refl, same)
set-get_elem (y ∷ xs) zero (suc j) v x h = inr h
set-get_elem (y ∷ xs) (suc i) zero v x h = inr h
set-get_elem (y ∷ xs) (suc i) (suc j) v x h =
    ⊎_elim (λ (at, same). inl (ap suc at, same)) inr (set-get_elem xs i j v x h)

get_elem-set_other :
    (xs : List String) (i j : ℕ) (v w : String)
    → get_elem? xs j ≡ some w
    → ((i ≡ j) → v ≡ w)
    → get_elem? (set xs i v) j ≡ some w
get_elem-set_other [] i j v w h same = h
get_elem-set_other (y ∷ xs) zero zero v w h same = ap some (same refl)
get_elem-set_other (y ∷ xs) zero (suc j) v w h same = h
get_elem-set_other (y ∷ xs) (suc i) zero v w h same = h
get_elem-set_other (y ∷ xs) (suc i) (suc j) v w h same =
    get_elem-set_other xs i j v w h (λ at. same (ap suc at))

length-set : (xs : List String) (i : ℕ) (v : String) → length (set xs i v) ≡ length xs
length-set [] i v = refl
length-set (x ∷ xs) zero v = refl
length-set (x ∷ xs) (suc i) v = ap suc (length-set xs i v)

replicate-get_elem :
    (n i : ℕ) (x : String) → get_elem? (replicate {A = String} n "") i ≡ some x → x ≡ ""
replicate-get_elem zero i x h = cc
replicate-get_elem (suc n) zero x h = let same : "" ≡ x = cc in sym same
replicate-get_elem (suc n) (suc i) x h = replicate-get_elem n i x h

length-replicate_text : (n : ℕ) → length (replicate {A = String} n "") ≡ n
length-replicate_text zero = refl
length-replicate_text (suc n) = ap suc (length-replicate_text n)

module _ (es : IndexedEdges) (indexed : IsIndexed es) where
  -- Every entry is empty or the id of its index.
  record Filled (names : List String) : Type 0 where
    whole : length names ≡ length es.node_index
    owned :
        (i : ℕ) (x : String)
        → get_elem? names i ≡ some x
        → (x ≡ "") ⊎ (get_id x es.node_index ≡ some i)

  -- The id stands at its index.
  abbrev pub Stands : List String → String → Type 0
  Stands names id = (i : ℕ) → get_id id es.node_index ≡ some i → get_elem? names i ≡ some id

  abbrev Put : List String → Outcome (List String) → (String → Type 0) → Type 0
  Put names outcome New =
      (names' : List String) × (outcome ≡ ok names')
      × Filled names'
      × ((id : String) → Stands names id → Stands names' id)
      × ((id : String) → New id → Stands names' id)

  put_id-Put :
      (id : String) (idx : ℕ) (names : List String)
      → get_id id es.node_index ≡ some idx
      → Filled names
      → Put names (put_id es id names) (λ other. other ≡ id)
  unfolding put_id
  put_id-Put id idx names at filled =
      let inside : idx < length names = omega (arith, indexed.inside id idx at, filled.whole) in
      let (old, got) = get_elem-inside names idx inside in
      elim (Bool-cases (str_eq old "")) [
        | inl empty ↦ (
          set names idx id,
          rw (put_id, at, got) (rw empty refl),
          record {
            whole = length-set names idx id ∙ filled.whole;
            owned = λ i x h.
                ⊎_elim
                  (λ (here, same).
                    inr (subst (λ y. get_id y es.node_index ≡ some i) same (at ∙ ap some here)))
                  (filled.owned i x) (set-get_elem names idx i id x h);
          },
          λ other stands i at'.
              get_elem-set_other names idx i id other (stands i at')
                (λ here. indexed.distinct id other i (at ∙ ap some here) at'),
          λ other same i at'.
              let at'' : get_id id es.node_index ≡ some i =
                subst (λ y. get_id y es.node_index ≡ some i) same at' in
              let both_ways : some idx ≡ some i = sym at ∙ at'' in
              let here : idx ≡ i = cc in
              subst (λ k. get_elem? (set names idx id) k ≡ some other) here
                (get_elem-set names idx id inside ∙ ap some (sym same)),
        )
        | inr taken ↦ (
          names,
          rw (put_id, at, got) (rw taken refl),
          filled,
          λ other stands. stands,
          λ other same i at'.
              let at'' : get_id id es.node_index ≡ some i =
                subst (λ y. get_id y es.node_index ≡ some i) same at' in
              let both_ways : some idx ≡ some i = sym at ∙ at'' in
              let here : idx ≡ i = cc in
              ⊎_elim (λ empty. absurd let is_empty = (eq_iff old "").1 empty in cc)
                (λ owns.
                  let same_id : old ≡ id = indexed.distinct old id idx owns at in
                  subst (λ k. get_elem? names k ≡ some other) here
                    (got ∙ ap some (same_id ∙ sym same)))
                (filled.owned idx old got),
        )
      ]

  -- The ids of the rows.
  abbrev Ends : List (String × String) → String → Type 0
  Ends [] id = ⊥
  Ends ((src, dst) ∷ rows) id = (id ≡ src) ⊎ (id ≡ dst) ⊎ Ends rows id

  put_rows-Put :
      (ss ds : List String) (ns ms : List ℕ) (names : List String)
      → Located es.node_index ss ns
      → Located es.node_index ds ms
      → Filled names
      → Put names (put_rows es (zip ss ds) names) (Ends (zip ss ds))
  unfolding put_rows
  put_rows-Put [] ds [] ms names a b filled =
      (names, refl, filled, λ id stands. stands, λ id never. absurd never)
  put_rows-Put [] ds (_ ∷ _) ms names a b filled = absurd a
  put_rows-Put (_ ∷ _) ds [] ms names a b filled = absurd a
  put_rows-Put (s ∷ ss) [] (n ∷ ns) ms names a b filled =
      (names, refl, filled, λ id stands. stands, λ id never. absurd never)
  put_rows-Put (s ∷ ss) (d ∷ ds) (n ∷ ns) [] names a b filled = absurd b
  put_rows-Put (s ∷ ss) (d ∷ ds) (n ∷ ns) (m ∷ ms) names (a, more) (b, others) filled =
      let (with_src, run, filled', keeps, puts) = put_id-Put s n names a filled in
      let (with_dst, run', filled'', keeps', puts') = put_id-Put d m with_src b filled' in
      let (final, rest, whole, keeps'', puts'') =
        put_rows-Put ss ds ns ms with_dst more others filled'' in
      (
        final,
        rw (run, run') rest,
        whole,
        λ id stands. keeps'' id (keeps' id (keeps id stands)),
        λ id.
            ⊎_elim (λ same. keeps'' id (keeps' id (puts id same)))
              (⊎_elim (λ same. keeps'' id (puts' id same)) (puts'' id)),
      )

  Ends-row :
      (ss ds : List String) (row : ℕ) (u v : String)
      → get_elem? ss row ≡ some u
      → get_elem? ds row ≡ some v
      → Ends (zip ss ds) u × Ends (zip ss ds) v
  Ends-row [] ds row u v a b = cc
  Ends-row (s ∷ ss) [] row u v a b = cc
  Ends-row (s ∷ ss) (d ∷ ds) zero u v a b =
      let one : s ≡ u = cc in let two : d ≡ v = cc in (inl (sym one), inr (inl (sym two)))
  Ends-row (s ∷ ss) (d ∷ ds) (suc row) u v a b =
      let (one, two) = Ends-row ss ds row u v a b in (inr (inr one), inr (inr two))

  -- The ids of every row stand at their indexes.
  abbrev pub Names : List String → Type 0
  Names names =
      (row : ℕ) (u v : String)
      → get_elem? es.src row ≡ some u
      → get_elem? es.dst row ≡ some v
      → Stands names u × Stands names v

  pub build_edge_node_ids_lem :
      (names : List String) × (build_edge_node_ids es ≡ ok names)
      × Names names
      × ((i : ℕ) (x : String) → get_elem? names i ≡ some x → get_id x es.node_index ≡ some i)
  unfolding build_edge_node_ids
  build_edge_node_ids_lem =
      let size = length es.node_index in
      let (names, run, fills, _, puts) =
        put_rows-Put es.src es.dst indexed.src_rows indexed.dst_rows (replicate size "")
          indexed.src_located indexed.dst_located
          (record {
            whole = length-replicate_text size;
            owned = λ i x h. inl (replicate-get_elem size i x h);
          }) in
      (
        names,
        run,
        λ row u v from to.
            let (one, two) = Ends-row es.src es.dst row u v from to in (puts u one, puts v two),
        λ i x h.
            let below = get_elem-length names i x h in
            let whole = fills.whole in
            let (id, at, (row, u, v, from, to, which)) =
              indexed.filled i (omega (arith, below, whole)) in
            let (one, two) = Ends-row es.src es.dst row u v from to in
            let stands : Stands names id =
              ⊎_elim (λ same. subst (λ w. Stands names w) (sym same) (puts u one))
                (λ same. subst (λ w. Stands names w) (sym same) (puts v two)) which in
            let both_ways : some id ≡ some x = sym (stands i at) ∙ h in
            let same : id ≡ x = cc in subst (λ w. get_id w es.node_index ≡ some i) same at,
      )
