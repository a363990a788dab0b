-- ===== src/Traversal/Columns.antt =====
-- crates/lynxes-lazy/src/query/executor/traversal.rs: the entries that its loops read against the columns of
-- the edge frame.
use lynxes_mojo.Common.{
  ℕ, zero, suc, ◌<◌, ◌^◌, ◌≡◌, ◌↔◌, ◌⊎◌, refl, sym, ◌∙◌, ap, subst, String, true, some, List, [],
  ◌∷◌, ◌++◌, length, get_elem?, arith, inl, inr, ⊎_elim, Has, All, member, eq_iff, member_head,
  member_tail, member_split,
}
use lynxes_mojo.Direction.{Direction, out, in_, both, none_}
use lynxes_mojo.Plan.Expressions.{EdgeTypeSpec, single, multiple, any}
use lynxes_mojo.Csr.Packing.{AllBelow}
use lynxes_mojo.Csr.Adjacency.{entries, indexed, build_lem, Has-entries_all}
use lynxes_mojo.Csr.Reverse.{build_reverse-eq-build}
use lynxes_mojo.Mutable.{Ids, get_id}
use lynxes_mojo.Traversal.{IndexedEdges, matches_edge_type, entries_of}
use lynxes_mojo.Traversal.Indexed.{Located, IsIndexed, Wanted}
use lynxes_mojo.Traversal.Names.{get_elem-length}
use lynxes_mojo.Traversal.Frontier.{AnyEntry}

pub Located-at :
    (ni : Ids) (ids : List String) (rows : List ℕ) (row : ℕ) (id : String)
    → Located ni ids rows
    → get_elem? ids row ≡ some id
    → (idx : ℕ) × (get_elem? rows row ≡ some idx) × (get_id id ni ≡ some idx)
Located-at ni [] rows row id h got = cc
Located-at ni (_ ∷ _) [] row id h got = absurd h
Located-at ni (x ∷ ids) (n ∷ rows) zero id (at, _) got =
    let same : x ≡ id = cc in (n, refl, subst (λ y. get_id y ni ≡ some n) same at)
Located-at ni (x ∷ ids) (n ∷ rows) (suc row) id (_, more) got =
    Located-at ni ids rows row id more got

pub Located-back :
    (ni : Ids) (ids : List String) (rows : List ℕ) (row idx : ℕ)
    → Located ni ids rows
    → get_elem? rows row ≡ some idx
    → (id : String) × (get_elem? ids row ≡ some id) × (get_id id ni ≡ some idx)
Located-back ni [] [] row idx h got = cc
Located-back ni [] (_ ∷ _) row idx h got = absurd h
Located-back ni (_ ∷ _) [] row idx h got = absurd h
Located-back ni (x ∷ ids) (n ∷ rows) zero idx (at, _) got = (x, refl, at ∙ got)
Located-back ni (x ∷ ids) (n ∷ rows) (suc row) idx (_, more) got =
    Located-back ni ids rows row idx more got

length-Located :
    (ni : Ids) (ids : List String) (rows : List ℕ) → Located ni ids rows → length rows ≡ length ids
length-Located ni [] [] h = refl
length-Located ni [] (_ ∷ _) h = absurd h
length-Located ni (_ ∷ _) [] h = absurd h
length-Located ni (x ∷ ids) (n ∷ rows) (_, more) = ap suc (length-Located ni ids rows more)

Located-AllBelow :
    (ni : Ids) (ids : List String) (rows : List ℕ) (n : ℕ)
    → ((id : String) (idx : ℕ) → get_id id ni ≡ some idx → idx < n)
    → Located ni ids rows
    → AllBelow n rows
Located-AllBelow ni [] [] n inside h = tt
Located-AllBelow ni [] (_ ∷ _) n inside h = absurd h
Located-AllBelow ni (_ ∷ _) [] n inside h = absurd h
Located-AllBelow ni (x ∷ ids) (m ∷ rows) n inside (at, more) =
    (inside x m at, Located-AllBelow ni ids rows n inside more)

member_iff-Has : (v : String) (xs : List String) → (member v xs ≡ true) ↔ Has v xs
unfolding member
member_iff-Has v [] = (λ h. cc, λ h. absurd h)
member_iff-Has v (x ∷ xs) = (
  λ h.
      ⊎_elim (λ same. inl (sym same)) (λ later. inr ((member_iff-Has v xs).0 later))
        (member_split v x xs h),
  ⊎_elim (λ same. subst (λ y. member v (y ∷ xs) ≡ true) same (member_head v xs))
      (λ later. member_tail v x xs ((member_iff-Has v xs).1 later)),
)

-- The test of edge types decides which are asked for.
pub matches_edge_type_iff :
    (spec : EdgeTypeSpec) (edge_type : String)
    → (matches_edge_type edge_type spec ≡ true) ↔ Wanted spec edge_type
unfolding matches_edge_type
matches_edge_type_iff (single value) edge_type = eq_iff edge_type value
matches_edge_type_iff (multiple values) edge_type = member_iff-Has edge_type values
matches_edge_type_iff any edge_type = (λ h. tt, λ h. refl)

pub AnyEntry-map :
    (P Q : ℕ × ℕ → Type 0) (xs : List (ℕ × ℕ))
    → ((entry : ℕ × ℕ) → P entry → Q entry)
    → AnyEntry P xs
    → AnyEntry Q xs
AnyEntry-map P Q [] f h = h
AnyEntry-map P Q (x ∷ xs) f h =
    ⊎_elim (λ here. inl (f x here)) (λ later. inr (AnyEntry-map P Q xs f later)) h

pub AnyEntry-Has :
    (P : ℕ × ℕ → Type 0) (xs : List (ℕ × ℕ))
    → AnyEntry P xs ↔ ((entry : ℕ × ℕ) × Has entry xs × P entry)
AnyEntry-Has P [] = (λ h. absurd h, λ (_, never, _). absurd never)
AnyEntry-Has P (x ∷ xs) = (
  ⊎_elim (λ here. (x, inl refl, here))
      (λ later.
        let (entry, listed, holds) = (AnyEntry-Has P xs).0 later in (entry, inr listed, holds)),
  λ (entry, listed, holds).
      ⊎_elim (λ same. inl (subst P same holds))
        (λ later. inr ((AnyEntry-Has P xs).1 (entry, later, holds))) listed,
)

pub AnyEntry-append :
    (P : ℕ × ℕ → Type 0) (xs ys : List (ℕ × ℕ))
    → AnyEntry P (xs ++ ys) ↔ (AnyEntry P xs ⊎ AnyEntry P ys)
AnyEntry-append P [] ys = (inr, ⊎_elim (λ never. absurd never) (λ h. h))
AnyEntry-append P (x ∷ xs) ys = (
  ⊎_elim (λ here. inl (inl here))
      (λ later. ⊎_elim (λ l. inl (inr l)) inr ((AnyEntry-append P xs ys).0 later)),
  ⊎_elim (⊎_elim inl (λ l. inr ((AnyEntry-append P xs ys).1 (inl l))))
      (λ r. inr ((AnyEntry-append P xs ys).1 (inr r))),
)

-- All of the listed are such.
pub All-Has : {A : Type 0} (P : A → Type 0) (xs : List A) → ((x : A) → Has x xs → P x) → All P xs
All-Has P [] f = tt
All-Has P (x ∷ xs) f = (f x (inl refl), All-Has P xs (λ y h. f y (inr h)))

pub Has-append : {A : Type 0} (x : A) (xs ys : List A) → Has x (xs ++ ys) → Has x xs ⊎ Has x ys
Has-append x [] ys h = inr h
Has-append x (y ∷ xs) ys h =
    ⊎_elim (λ here. inl (inl here))
      (λ later. ⊎_elim (λ l. inl (inr l)) inr (Has-append x xs ys later)) h

pub some_eq : {A : Type 0} {x y : A} → some x ≡ some y → x ≡ y
some_eq h = cc

module _ (es : IndexedEdges) (indexes : IsIndexed es) where
  abbrev size : ℕ
  size = length es.node_index

  abbrev sources : AllBelow size indexes.src_rows
  sources =
      Located-AllBelow es.node_index es.src indexes.src_rows size indexes.inside indexes.src_located

  abbrev targets : AllBelow size indexes.dst_rows
  targets =
      Located-AllBelow es.node_index es.dst indexes.dst_rows size indexes.inside indexes.dst_located

  same_length : length indexes.src_rows ≡ length indexes.dst_rows
  same_length =
      length-Located es.node_index es.src indexes.src_rows indexes.src_located
      ∙ indexes.one_length
      ∙ sym (length-Located es.node_index es.dst indexes.dst_rows indexes.dst_located)

  few : length indexes.src_rows < 2 ^ 32
  few =
      let all = length-Located es.node_index es.src indexes.src_rows indexes.src_located in
      let small = indexes.small in omega (arith, all, small)

  pub out_csr-entries :
      (idx d r : ℕ)
      → Has (d, r) (entries es.out_csr idx)
        ↔ ((get_elem? indexes.src_rows r ≡ some idx) × (get_elem? indexes.dst_rows r ≡ some d))
  out_csr-entries idx d r =
      let both_ways : some (indexed size indexes.src_rows indexes.dst_rows) ≡ some es.out_csr =
        sym (build_lem indexes.src_rows indexes.dst_rows size same_length sources few)
        ∙ indexes.out_built in
      subst
        (λ c.
          Has (d, r) (entries c idx)
          ↔ ((get_elem? indexes.src_rows r ≡ some idx) × (get_elem? indexes.dst_rows r ≡ some d)))
        (some_eq both_ways)
        (Has-entries_all indexes.src_rows indexes.dst_rows size same_length sources few idx d r)

  pub in_csr-entries :
      (idx d r : ℕ)
      → Has (d, r) (entries es.in_csr idx)
        ↔ ((get_elem? indexes.dst_rows r ≡ some idx) × (get_elem? indexes.src_rows r ≡ some d))
  in_csr-entries idx d r =
      let few' : length indexes.dst_rows < 2 ^ 32 =
        let same = same_length in let f = few in omega (arith, same, f) in
      let both_ways : some (indexed size indexes.dst_rows indexes.src_rows) ≡ some es.in_csr =
        sym (build_lem indexes.dst_rows indexes.src_rows size (sym same_length) targets few')
        ∙ sym (build_reverse-eq-build indexes.src_rows indexes.dst_rows size same_length)
        ∙ indexes.in_built in
      subst
        (λ c.
          Has (d, r) (entries c idx)
          ↔ ((get_elem? indexes.dst_rows r ≡ some idx) × (get_elem? indexes.src_rows r ≡ some d)))
        (some_eq both_ways)
        (Has-entries_all indexes.dst_rows indexes.src_rows size (sym same_length) targets few' idx d
          r)

  out_row : (idx d r : ℕ) → Has (d, r) (entries es.out_csr idx) → r < length es.src
  out_row idx d r listed =
      let at = get_elem-length indexes.src_rows r idx ((out_csr-entries idx d r).0 listed).0 in
      let all = length-Located es.node_index es.src indexes.src_rows indexes.src_located in
      omega (arith, at, all)

  in_row : (idx d r : ℕ) → Has (d, r) (entries es.in_csr idx) → r < length es.src
  in_row idx d r listed =
      let at = get_elem-length indexes.src_rows r d ((in_csr-entries idx d r).0 listed).1 in
      let all = length-Located es.node_index es.src indexes.src_rows indexes.src_located in
      omega (arith, at, all)

  both_rows :
      (idx d r : ℕ)
      → Has (d, r) (entries es.out_csr idx ++ entries es.in_csr idx)
      → r < length es.src
  both_rows idx d r listed =
      ⊎_elim (out_row idx d r) (in_row idx d r)
        (Has-append (d, r) (entries es.out_csr idx) (entries es.in_csr idx) listed)

  -- Every entry of a node is of a row of the columns.
  pub entries_of-inside :
      (direction : Direction) (idx d r : ℕ)
      → Has (d, r) (entries_of es direction idx)
      → r < length es.src
  unfolding entries_of
  entries_of-inside out idx d r listed = out_row idx d r listed
  entries_of-inside in_ idx d r listed = in_row idx d r listed
  entries_of-inside both idx d r listed = both_rows idx d r listed
  entries_of-inside none_ idx d r listed = both_rows idx d r listed
