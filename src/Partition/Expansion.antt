-- ===== src/Partition/Expansion.antt =====
-- crates/lynxes-core/src/algo/partition.rs: what one round of `distributed_expand` visits.
use lynxes_mojo.Common.{
  ◌≡◌, ◌↔◌, ◌⊎◌, refl, sym, subst, String, Bool, true, false, List, [], ◌∷◌, ◌++◌, if◌then◌else◌,
  Bool-cases, inl, inr, ⊎_elim, Has, member, member_split, member_head, member-append_left,
  member-append_right, member-append_split,
}
use lynxes_mojo.Direction.{Direction, out, in_, both, none_}
use lynxes_mojo.Plan.Expressions.{EdgeTypeSpec}
use lynxes_mojo.Partition.{Edge, edge_type_matches, hits, direct_expand}

abbrev pub In : String → List String → Type 0
In v ids = member v ids ≡ true

-- The edge, followed in the direction, leads from `u` to `v`.
abbrev pub Follows : Direction → Edge → String → String → Type 0
Follows out e u v = (e.src ≡ u) × (e.dst ≡ v)
Follows in_ e u v = (e.dst ≡ u) × (e.src ≡ v)
Follows both e u v = ((e.src ≡ u) × (e.dst ≡ v)) ⊎ ((e.dst ≡ u) × (e.src ≡ v))
Follows none_ e u v = ((e.src ≡ u) × (e.dst ≡ v)) ⊎ ((e.dst ≡ u) × (e.src ≡ v))

In-one : (v w : String) → In v (w ∷ []) → w ≡ v
unfolding member
In-one v w h =
    ⊎_elim (λ same. same) (λ never. absurd let no : false ≡ true = never in cc)
      (member_split v w [] h)

-- What a push under a test gives.
pub if_push : (b : Bool) (w v : String) → In v (if b then w ∷ [] else []) → (b ≡ true) × (w ≡ v)
unfolding member
if_push true w v h = (refl, In-one v w h)
if_push false w v h = absurd cc

module _ (seeds : List String) where
  hit :
      (a b v : String)
      → In v (if member a seeds then b ∷ [] else [])
        ↔ ((u : String) × In u seeds × ((a ≡ u) × (b ≡ v)))
  hit a b v = (
    λ h. let (listed, same) = if_push (member a seeds) b v h in (a, listed, (refl, same)),
    λ (u, listed, (from, to)).
        let here : member a seeds ≡ true = rw from listed in rw here (rw to (member_head v [])),
  )

  either_hit :
      (a b v : String)
      → In v ((if member a seeds then b ∷ [] else []) ++ (if member b seeds then a ∷ [] else []))
        ↔ ((u : String) × In u seeds × (((a ≡ u) × (b ≡ v)) ⊎ ((b ≡ u) × (a ≡ v))))
  either_hit a b v =
      let first = if member a seeds then b ∷ [] else [] in
      let second = if member b seeds then a ∷ [] else [] in
      (
        λ h.
            ⊎_elim (λ l. let (u, listed, f) = (hit a b v).0 l in (u, listed, inl f))
              (λ r. let (u, listed, f) = (hit b a v).0 r in (u, listed, inr f))
              (member-append_split v first second h),
        λ (u, listed, f).
            ⊎_elim (λ l. member-append_left v first second ((hit a b v).1 (u, listed, l)))
              (λ r. member-append_right v first second ((hit b a v).1 (u, listed, r))) f,
      )

  hits-Follows :
      (direction : Direction) (e : Edge) (v : String)
      → In v (hits seeds direction e) ↔ ((u : String) × In u seeds × Follows direction e u v)
  hits-Follows out e v = hit e.src e.dst v
  hits-Follows in_ e v = hit e.dst e.src v
  hits-Follows both e v = either_hit e.src e.dst v
  hits-Follows none_ e v = either_hit e.src e.dst v

module _ (spec : EdgeTypeSpec) (direction : Direction) where
  -- An edge of a wanted type leads from one of the ids to `v`.
  abbrev pub Reaches : List String → List Edge → String → Type 0
  Reaches seeds edges v =
      (e : Edge) × Has e edges
      × (edge_type_matches e spec ≡ true)
      × ((u : String) × In u seeds × Follows direction e u v)

  pub Reaches-later :
      (seeds : List String) (e : Edge) (edges : List Edge) (v : String)
      → Reaches seeds edges v
      → Reaches seeds (e ∷ edges) v
  Reaches-later seeds e edges v (d, listed, matching, found) = (d, inr listed, matching, found)

  pub direct_expand-Reaches :
      (seeds : List String) (edges : List Edge) (v : String)
      → In v (direct_expand edges seeds spec direction) ↔ Reaches seeds edges v
  unfolding direct_expand member
  direct_expand-Reaches seeds [] v = (λ h. absurd cc, λ (e, listed, _, _). absurd listed)
  direct_expand-Reaches seeds (e ∷ edges) v =
      let ih = direct_expand-Reaches seeds edges v in
      let rest = direct_expand edges seeds spec direction in
      elim (Bool-cases (edge_type_matches e spec)) [
        | inl wanted ↦
            rw (direct_expand, wanted)
              (
                λ h.
                    ⊎_elim (λ now. (e, inl refl, wanted, (hits-Follows seeds direction e v).0 now))
                      (λ later. Reaches-later seeds e edges v (ih.0 later))
                      (member-append_split v (hits seeds direction e) rest h),
                λ (d, listed, matching, found).
                    ⊎_elim
                      (λ same. member-append_left v (hits seeds direction e) rest (
                        (hits-Follows seeds direction e v).1 (
                          subst (λ x. (u : String) × In u seeds × Follows direction x u v) same
                            found)))
                      (λ later.
                        member-append_right v (hits seeds direction e) rest
                          (ih.1 (d, later, matching, found)))
                      listed,
              )
        | inr unwanted ↦
            rw (direct_expand, unwanted)
              (
                λ h. Reaches-later seeds e edges v (ih.0 h),
                λ (d, listed, matching, found).
                    ⊎_elim
                      (λ same.
                        absurd
                          let no : edge_type_matches d spec ≡ false =
                              subst (λ x. edge_type_matches x spec ≡ false) (sym same) unwanted in
                            cc)
                      (λ later. ih.1 (d, later, matching, found)) listed,
              )
      ]
