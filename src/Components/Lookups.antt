-- ===== src/Components/Lookups.antt =====
-- crates/lynxes-core/src/algo/connected_components.rs: the two tables between node rows and edge indexes
-- are inverse to one another, so adjacency goes both ways.
use lynxes_mojo.Common.{
  ℕ, zero, suc, ◌+◌, ◌<◌, ◌≡◌, ◌⊎◌, refl, ap, sym, ◌∙◌, Option, none, some, List, [], ◌∷◌, length,
  set, replicate, arith, inl, inr, ⊎_elim, Bool-cases, ==_iff, ◌==◌, ltb, if◌then◌else◌, true,
}
use lynxes_mojo.Outcome.{ok}
use lynxes_mojo.Components.{fill_rows}
use lynxes_mojo.Components.Labels.{label, label-set, length-set}

ltb-lt : (a b : ℕ) → ltb a b ≡ true → a < b
ltb-lt a b h = ground (arith, h)

fill_rows-some :
    (eidx row : ℕ) (links slots slots' : List (Option ℕ))
    → fill_rows (some eidx ∷ links) row slots ≡ ok slots'
    → (eidx < length slots) × (fill_rows links (suc row) (set slots eidx (some row)) ≡ ok slots')
unfolding fill_rows
fill_rows-some eidx row links slots slots' run = elim (Bool-cases (ltb eidx (length slots))) [
  | inl inside ↦ (ltb-lt eidx (length slots) inside, rw inside at run)
  | inr outside ↦ absurd let failed = rw outside at run in cc
]

-- What the table holds at the end comes from a link, or was there.
pub fill_rows-label :
    (links : List (Option ℕ)) (row : ℕ) (slots slots' : List (Option ℕ)) (e u : ℕ)
    → fill_rows links row slots ≡ ok slots'
    → label slots' e ≡ some u
    → (label slots e ≡ some u) ⊎ ((i : ℕ) × (u ≡ row + i) × (label links i ≡ some e))
unfolding fill_rows
fill_rows-label [] row slots slots' e u run h = let same : slots ≡ slots' = cc in inl (rw same h)
fill_rows-label (none ∷ links) row slots slots' e u run h =
    ⊎_elim inl (λ (i, at, link). inr (suc i, omega (arith, at), link))
      (fill_rows-label links (suc row) slots slots' e u run h)
fill_rows-label (some eidx ∷ links) row slots slots' e u run h =
    let (inside, rest) = fill_rows-some eidx row links slots slots' run in
    ⊎_elim
      (λ early.
        let now : (if eidx == e then some row else label slots e) ≡ some u =
          sym (label-set slots eidx e (some row) inside) ∙ early in
        elim (Bool-cases (eidx == e)) [
          | inl here ↦
              let one : some row ≡ some u = rw here at now in
              let at : row ≡ u = cc in
              let eq : eidx ≡ e = (==_iff eidx e).0 here in inr (0, omega (arith, at), ap some eq)
          | inr there ↦ inl (rw there at now)
        ])
      (λ (i, at, link). inr (suc i, omega (arith, at), link))
      (fill_rows-label links (suc row) (set slots eidx (some row)) slots' e u rest h)

fill_rows-keeps :
    (links : List (Option ℕ)) (row : ℕ) (slots slots' : List (Option ℕ)) (e u : ℕ)
    → fill_rows links row slots ≡ ok slots'
    → label slots e ≡ some u
    → (u' : ℕ) × (label slots' e ≡ some u')
unfolding fill_rows
fill_rows-keeps [] row slots slots' e u run h = let same : slots ≡ slots' = cc in (u, rw (← same) h)
fill_rows-keeps (none ∷ links) row slots slots' e u run h =
    fill_rows-keeps links (suc row) slots slots' e u run h
fill_rows-keeps (some eidx ∷ links) row slots slots' e u run h =
    let (inside, rest) = fill_rows-some eidx row links slots slots' run in
    let seen = label-set slots eidx e (some row) inside in
    elim (Bool-cases (eidx == e)) [
      | inl here ↦
          fill_rows-keeps links (suc row) (set slots eidx (some row)) slots' e row rest
            (rw here at seen)
      | inr there ↦
          fill_rows-keeps links (suc row) (set slots eidx (some row)) slots' e u rest
            ((rw there at seen) ∙ h)
    ]

fill_rows-covers :
    (links : List (Option ℕ)) (row : ℕ) (slots slots' : List (Option ℕ)) (i e : ℕ)
    → fill_rows links row slots ≡ ok slots'
    → label links i ≡ some e
    → (u : ℕ) × (label slots' e ≡ some u)
unfolding fill_rows
fill_rows-covers [] row slots slots' i e run h = absurd cc
fill_rows-covers (none ∷ links) row slots slots' zero e run h = absurd cc
fill_rows-covers (none ∷ links) row slots slots' (suc i) e run h =
    fill_rows-covers links (suc row) slots slots' i e run h
fill_rows-covers (some eidx ∷ links) row slots slots' zero e run h =
    let (inside, rest) = fill_rows-some eidx row links slots slots' run in
    let eq : eidx ≡ e = cc in
    fill_rows-keeps links (suc row) (set slots eidx (some row)) slots' e row rest
      (label-set slots eidx e (some row) inside ∙ rw ((==_iff eidx e).1 eq) refl)
fill_rows-covers (some eidx ∷ links) row slots slots' (suc i) e run h =
    let (inside, rest) = fill_rows-some eidx row links slots slots' run in
    fill_rows-covers links (suc row) (set slots eidx (some row)) slots' i e rest h

pub length-fill_rows :
    (links : List (Option ℕ)) (row : ℕ) (slots slots' : List (Option ℕ))
    → fill_rows links row slots ≡ ok slots'
    → length slots' ≡ length slots
unfolding fill_rows
length-fill_rows [] row slots slots' run = let same : slots ≡ slots' = cc in ap length (sym same)
length-fill_rows (none ∷ links) row slots slots' run =
    length-fill_rows links (suc row) slots slots' run
length-fill_rows (some eidx ∷ links) row slots slots' run =
    let (_, rest) = fill_rows-some eidx row links slots slots' run in
    length-fill_rows links (suc row) (set slots eidx (some row)) slots' rest
    ∙ length-set slots eidx (some row)

pub label-replicate : (n u : ℕ) → label (replicate n none) u ≡ none
label-replicate zero u = refl
label-replicate (suc n) zero = refl
label-replicate (suc n) (suc u) = label-replicate n u

-- Two node rows have different edge indexes.
abbrev pub IsInjective : List (Option ℕ) → Type 0
IsInjective links = (u v e : ℕ) → label links u ≡ some e → label links v ≡ some e → u ≡ v

module _ (links slots : List (Option ℕ)) (ec : ℕ) (injective : IsInjective links)
    (run : fill_rows links 0 (replicate ec none) ≡ ok slots) where
  pub links-slots : (e u : ℕ) → label slots e ≡ some u → label links u ≡ some e
  links-slots e u h =
      ⊎_elim (λ early. absurd let never = label-replicate ec e in cc)
        (λ (i, at, link). let eq : u ≡ i = omega (arith, at) in rw eq link)
        (fill_rows-label links 0 (replicate ec none) slots e u run h)

  pub slots-links : (u e : ℕ) → label links u ≡ some e → label slots e ≡ some u
  slots-links u e h =
      let (v, found) = fill_rows-covers links 0 (replicate ec none) slots u e run h in
      let eq = injective v u e (links-slots e v found) h in found ∙ ap some eq
