-- ===== src/Traversal/Codes.antt =====
-- crates/lynxes-lazy/src/query/executor/traversal.rs, `expand_graph_raw`: the codes of the direction column
-- that it follows.
use lynxes_mojo.Common.{
  ℕ, zero, suc, ◌<◌, ◌≡◌, ◌↔◌, ◌⊎◌, refl, true, some, List, get_elem?, inl, inr, ⊎_elim, arith,
  Option-cases,
}
use lynxes_mojo.Direction.{Direction, out, in_, both, none_, try_from}
use lynxes_mojo.Outcome.{ok, err, ◌>>=◌, invalid_direction}
use lynxes_mojo.Traversal.Expand.{follows_direction, edge_allowed}
use lynxes_mojo.Traversal.Candidates.{IsCoded}

-- A traversal outwards follows the codes of `Out` and `Both`, one inwards those of `Out`, `In` and
-- `Both`, and the others do not read the column.
abbrev pub Allowed : List ℕ → Direction → ℕ → Type 0
Allowed dir_col out row =
    (code : ℕ) × (get_elem? dir_col row ≡ some code) × ((code ≡ 0) ⊎ (code ≡ 2))
Allowed dir_col in_ row = (code : ℕ) × (get_elem? dir_col row ≡ some code) × (code < 3)
Allowed dir_col both row = Unit
Allowed dir_col none_ row = Unit

try_from-large : (n : ℕ) → try_from (suc (suc (suc (suc n)))) ≡ err invalid_direction
unfolding try_from
try_from-large n = ground arith

follows_out :
    (code : ℕ)
    → ((try_from code >>= λ d. ok (follows_direction out d)) ≡ ok true) ↔ ((code ≡ 0) ⊎ (code ≡ 2))
unfolding try_from
follows_out zero = (λ h. inl refl, λ h. refl)
follows_out (suc zero) =
    (λ h. cc, ⊎_elim (λ h. absurd (omega (arith, h))) (λ h. absurd (omega (arith, h))))
follows_out (suc (suc zero)) = (λ h. inr refl, λ h. refl)
follows_out (suc (suc (suc zero))) =
    (λ h. cc, ⊎_elim (λ h. absurd (omega (arith, h))) (λ h. absurd (omega (arith, h))))
follows_out (suc (suc (suc (suc n)))) =
    rw (try_from-large n)
      (λ h. cc, ⊎_elim (λ h. absurd (omega (arith, h))) (λ h. absurd (omega (arith, h))))

follows_in :
    (code : ℕ) → ((try_from code >>= λ d. ok (follows_direction in_ d)) ≡ ok true) ↔ (code < 3)
unfolding try_from
follows_in zero = (λ h. omega arith, λ h. refl)
follows_in (suc zero) = (λ h. omega arith, λ h. refl)
follows_in (suc (suc zero)) = (λ h. omega arith, λ h. refl)
follows_in (suc (suc (suc zero))) = (λ h. cc, λ h. absurd (omega (arith, h)))
follows_in (suc (suc (suc (suc n)))) =
    rw (try_from-large n) (λ h. cc, λ h. absurd (omega (arith, h)))

pub edge_allowed_iff :
    (dir_col : List ℕ) (direction : Direction) (row : ℕ)
    → (edge_allowed dir_col direction row ≡ ok true) ↔ Allowed dir_col direction row
unfolding edge_allowed
edge_allowed_iff dir_col both row = (λ h. tt, λ h. refl)
edge_allowed_iff dir_col none_ row = (λ h. tt, λ h. refl)
edge_allowed_iff dir_col out row = elim (Option-cases (get_elem? dir_col row)) [
  | inl nothing ↦ rw (edge_allowed, nothing) (λ h. cc, λ (code, got, _). absurd cc)
  | inr (code, got) ↦ (
    λ h. (code, got, (follows_out code).0 (rw (edge_allowed, got) at h)),
    λ (code', got', which). rw (edge_allowed, got') ((follows_out code').1 which),
  )
]
edge_allowed_iff dir_col in_ row = elim (Option-cases (get_elem? dir_col row)) [
  | inl nothing ↦ rw (edge_allowed, nothing) (λ h. cc, λ (code, got, _). absurd cc)
  | inr (code, got) ↦ (
    λ h. (code, got, (follows_in code).0 (rw (edge_allowed, got) at h)),
    λ (code', got', which). rw (edge_allowed, got') ((follows_in code').1 which),
  )
]

pub coded :
    (dir_col : List ℕ) (row code : ℕ)
    → get_elem? dir_col row ≡ some code
    → code < 4
    → IsCoded dir_col row
unfolding try_from
coded dir_col row zero got small = (0, out, got, refl)
coded dir_col row (suc zero) got small = (1, in_, got, refl)
coded dir_col row (suc (suc zero)) got small = (2, both, got, refl)
coded dir_col row (suc (suc (suc zero))) got small = (3, none_, got, refl)
coded dir_col row (suc (suc (suc (suc n)))) got small = absurd (omega (arith, small))
