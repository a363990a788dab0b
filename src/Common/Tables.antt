-- ===== src/Common/Tables.antt =====
-- A vector given by its entries: `tabulate n f` is f 0, ..., f (n - 1).
use Prim.Native.Nat.{ℕ, zero, suc, ◌<◌}
use mathlib.Core.Path.{◌≡◌, refl, ap, ap₂}
use mathlib.Core.List.{List, [], ◌∷◌}
use native.Mathlib.Omega.{arith}
use lynxes_mojo.Common.Lists.{length, get_or}

module _ {ℓ} {A : Type ℓ} where
  abbrev pub tabulate : ℕ → (ℕ → A) → List A
  tabulate zero f = []
  tabulate (suc n) f = f 0 ∷ tabulate n (λ i. f (suc i))

  pub tabulate-ext : (n : ℕ) (f g : ℕ → A) → ((i : ℕ) → f i ≡ g i) → tabulate n f ≡ tabulate n g
  tabulate-ext zero f g h = refl
  tabulate-ext (suc n) f g h =
      ap₂ (λ x xs. x ∷ xs) (h 0) (tabulate-ext n (λ i. f (suc i)) (λ i. g (suc i)) (λ i. h (suc i)))

  pub length-tabulate : (n : ℕ) (f : ℕ → A) → length (tabulate n f) ≡ n
  length-tabulate zero f = refl
  length-tabulate (suc n) f = ap suc (length-tabulate n (λ i. f (suc i)))

  pub get_or-tabulate :
      (n : ℕ) (f : ℕ → A) (i : ℕ) (d : A) → i < n → get_or (tabulate n f) i d ≡ f i
  get_or-tabulate zero f i d h = absurd (omega arith)
  get_or-tabulate (suc n) f zero d h = refl
  get_or-tabulate (suc n) f (suc i) d h = get_or-tabulate n (λ j. f (suc j)) i d (omega arith)
