-- ===== src/Outcome.antt =====
-- crates/lynxes-core/src/error.rs: the errors of the modelled code, without their message texts but for the path of a circular inheritance, and
-- the result of code that may return an error or panic.
use mathlib.Core.Path.{◌≡◌, refl}
use Prim.Native.String.{String}

pub data GfError : Type 0 where
  node_not_found : String → GfError
  edge_not_found : GfError
  invalid_direction : GfError
  column_not_found : String → GfError
  length_mismatch : GfError
  schema_mismatch : GfError
  type_mismatch : GfError
  invalid_cast : GfError
  duplicate_node_id : GfError
  circular_inheritance : String → GfError
  invalid_config : GfError
  domain_mismatch : GfError
  unsupported_operation : GfError

pub data Outcome {ℓ} (A : Type ℓ) : Type ℓ where
  ok : A → Outcome A
  err : GfError → Outcome A
  panicked : Outcome A

-- Rust's `?`: the first error or panic ends the chain.
infixl 5 ◌>>=◌
abbrev pub ◌>>=◌ {ℓ κ} : {X : Type ℓ} {Y : Type κ} → Outcome X → (X → Outcome Y) → Outcome Y
panicked >>= next = panicked
err failure >>= next = err failure
ok value >>= next = next value

-- A chain that returns has a first step that does.
pub >>=-eq-ok {ℓ κ} :
    {X : Type ℓ} {Y : Type κ} {y : Y} (step : Outcome X) (next : X → Outcome Y)
    → (step >>= next) ≡ ok y
    → (x : X) × (step ≡ ok x) × (next x ≡ ok y)
>>=-eq-ok panicked next run = cc
>>=-eq-ok (err failure) next run = cc
>>=-eq-ok (ok value) next run = (value, refl, run)
