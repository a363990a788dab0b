-- ===== src/Common/Maps.antt =====
-- `HashMap<String, A>`: an association list, in whose order it is walked.
use Prim.Native.String.{String}
use mathlib.Core.Option.{Option, none, some}
use mathlib.Core.List.{List, [], ◌∷◌}
use lynxes_mojo.Common.Tests.{if◌then◌else◌, str_eq}

-- `get`
unfoldable pub lookup {ℓ} : {A : Type ℓ} → String → List (String × A) → Option A
lookup key [] = none
lookup key ((k, a) ∷ entries) =
    let rest = lookup key entries in if str_eq k key then some a else rest
