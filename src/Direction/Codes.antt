-- ===== src/Direction/Codes.antt =====
-- crates/lynxes-core/src/types.rs: the direction codes and their reading.
use lynxes_mojo.Common.{ℕ, ◌≤◌, ◌≡◌, ◌↔◌, arith}
use lynxes_mojo.Outcome.{ok, err, invalid_direction}
use lynxes_mojo.Direction.{Direction, as_i8, try_from}

-- A number is read as a direction exactly when it is that direction's code, and it is refused exactly
-- from 4 on.
pub try_from-as_i8 :
    (d : Direction) (value : ℕ)
    → ((try_from value ≡ ok d) ↔ (value ≡ as_i8 d))
      × ((try_from value ≡ err invalid_direction) ↔ (4 ≤ value))
unfolding try_from as_i8
try_from-as_i8 d value = ground arith
