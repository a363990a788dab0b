-- ===== src/Direction/Examples.antt =====
-- crates/lynxes-core/src/types.rs: the code of an undirected edge.
use lynxes_mojo.Common.{◌≤◌, ◌≡◌, ◌↔◌}
use lynxes_mojo.Outcome.{ok, err, invalid_direction}
use lynxes_mojo.Direction.{both, as_i8, try_from}
use lynxes_mojo.Direction.Codes.{try_from-as_i8}

try_from-as_i8_example :
    ((try_from 2 ≡ ok both) ↔ (2 ≡ as_i8 both)) × ((try_from 2 ≡ err invalid_direction) ↔ (4 ≤ 2))
try_from-as_i8_example = try_from-as_i8 both 2
