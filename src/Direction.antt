-- ===== src/Direction.antt =====
-- crates/lynxes-core/src/types.rs: reserved columns and the direction codes.
-- An i8 is its value modulo 256.
mod Codes
mod Examples
use lynxes_mojo.Common.{ℕ, String, List, [], ◌∷◌, ◌==◌, if◌then◌else◌}
use lynxes_mojo.Outcome.{GfError, invalid_direction, Outcome, ok, err}

abbrev pub col_node_id : String
col_node_id = "_id"

abbrev pub col_node_label : String
col_node_label = "_label"

abbrev pub col_edge_src : String
col_edge_src = "_src"

abbrev pub col_edge_dst : String
col_edge_dst = "_dst"

abbrev pub col_edge_type : String
col_edge_type = "_type"

abbrev pub col_edge_direction : String
col_edge_direction = "_direction"

abbrev pub node_reserved_columns : List String
node_reserved_columns = col_node_id ∷ col_node_label ∷ []

abbrev pub edge_reserved_columns : List String
edge_reserved_columns = col_edge_src ∷ col_edge_dst ∷ col_edge_type ∷ col_edge_direction ∷ []

pub data Direction : Type 0 where
  out in_ both none_ : Direction

unfoldable pub as_i8 : Direction → ℕ
as_i8 out = 0
as_i8 in_ = 1
as_i8 both = 2
as_i8 none_ = 3

unfoldable pub try_from : ℕ → Outcome Direction
try_from value =
    if value == 0
    then ok out
    else if value == 1
    then ok in_
    else if value == 2
    then ok both
    else if value == 3
    then ok none_
    else err invalid_direction
