-- ===== src/Effects/Tests.antt =====
-- A beam thrown to the north-east.
use rustibia_server.Prelude.{List, [], ◌∷◌}
use rustibia_server.Prelude.Int.{pos, negsuc}
use rustibia_server.Codes.Facing.{Facing}
use rustibia_server.Effects.{Tile}

abbrev beam : List Tile
beam = (pos 0, negsuc 0) ∷ (pos 0, negsuc 1) ∷ []

abbrev corner_beam : List Tile
corner_beam = (negsuc 0, negsuc 0) ∷ []
