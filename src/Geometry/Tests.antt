-- ===== src/Geometry/Tests.antt =====
-- Runs at concrete tiles.
use rustibia_server.Prelude.{◌≡◌, refl, true}
use rustibia_server.Geometry.{Position, is_within}

abbrev home : Position
home = record { x = 100; y = 200; z = 7 }

abbrev away : Position
away = record { x = 103; y = 198; z = 7 }

home_near_away : is_within home away 3 ≡ true
unfolding is_within
home_near_away = refl

away_near_home : is_within away home 3 ≡ true
unfolding is_within
away_near_home = refl
