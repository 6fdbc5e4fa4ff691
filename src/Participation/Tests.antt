-- ===== src/Participation/Tests.antt =====
-- Runs over two attackers.
use rustibia_server.Prelude.{
  ◌+◌, ◌*◌, ◌/◌, ◌≤◌, ◌<◌, ◌≡◌, refl, ◌||◌, ◌==◌, if◌then◌else◌, [], ◌∷◌, sum, length, arith,
}
use rustibia_server.Participation.{Entries, record_damage, contains, damages, shares}
use rustibia_server.Participation.Record.{IsDistinct, dealt, record_damage_lem}
use rustibia_server.Participation.Shares.{shares_fair}

abbrev fight : Entries
fight = (1, 30) ∷ (2, 70) ∷ []

fight-IsDistinct : IsDistinct fight
unfolding contains
fight-IsDistinct = (refl, (refl, tt))

record_damage_lem_example :
    IsDistinct (record_damage fight 1 5)
    × (contains (record_damage fight 1 5) 3 ≡ ((1 == 3) || contains fight 3))
    × (dealt 3 (record_damage fight 1 5) ≡ (if 1 == 3 then dealt 3 fight + 5 else dealt 3 fight))
    × (sum (damages (record_damage fight 1 5)) ≡ sum (damages fight) + 5)
record_damage_lem_example = record_damage_lem fight 1 5 3 fight-IsDistinct (omega arith)

shares_fair_example :
    (dealt 2 (shares fight 15) ≡ 15 * dealt 2 fight / sum (damages fight))
    × (sum (damages (shares fight 15)) ≤ 15)
    × (15 < sum (damages (shares fight 15)) + length fight)
shares_fair_example =
    shares_fair fight 15 2 fight-IsDistinct (omega arith) (omega arith) (omega arith)
