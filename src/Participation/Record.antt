-- ===== src/Participation/Record.antt =====
-- Recording and forgetting attackers.
use rustibia_server.Prelude.{
  ℕ, ◌+◌, ◌≤◌, ◌≡◌, refl, ◌==◌, false, ◌||◌, if◌then◌else◌, [], ◌∷◌, u64_max, sum, arith,
  Bool-cases, inl, inr, ==→≡,
}
use rustibia_server.Participation.{Entries, record_damage, contains, forget, damages}

-- No attacker stands twice.
abbrev pub IsDistinct : Entries → Type 0
IsDistinct [] = Unit
IsDistinct ((key, damage) ∷ rest) = (contains rest key ≡ false) × IsDistinct rest

-- What one attacker has dealt.
abbrev pub dealt : ℕ → Entries → ℕ
dealt who [] = 0
dealt who ((key, damage) ∷ rest) = if key == who then damage else dealt who rest

contains-record :
    (entries : Entries) (attacker damage who : ℕ)
    → contains (record_damage entries attacker damage) who
      ≡ ((attacker == who) || contains entries who)
unfolding record_damage contains
contains-record [] attacker damage who = refl
contains-record ((key, d) ∷ rest) attacker damage who =
    ground (arith, contains-record rest attacker damage who)

record-IsDistinct :
    (entries : Entries) (attacker damage : ℕ)
    → IsDistinct entries
    → IsDistinct (record_damage entries attacker damage)
unfolding record_damage contains
record-IsDistinct [] attacker damage h = (refl, tt)
record-IsDistinct ((key, d) ∷ rest) attacker damage h =
    ground
      (arith, record-IsDistinct rest attacker damage h.1, contains-record rest attacker damage key)

dealt-record :
    (entries : Entries) (attacker damage who : ℕ)
    → sum (damages entries) + damage ≤ u64_max
    → dealt who (record_damage entries attacker damage)
      ≡ (if attacker == who then dealt who entries + damage else dealt who entries)
unfolding record_damage
dealt-record [] attacker damage who fits = ground arith
dealt-record ((key, d) ∷ rest) attacker damage who fits =
    ground (arith, dealt-record rest attacker damage who (omega arith))

sum-record :
    (entries : Entries) (attacker damage : ℕ)
    → sum (damages entries) + damage ≤ u64_max
    → sum (damages (record_damage entries attacker damage)) ≡ sum (damages entries) + damage
unfolding record_damage
sum-record [] attacker damage fits = omega arith
sum-record ((key, d) ∷ rest) attacker damage fits =
    ground (arith, sum-record rest attacker damage (omega arith))

-- While the damages add up to a `u64` and no attacker stands twice, a record adds its damage to
-- the attacker's and to the total, makes the attacker known, and changes no other attacker; no
-- attacker comes to stand twice.
pub record_damage_lem :
    (entries : Entries) (attacker damage who : ℕ)
    → IsDistinct entries
    → sum (damages entries) + damage ≤ u64_max
    → IsDistinct (record_damage entries attacker damage)
      × (contains (record_damage entries attacker damage) who
          ≡ ((attacker == who) || contains entries who))
      × (dealt who (record_damage entries attacker damage)
          ≡ (if attacker == who then dealt who entries + damage else dealt who entries))
      × (sum (damages (record_damage entries attacker damage)) ≡ sum (damages entries) + damage)
record_damage_lem entries attacker damage who h fits = (
  record-IsDistinct entries attacker damage h,
  contains-record entries attacker damage who,
  dealt-record entries attacker damage who fits,
  sum-record entries attacker damage fits,
)

contains-forget :
    (entries : Entries) (attacker who : ℕ)
    → contains (forget entries attacker) who
      ≡ (if attacker == who then false else contains entries who)
unfolding forget contains
contains-forget [] attacker who = ground arith
contains-forget ((key, d) ∷ rest) attacker who = ground (arith, contains-forget rest attacker who)

dealt-forget :
    (entries : Entries) (attacker who : ℕ)
    → dealt who (forget entries attacker) ≡ (if attacker == who then 0 else dealt who entries)
unfolding forget
dealt-forget [] attacker who = ground arith
dealt-forget ((key, d) ∷ rest) attacker who = ground (arith, dealt-forget rest attacker who)

forget_absent :
    (entries : Entries) (attacker : ℕ)
    → contains entries attacker ≡ false
    → forget entries attacker ≡ entries
unfolding forget contains
forget_absent [] attacker h = refl
forget_absent ((key, d) ∷ rest) attacker h = ground (arith, forget_absent rest attacker)

sum-forget :
    (entries : Entries) (attacker : ℕ)
    → IsDistinct entries
    → sum (damages (forget entries attacker)) + dealt attacker entries ≡ sum (damages entries)
unfolding forget contains
sum-forget [] attacker h = omega arith
sum-forget ((key, d) ∷ rest) attacker h = elim (Bool-cases (key == attacker)) [
  | inl same ↦
      let who = ==→≡ key attacker same in
      let gone : forget rest attacker ≡ rest = forget_absent rest attacker (rw (← who) h.0) in
      rw (same, gone) (omega arith)
  | inr other ↦ rw other (omega (arith, sum-forget rest attacker h.1))
]

-- Where no attacker stands twice, a departed attacker is forgotten, with exactly the damage
-- that it dealt; the others stay.
pub forget_lem :
    (entries : Entries) (attacker who : ℕ)
    → IsDistinct entries
    → (contains (forget entries attacker) who
        ≡ (if attacker == who then false else contains entries who))
      × (dealt who (forget entries attacker) ≡ (if attacker == who then 0 else dealt who entries))
      × (sum (damages (forget entries attacker)) + dealt attacker entries ≡ sum (damages entries))
forget_lem entries attacker who h = (
  contains-forget entries attacker who,
  dealt-forget entries attacker who,
  sum-forget entries attacker h,
)
