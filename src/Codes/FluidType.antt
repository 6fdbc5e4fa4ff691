-- ===== src/Codes/FluidType.antt =====
-- `FluidType` of `crates/server/src/entities/items.rs`: `empty` is the source's `None`. `from_u8` indexes the array of all variants.
use rustibia_server.Prelude.{ℕ, ◌≡◌, ◌↔◌, refl, Option, some, List, [], ◌∷◌}
use rustibia_server.Codes.Table.{from_repr, from_repr_iff}

pub data FluidType : Type 0 where
  empty water mana beer oil blood slime mud lemonade milk wine health urine rum fruit_juice
        coconut_milk tea mead ink candy chocolate :
      FluidType

unfoldable pub as_u8 : FluidType → ℕ
as_u8 empty = 0
as_u8 water = 1
as_u8 mana = 2
as_u8 beer = 3
as_u8 oil = 4
as_u8 blood = 5
as_u8 slime = 6
as_u8 mud = 7
as_u8 lemonade = 8
as_u8 milk = 9
as_u8 wine = 10
as_u8 health = 11
as_u8 urine = 12
as_u8 rum = 13
as_u8 fruit_juice = 14
as_u8 coconut_milk = 15
as_u8 tea = 16
as_u8 mead = 17
as_u8 ink = 18
as_u8 candy = 19
as_u8 chocolate = 20

-- The variants in the order of their discriminants.
abbrev pub all : List FluidType
all =
    empty ∷ water ∷ mana ∷ beer ∷ oil ∷ blood ∷ slime ∷ mud ∷ lemonade ∷ milk ∷ wine ∷ health
    ∷ urine ∷ rum ∷ fruit_juice ∷ coconut_milk ∷ tea ∷ mead ∷ ink ∷ candy ∷ chocolate ∷ []

unfoldable pub from_u8 : ℕ → Option FluidType
from_u8 n = from_repr all n

decodes_own : (x : FluidType) → from_repr all (as_u8 x) ≡ some x
unfolding as_u8
decodes_own empty = refl
decodes_own water = refl
decodes_own mana = refl
decodes_own beer = refl
decodes_own oil = refl
decodes_own blood = refl
decodes_own slime = refl
decodes_own mud = refl
decodes_own lemonade = refl
decodes_own milk = refl
decodes_own wine = refl
decodes_own health = refl
decodes_own urine = refl
decodes_own rum = refl
decodes_own fruit_juice = refl
decodes_own coconut_milk = refl
decodes_own tea = refl
decodes_own mead = refl
decodes_own ink = refl
decodes_own candy = refl
decodes_own chocolate = refl

-- A number decodes to a variant exactly if it is the variant's code; all others are refused.
pub fluid_type_codes : (n : ℕ) (x : FluidType) → (from_u8 n ≡ some x) ↔ (as_u8 x ≡ n)
unfolding as_u8 from_u8
fluid_type_codes n x =
    from_repr_iff as_u8 all n x
      (
        refl,
        (
          refl,
          (
            refl,
            (
              refl,
              (
                refl,
                (
                  refl,
                  (
                    refl,
                    (
                      refl,
                      (
                        refl,
                        (
                          refl,
                          (
                            refl,
                            (
                              refl,
                              (
                                refl,
                                (refl, (refl, (refl, (refl, (refl, (refl, (refl, (refl, tt)))))))),
                              ),
                            ),
                          ),
                        ),
                      ),
                    ),
                  ),
                ),
              ),
            ),
          ),
        ),
      )
      (decodes_own x)
