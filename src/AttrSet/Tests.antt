-- ===== src/AttrSet/Tests.antt =====
-- Runs of the attributes, and the theorems at them; a float is a number of hundredths.
use archai_engine.Shared.{ℕ, ◌+◌, ◌*◌, ◌/◌, ◌^◌, ◌≡◌, refl, List, [], ◌∷◌, ◌++◌, arith}
use archai_engine.Shared.Int.{ℤ, pos, negsuc, ◌+ℤ◌, ◌-ℤ◌, ◌≤ℤ◌, ltb_ℤ, max_ℤ}
use archai_engine.BitStream.{empty, bytes_of}
use archai_engine.BitStream.Numbers.{Adds}
use archai_engine.AttrSet.{Floats, AttrSet, dealt, take_damage, net_delta_serialize}
use archai_engine.AttrSet.Damage.{IsHealthy, KeepsSign, take_damage-IsHealthy}
use archai_engine.AttrSet.Delta.{
  Field, health, mana, value, set_fields, is_set, last_of, delta_of, net_delta_serialize-set_fields,
}

-- Rounded towards 0.
abbrev scaled : ℤ → ℤ → ℤ
scaled (pos n) (pos c) = pos (n * c / 100)
scaled (pos n) (negsuc c) = pos 0 -ℤ pos (n * (c + 1) / 100)
scaled (negsuc n) (pos c) = pos 0 -ℤ pos ((n + 1) * c / 100)
scaled (negsuc n) (negsuc c) = pos ((n + 1) * (c + 1) / 100)

abbrev raised : ℤ → ℤ
raised (pos c) = pos (100 + c)
raised (negsuc c) = pos 100 -ℤ pos (c + 1)

abbrev hundredths : Floats
hundredths = record {
  Float = ℤ;
  less = ltb_ℤ;
  minus = λ a b. a -ℤ b;
  critical = λ d c. scaled d (raised c);
  share = scaled;
  positive = λ s. ltb_ℤ (pos 0) s;
}

-- A critical damage of -2 turns damage into healing, as it does with float.
critical_negative : hundredths.critical (pos 10) (negsuc 199) ≡ negsuc 9
unfolding ◌-ℤ◌
critical_negative = refl

hundredths-KeepsSign : KeepsSign hundredths (pos 100)
hundredths-KeepsSign (pos n) (pos c) h top more less_one = omega arith
hundredths-KeepsSign (pos n) (negsuc c) h top more less_one = absurd (ground arith)
hundredths-KeepsSign (negsuc n) c h top more less_one = absurd (omega arith)

abbrev fighter : AttrSet ℤ
fighter = record {
  defence = pos 5;
  shield = pos 3;
  critical_rate = pos 50;
  critical_damage = pos 50;
  accuracy = pos 100;
  dodge_rate = pos 0;
  lifesteal = pos 50;
  dirty_flag = 0;
  max_health = pos 100;
  health = pos 6;
  max_mana = pos 100;
  mana = pos 100;
}

-- A critical hit of 10 + 5 less 5, half as much again, through a shield of 3: 12 are left.
damage-fighter : (take_damage hundredths fighter fighter (pos 15) (pos 20) (pos 30)).2 ≡ pos 12
unfolding take_damage ◌+ℤ◌ ◌-ℤ◌
damage-fighter = refl

health-fighter :
    (take_damage hundredths fighter fighter (pos 15) (pos 20) (pos 30)).0.health ≡ pos 0
unfolding take_damage ◌+ℤ◌ ◌-ℤ◌
health-fighter = refl

within : pos 15 -ℤ pos 5 ≤ℤ pos (2 ^ 24)
unfolding ◌-ℤ◌
within = omega arith

take_damage-IsHealthy_example :
    IsHealthy (take_damage hundredths fighter fighter (pos 15) (pos 20) (pos 30)).0
    × IsHealthy (take_damage hundredths fighter fighter (pos 15) (pos 20) (pos 30)).1
    × (pos 0 ≤ℤ (take_damage hundredths fighter fighter (pos 15) (pos 20) (pos 30)).0.shield)
    × (pos 0 ≤ℤ (take_damage hundredths fighter fighter (pos 15) (pos 20) (pos 30)).2)
    × ((take_damage hundredths fighter fighter (pos 15) (pos 20) (pos 30)).2
          +ℤ (pos 3 -ℤ (take_damage hundredths fighter fighter (pos 15) (pos 20) (pos 30)).0.shield)
        ≡ dealt hundredths fighter fighter (pos 15) (pos 20) (pos 30))
    × ((take_damage hundredths fighter fighter (pos 15) (pos 20) (pos 30)).0.health
        ≡ max_ℤ
            (pos 0)
            (pos 6 -ℤ (take_damage hundredths fighter fighter (pos 15) (pos 20) (pos 30)).2))
take_damage-IsHealthy_example =
    take_damage-IsHealthy hundredths (pos 100) fighter fighter (pos 15) (pos 20) (pos 30)
      hundredths-KeepsSign refl refl within (omega arith, omega arith) (omega arith, omega arith)
      (omega arith)

abbrev sets : List (Field × ℤ)
sets = (health, pos 50) ∷ (mana, pos 7) ∷ (health, pos 40) ∷ []

abbrev memory : ℕ → ℕ
memory at = 205

net_delta_serialize-set_fields_example :
    Adds empty (net_delta_serialize memory (set_fields fighter sets) empty).0 (
      bytes_of 4 (set_fields fighter sets).dirty_flag
      ++ delta_of memory (λ x. is_set x sets) (λ x. last_of x (value fighter x) sets))
net_delta_serialize-set_fields_example =
    net_delta_serialize-set_fields memory sets fighter empty refl (omega arith)
