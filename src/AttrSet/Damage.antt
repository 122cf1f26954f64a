-- ===== src/AttrSet/Damage.antt =====
-- What an attack does to the health of both sides.
use archai_engine.Shared.{◌^◌, ◌≡◌, Bool, true, false, ◌&&◌, if◌then◌else◌, arith}
use archai_engine.Shared.Int.{ℤ, pos, ◌+ℤ◌, ◌-ℤ◌, ◌≤ℤ◌, ltb_ℤ, min_ℤ, max_ℤ}
use archai_engine.AttrSet.{Floats, AttrSet, add_health, dealt, take_damage}

-- Health between 0 and the most.
abbrev pub IsHealthy : {F : Type 0} → AttrSet F → Type 0
IsHealthy a = (pos 0 ≤ℤ a.health) × (a.health ≤ℤ a.max_health)

pub add_health-IsHealthy :
    {F : Type 0} (a : AttrSet F) (val : ℤ) → pos 0 ≤ℤ a.max_health → IsHealthy (add_health a val)
unfolding add_health ◌+ℤ◌
add_health-IsHealthy a val h = ground arith

-- What is asked of floats, where `one` is 1.0f: `static_cast<int>(d * (1.0f + c))` is not negative for
-- 0 ≤ d ≤ 2^24, which float holds exactly, and 0 < c < 1, which also says that c is a number. For other
-- c, such as -2, it may be negative or undefined.
abbrev pub KeepsSign : (f : Floats) → f.Float → Type 0
KeepsSign f one =
    (d : ℤ) (c : f.Float)
    → pos 0 ≤ℤ d
    → d ≤ℤ pos (2 ^ 24)
    → f.positive c ≡ true
    → f.less c one ≡ true
    → pos 0 ≤ℤ f.critical d c

dealt_nonneg :
    (f : Floats) (one : f.Float) (self attacker : AttrSet f.Float) (n : ℤ) (r r' : f.Float)
    → KeepsSign f one
    → f.positive attacker.critical_damage ≡ true
    → f.less attacker.critical_damage one ≡ true
    → n -ℤ self.defence ≤ℤ pos (2 ^ 24)
    → pos 0 ≤ℤ dealt f self attacker n r r'
unfolding dealt
dealt_nonneg f one self attacker n r r' keeps more less_one small =
    let h : pos 0 ≤ℤ max_ℤ (pos 1) (n -ℤ self.defence) = ground arith in
    let top : max_ℤ (pos 1) (n -ℤ self.defence) ≤ℤ pos (2 ^ 24) = ground arith in
    let kept =
      keeps (max_ℤ (pos 1) (n -ℤ self.defence)) attacker.critical_damage h top more less_one in
    ground (arith, kept)

-- What remains of the damage after the shield, and the shield.
absorb :
    (damage shield : ℤ)
    → pos 0 ≤ℤ damage
    → pos 0 ≤ℤ shield
    → (pos 0 ≤ℤ damage -ℤ min_ℤ damage shield)
      × (pos 0 ≤ℤ shield -ℤ min_ℤ damage shield)
      × ((damage -ℤ min_ℤ damage shield) +ℤ (shield -ℤ (shield -ℤ min_ℤ damage shield)) ≡ damage)
unfolding ◌+ℤ◌ ◌-ℤ◌
absorb damage shield h k = (ground arith, ground arith, ground arith)

healthy_max : {F : Type 0} (a : AttrSet F) → IsHealthy a → pos 0 ≤ℤ a.max_health
healthy_max a h = omega arith

healed :
    {F : Type 0} (b : Bool) (a : AttrSet F) (val : ℤ)
    → IsHealthy a
    → IsHealthy (if b then add_health a val else a)
healed true a val h = add_health-IsHealthy a val (healthy_max a h)
healed false a val h = h

lost :
    (health most left : ℤ)
    → (pos 0 ≤ℤ health) × (health ≤ℤ most)
    → pos 0 ≤ℤ left
    → max_ℤ (pos 0) (min_ℤ most (health +ℤ (pos 0 -ℤ left))) ≡ max_ℤ (pos 0) (health -ℤ left)
unfolding ◌+ℤ◌ ◌-ℤ◌
lost health most left h k = ground arith

-- The target and the attacker are healthy, the shield is not negative, the attacker's critical damage is
-- between 0 and 1, and the attack exceeds the defence by 2^24 at most; of floats KeepsSign is asked. Then both
-- are healthy after the attack, and the shield is not negative; the damage that is reported is not
-- negative, it and what the shield lost make up the damage dealt; and the target has lost it, down to 0.
pub take_damage-IsHealthy :
    (f : Floats) (one : f.Float) (self attacker : AttrSet f.Float) (n : ℤ) (r r' : f.Float)
    → KeepsSign f one
    → f.positive attacker.critical_damage ≡ true
    → f.less attacker.critical_damage one ≡ true
    → n -ℤ self.defence ≤ℤ pos (2 ^ 24)
    → IsHealthy self
    → IsHealthy attacker
    → pos 0 ≤ℤ self.shield
    → IsHealthy (take_damage f self attacker n r r').0
      × IsHealthy (take_damage f self attacker n r r').1
      × (pos 0 ≤ℤ (take_damage f self attacker n r r').0.shield)
      × (pos 0 ≤ℤ (take_damage f self attacker n r r').2)
      × ((take_damage f self attacker n r r').2
            +ℤ (self.shield -ℤ (take_damage f self attacker n r r').0.shield)
          ≡ dealt f self attacker n r r')
      × ((take_damage f self attacker n r r').0.health
          ≡ max_ℤ (pos 0) (self.health -ℤ (take_damage f self attacker n r r').2))
unfolding take_damage
take_damage-IsHealthy f one self attacker n r r' keeps more less_one small h k shield =
    let damage = dealt f self attacker n r r' in
    let (left, rest, sum) =
      absorb damage self.shield (dealt_nonneg f one self attacker n r r' keeps more less_one small)
        shield in
    let shielded : AttrSet f.Float = record self {
      shield = self.shield -ℤ min_ℤ damage self.shield;
    } in
    let ok = healthy_max self h in
    (
      add_health-IsHealthy shielded (pos 0 -ℤ (damage -ℤ min_ℤ damage self.shield)) ok,
      healed (ltb_ℤ (pos 0) (damage -ℤ min_ℤ damage self.shield) && f.positive attacker.lifesteal)
          attacker (f.share (damage -ℤ min_ℤ damage self.shield) attacker.lifesteal) k,
      rest,
      left,
      sum,
      lost self.health self.max_health (damage -ℤ min_ℤ damage self.shield) h left,
    )
