-- ===== src/AttrSet.antt =====
-- combat/attr_set.h, combat/attr_set.cpp and the macros of property.h that they use: the attributes of a
-- fighter, and the damage that one does to another. An int is an integer; its width is not modelled
-- here. float is a parameter.
pub mod Damage
pub mod Delta
mod Tests
use archai_engine.Shared.{
  ℕ, ◌+◌, ◌*◌, ◌^◌, ◌%◌, ◌-◌, ◌≡◌, Bool, true, false, not, ◌&&◌, bit_and, bit_or, ltb,
  if◌then◌else◌, ◌==◌,
}
use archai_engine.Shared.Int.{ℤ, pos, negsuc, ◌+ℤ◌, ◌-ℤ◌, ◌≤ℤ◌, ltb_ℤ, min_ℤ, max_ℤ}
use archai_engine.BitStream.{OutputBitStream, write_number}

-- float, as far as take_damage uses it. `critical d c` is `static_cast<int>(d * (1.0f + c))`, `share d s`
-- is `static_cast<int>(d * s)`, `positive s` is `s > 0`.
pub record Floats : Type 1 where
  pub Float : Type 0
  pub less : Float → Float → Bool
  pub minus : Float → Float → Float
  pub critical : ℤ → Float → ℤ
  pub share : ℤ → Float → ℤ
  pub positive : Float → Bool

pub record AttrSet (F : Type 0) : Type 0 where
  pub defence : ℤ
  pub shield : ℤ
  pub critical_rate : F
  pub critical_damage : F
  pub accuracy : F
  pub dodge_rate : F
  pub lifesteal : F
  pub dirty_flag : ℕ
  pub max_health : ℤ
  pub health : ℤ
  pub max_mana : ℤ
  pub mana : ℤ

abbrev pub max_health_flag : ℕ
max_health_flag = 1

abbrev pub health_flag : ℕ
health_flag = 2

abbrev pub max_mana_flag : ℕ
max_mana_flag = 4

abbrev pub mana_flag : ℕ
mana_flag = 8

module _ {F : Type 0} where
  pub set_max_health : AttrSet F → ℤ → AttrSet F
  set_max_health a val = record a {
    max_health = val;
    dirty_flag = bit_or a.dirty_flag max_health_flag;
  }

  pub set_health : AttrSet F → ℤ → AttrSet F
  set_health a val = record a { health = val; dirty_flag = bit_or a.dirty_flag health_flag }

  pub set_max_mana : AttrSet F → ℤ → AttrSet F
  set_max_mana a val = record a { max_mana = val; dirty_flag = bit_or a.dirty_flag max_mana_flag }

  unfoldable pub set_mana : AttrSet F → ℤ → AttrSet F
  set_mana a val = record a { mana = val; dirty_flag = bit_or a.dirty_flag mana_flag }

  abbrev pub reset_dirty : AttrSet F → AttrSet F
  reset_dirty a = record a { dirty_flag = 0 }

  pub add_health : AttrSet F → ℤ → AttrSet F
  unfolding set_health
  add_health a val = set_health a (max_ℤ (pos 0) (min_ℤ a.max_health (a.health +ℤ val)))

  unfoldable pub add_mana : AttrSet F → ℤ → AttrSet F
  unfolding set_mana
  add_mana a val = set_mana a (max_ℤ (pos 0) (min_ℤ a.max_mana (a.mana +ℤ val)))

-- The bytes of an int: its pattern of 32 bits.
abbrev pub pattern_of : ℤ → ℕ
pattern_of (pos n) = n % 2 ^ 32
pattern_of (negsuc n) = 2 ^ 32 - 1 - n % 2 ^ 32

module _ (memory : ℕ → ℕ) where
  abbrev pub write_int : OutputBitStream → ℤ → OutputBitStream
  write_int bs v = write_number memory 4 bs (pattern_of v)

  -- WRITE_IF_DIRTY
  pub write_if_dirty : ℕ → ℕ → ℤ → OutputBitStream → OutputBitStream
  write_if_dirty dirty_flag flag v bs = if bit_and dirty_flag flag == 0 then bs else write_int bs v

module _ (memory : ℕ → ℕ) {F : Type 0} where
  pub net_serialize : AttrSet F → OutputBitStream → OutputBitStream
  net_serialize a bs =
      write_int memory
        (write_int memory (write_int memory (write_int memory bs a.max_health) a.health) a.max_mana)
        a.mana

  pub net_delta_serialize : AttrSet F → OutputBitStream → OutputBitStream × Bool
  unfolding write_if_dirty
  net_delta_serialize a bs =
      let flagged = write_number memory 4 bs a.dirty_flag in
      let first = write_if_dirty memory a.dirty_flag max_health_flag a.max_health flagged in
      let second = write_if_dirty memory a.dirty_flag health_flag a.health first in
      let third = write_if_dirty memory a.dirty_flag max_mana_flag a.max_mana second in
      let fourth = write_if_dirty memory a.dirty_flag mana_flag a.mana third in
      if a.dirty_flag == 0 then (flagged, false) else (fourth, true)

module _ (f : Floats) where
  open f use {Float, less, minus, critical, share, positive}

  -- Steps 1 to 3: the damage of an attack; `r` and `r'` are the two results of random_01().
  pub dealt : AttrSet Float → AttrSet Float → ℤ → Float → Float → ℤ
  dealt self attacker attack_damage r r' =
      let base = max_ℤ (pos 1) (attack_damage -ℤ self.defence) in
      let damage =
        if less r attacker.critical_rate then critical base attacker.critical_damage else base in
      if less r' (minus attacker.accuracy self.dodge_rate) then damage else pos 0

  -- The target, the attacker and the damage; they are two objects.
  pub take_damage :
      AttrSet Float → AttrSet Float → ℤ → Float → Float → AttrSet Float × AttrSet Float × ℤ
  unfolding dealt add_health
  take_damage self attacker attack_damage r r' =
      let damage = dealt self attacker attack_damage r r' in
      let absorbed = min_ℤ damage self.shield in
      let shielded = record self { shield = self.shield -ℤ absorbed } in
      let left = damage -ℤ absorbed in
      let attacker' =
        if ltb_ℤ (pos 0) left && positive attacker.lifesteal
        then add_health attacker (share left attacker.lifesteal)
        else attacker in
      (add_health shielded (pos 0 -ℤ left), attacker', left)
