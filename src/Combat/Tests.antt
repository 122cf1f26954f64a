-- ===== src/Combat/Tests.antt =====
-- A fighter with Skill_1, which costs 2 mana and cools down for 5 seconds.
use archai_engine.Shared.{
  Bool, get_elem?, ℕ, ◌≡◌, refl, true, false, Option, none, some, List, [], ◌∷◌, arith,
}
use archai_engine.Shared.Int.{pos, ◌+ℤ◌, ◌-ℤ◌, ◌≤ℤ◌}
use archai_engine.Shared.Maps.{find, put}
use archai_engine.BitStream.{InputBitStream, empty, write_number}
use archai_engine.SyncArray.{assign, mark_dirty, store_at}
use archai_engine.AttrSet.{add_mana, set_mana}
use archai_engine.Combat.{
  SkillInfo, CombatComponent, Effect, play_animation, start_timer, new_skill_info, find_info,
  put_info_delta, cast_skill, can_cast_skill, finish_skill,
}
use archai_engine.Combat.CoolDown.{
  later, Has, cast_skill-refused_while_cooling, cast_skill-refused_for_ever, cast_skill-costs,
}

abbrev memory : ℕ → ℕ
memory i = 0

abbrev unread : InputBitStream → Option (SkillInfo × InputBitStream)
unread i = none

abbrev skill_1 : SkillInfo
skill_1 = new_skill_info 1 (83 ∷ 107 ∷ 105 ∷ 108 ∷ 108 ∷ 49 ∷ []) (pos 2) (pos 5000) false

abbrev fighter : CombatComponent ℕ
fighter = record {
  attr_set = record {
    defence = pos 0;
    shield = pos 0;
    critical_rate = 0;
    critical_damage = 0;
    accuracy = 100;
    dodge_rate = 0;
    lifesteal = 0;
    dirty_flag = 0;
    max_health = pos 100;
    health = pos 100;
    max_mana = pos 100;
    mana = pos 100;
  };
  skill_infos = record { vec = skill_1 ∷ []; dirty_log = empty };
  running_skills = [];
}

abbrev after : Option (CombatComponent ℕ × List Effect) → CombatComponent ℕ
after none = fighter
after (some (c, effects)) = c

abbrev early : CombatComponent ℕ
early = after (cast_skill memory unread skill_1 fighter 1000 (pos 7) 1)

abbrev late : CombatComponent ℕ
late = after (cast_skill memory unread skill_1 fighter 2147483648 (pos 7) 1)

abbrev shown : List Effect
shown = play_animation (83 ∷ 107 ∷ 105 ∷ 108 ∷ 108 ∷ 49 ∷ []) true ∷ start_timer 1500 ∷ []

early-cast : cast_skill memory unread skill_1 fighter 1000 (pos 7) 1 ≡ some (early, shown)
unfolding cast_skill assign mark_dirty store_at write_number add_mana set_mana ◌+ℤ◌ ◌-ℤ◌ find
    put_info_delta
early-cast = refl

late-cast : cast_skill memory unread skill_1 fighter 2147483648 (pos 7) 1 ≡ some (late, shown)
unfolding cast_skill assign mark_dirty store_at write_number add_mana set_mana ◌+ℤ◌ ◌-ℤ◌ find
    put_info_delta
late-cast = refl

mana-early : early.attr_set.mana ≡ pos 98
unfolding cast_skill assign mark_dirty store_at write_number add_mana set_mana ◌+ℤ◌ ◌-ℤ◌ find
    put_info_delta
mana-early = refl

early-can : can_cast_skill fighter 1000 skill_1 ≡ true
unfolding can_cast_skill find
early-can = refl

late-can : can_cast_skill fighter 2147483648 skill_1 ≡ true
unfolding can_cast_skill find
late-can = refl

fighter-Has : Has fighter 1 0 skill_1
unfolding find_info
fighter-Has = (refl, refl)

-- Whether the fighter's first skill may be cast.
abbrev can_at : CombatComponent ℕ → ℕ → Bool
can_at c now = elim (get_elem? c.skill_infos.vec 0) [
  | none ↦ false
  | some info ↦ can_cast_skill c now info
]

-- The fighter when the effect of its skill is over, with all its mana back.
abbrev rested : CombatComponent ℕ → CombatComponent ℕ
rested c = later c fighter.attr_set (finish_skill memory unread skill_1 c 1).running_skills

-- After the cool-down nothing else stands in the way.
can-6000 : can_at (rested early) 6000 ≡ true
unfolding can_cast_skill cast_skill assign mark_dirty store_at write_number add_mana set_mana ◌+ℤ◌
    ◌-ℤ◌ find put put_info_delta finish_skill
can-6000 = refl

cast_skill-refused_while_cooling_example :
    cast_skill memory unread skill_1 (rested early) 5999 (pos 8) 1 ≡ some (rested early, [])
cast_skill-refused_while_cooling_example =
    cast_skill-refused_while_cooling memory unread skill_1 fighter early 1000 1 0 5000 (pos 7)
      skill_1 shown fighter-Has refl refl (omega arith) early-can early-cast fighter.attr_set
      (finish_skill memory unread skill_1 early 1).running_skills 5999 (pos 8) (omega arith)

-- A million seconds later.
cast_skill-refused_for_ever_example :
    cast_skill memory unread skill_1 (rested late) 3147483648 (pos 8) 1 ≡ some (rested late, [])
cast_skill-refused_for_ever_example =
    cast_skill-refused_for_ever memory unread skill_1 fighter late 2147483648 1 0 5000 (pos 7)
      skill_1 shown fighter-Has refl refl (omega arith) (omega arith) late-can late-cast
      fighter.attr_set (finish_skill memory unread skill_1 late 1).running_skills 3147483648 (pos 8)
      (omega arith)

cast_skill-costs_example : (early.attr_set.mana ≡ pos 100 -ℤ pos 2) × (pos 0 ≤ℤ early.attr_set.mana)
cast_skill-costs_example =
    cast_skill-costs memory unread skill_1 fighter early 1000 1 0 2 (pos 7) skill_1 shown
      fighter-Has refl (omega arith) early-can early-cast
