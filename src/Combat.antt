-- ===== src/Combat.antt =====
-- combat/combat_component.h and .cpp, combat/skill: which skills a fighter may cast, and what casting
-- does. `now` is G_Timer.ms_since_start(). Messages and timers that are started are in a list of effects,
-- in order; `none` is a failed assert, but for that of play_animation that the fighter is in a space, which
-- is taken to hold. Ids of skills are not negative.
pub mod Cast
pub mod CoolDown
pub mod Sync
mod Tests
use archai_engine.Shared.{
  ℕ, zero, suc, ◌+◌, ◌-◌, ◌%◌, ◌^◌, Bool, true, false, not, ◌&&◌, bit_or, bit_and, Option, none,
  some, List, [], ◌∷◌, ◌++◌, ◌==◌, ltb, if◌then◌else◌, get_elem?, set,
}
use archai_engine.Shared.Options.{◌>>=◌}
use archai_engine.Shared.Int.{ℤ, pos, negsuc, ◌+ℤ◌, ◌-ℤ◌, ltb_ℤ, eq_ℤ}
use archai_engine.Shared.Maps.{find, put}
use archai_engine.BitStream.{OutputBitStream, InputBitStream, write_number, write_string}
use archai_engine.SyncArray.{Serial, SyncArray, assign, mark_dirty}
use archai_engine.AttrSet.{AttrSet, add_mana, write_int, write_if_dirty}

pub record SkillInfo : Type 0 where
  pub skill_id : ℕ
  pub anmimator_state : List ℕ
  pub cost_mana : ℤ
  pub cool_down : ℤ
  pub next_cast_time : ℤ
  pub local_predicated : Bool
  pub instance_per_entity : Bool
  pub dirty_flag : ℕ

-- SkillInfo::init, on a new SkillInfo
abbrev pub new_skill_info : ℕ → List ℕ → ℤ → ℤ → Bool → SkillInfo
new_skill_info skill_id anim cost_mana cool_down local_predicated = record {
  skill_id = skill_id;
  anmimator_state = anim;
  cost_mana = cost_mana;
  cool_down = cool_down;
  next_cast_time = pos 0;
  local_predicated = local_predicated;
  instance_per_entity = true;
  dirty_flag = 0;
}

abbrev pub set_next_cast_time : SkillInfo → ℤ → SkillInfo
set_next_cast_time info val = record info {
  next_cast_time = val;
  dirty_flag = bit_or info.dirty_flag 16;
}

-- ISkill, and Skill_1, which is the only one.
pub record Skill : Type 0 where
  pub is_active : Bool
  pub effect_timer : ℤ

abbrev pub bit : Bool → ℕ
bit true = 1
bit false = 0

abbrev pub new_skill : Skill
new_skill = record { is_active = true; effect_timer = negsuc 0 }

-- SkillFactory::create: skill 1 is registered.
pub create : ℕ → Option Skill
create id = if id == 1 then some new_skill else none

pub data Effect : Type 0 where
  play_animation : List ℕ → Bool → Effect
  start_timer : ℕ → Effect
  stop_timer : ℤ → Effect
  log_error : Effect

pub record CombatComponent (F : Type 0) : Type 0 where
  pub attr_set : AttrSet F
  pub skill_infos : SyncArray SkillInfo
  pub running_skills : List (ℕ × Skill)

-- `int(ms)`, and an int that is compared with a size_t.
pub to_int : ℕ → ℤ
to_int ms = let low = ms % 2 ^ 32 in if ltb low (2 ^ 31) then pos low else negsuc (2 ^ 32 - 1 - low)

pub to_size : ℤ → ℕ
to_size (pos n) = n
to_size (negsuc n) = 2 ^ 64 - 1 - n

-- std::find_if: the place of the first with this id.
pub find_info : ℕ → List SkillInfo → Option ℕ
find_info id [] = none
find_info id (info ∷ infos) =
    let rest = (do i ← find_info id infos; some (i + 1)) in
    if info.skill_id == id then some 0 else rest

-- `_running_skills` has the skill, and it is active.
abbrev pub active : Option Skill → Bool
active none = false
active (some skill) = skill.is_active

-- Skill_1::destroy, for all
pub stop_effects : List (ℕ × Skill) → List Effect
stop_effects [] = []
stop_effects ((id, skill) ∷ skills) =
    (if eq_ℤ skill.effect_timer (negsuc 0) then [] else stop_timer skill.effect_timer ∷ [])
    ++ stop_effects skills

-- SkillInfo::net_serialize and net_delta_serialize. How a stream gives a SkillInfo is a parameter: the class
-- has no function that reads one.
module _ (memory : ℕ → ℕ) where
  pub put_info : OutputBitStream → SkillInfo → Option OutputBitStream
  put_info bs info = do
    bs' ← write_string memory (write_int memory bs (pos info.skill_id)) info.anmimator_state
    let timed =
        write_int memory (write_int memory (write_int memory bs' info.cost_mana) info.cool_down)
          info.next_cast_time
    some (write_number memory 1 timed (bit info.local_predicated))

  pub put_dirty : OutputBitStream → SkillInfo → Option OutputBitStream
  put_dirty bs info =
      let flag = info.dirty_flag in
      do
        let first = write_if_dirty memory flag 1 (pos info.skill_id) bs
        second ←
            (if bit_and flag 2 == 0
              then some first
              else write_string memory first info.anmimator_state)
        let third = write_if_dirty memory flag 4 info.cost_mana second
        let fourth = write_if_dirty memory flag 8 info.cool_down third
        let fifth = write_if_dirty memory flag 16 info.next_cast_time fourth
        some (
            if bit_and flag 32 == 0
            then fifth
            else write_number memory 1 fifth (bit info.local_predicated))

  pub put_info_delta : OutputBitStream → SkillInfo → Option (OutputBitStream × SkillInfo)
  unfolding put_dirty
  put_info_delta bs info =
      let flagged = write_number memory 1 bs info.dirty_flag in
      let written = (do bs' ← put_dirty flagged info; some (bs', record info { dirty_flag = 0 })) in
      if info.dirty_flag == 0 then some (flagged, info) else written

  abbrev pub skill_serial :
      (InputBitStream → Option (SkillInfo × InputBitStream)) → SkillInfo → Serial SkillInfo
  skill_serial get fresh = record {
    put = put_info;
    put_delta = put_info_delta;
    get = get;
    fresh = fresh;
  }

module _ {F : Type 0} where
  pub can_cast_skill : CombatComponent F → ℕ → SkillInfo → Bool
  unfolding to_size
  can_cast_skill c now info =
      if ltb_ℤ c.attr_set.mana info.cost_mana
      then false
      else if ltb now (to_size info.next_cast_time)
      then false
      else not (active (find info.skill_id c.running_skills))

  -- The skill's new state; `delete` and `new` where it is not kept for the entity.
  pub get_or_create_skill_instance : CombatComponent F → ℕ → Bool → Option Skill
  unfolding create
  get_or_create_skill_instance c skill_id instance_per_entity =
      elim (find skill_id c.running_skills) [
        | none ↦ create skill_id
        | some skill ↦
            if skill.is_active
            then none
            else if instance_per_entity
            then some (record skill { is_active = true })
            else create skill_id
      ]

module _ (memory : ℕ → ℕ) (get : InputBitStream → Option (SkillInfo × InputBitStream))
    (fresh : SkillInfo) where
  -- A change through the iterator, which is then marked.
  pub change_info : SyncArray SkillInfo → ℕ → SkillInfo → Option (SyncArray SkillInfo)
  change_info infos i info = do
    infos' ← assign memory (skill_serial memory get fresh) infos i info
    mark_dirty memory (skill_serial memory get fresh) infos' i

module _ (memory : ℕ → ℕ) (get : InputBitStream → Option (SkillInfo × InputBitStream))
    (fresh : SkillInfo) {F : Type 0} where
  -- The part of cast_skill for the skill at place `i`. `timer` is the id that add_timer gives to the effect of
  -- Skill_1::execute.
  pub start_skill :
      CombatComponent F → ℕ → ℤ → ℕ → SkillInfo → Option (CombatComponent F × List Effect)
  unfolding get_or_create_skill_instance to_int change_info
  start_skill c now timer i info = do
    infos ←
        change_info memory get fresh c.skill_infos i
          (set_next_cast_time info (to_int now +ℤ info.cool_down))
    skill ← get_or_create_skill_instance c info.skill_id info.instance_per_entity
    some (
      record {
        attr_set = add_mana c.attr_set (pos 0 -ℤ info.cost_mana);
        skill_infos = infos;
        running_skills = put info.skill_id (record skill { effect_timer = timer }) c.running_skills;
      },
      play_animation (83 ∷ 107 ∷ 105 ∷ 108 ∷ 108 ∷ 49 ∷ []) true ∷ start_timer 1500 ∷ [],
    )

  -- A client that has already started the skill is put right.
  pub roll_back : CombatComponent F → ℕ → SkillInfo → Option (CombatComponent F × List Effect)
  unfolding change_info
  roll_back c i info = do
    infos ←
        change_info memory get fresh c.skill_infos i (set_next_cast_time info info.next_cast_time)
    some (record c { attr_set = add_mana c.attr_set (pos 0); skill_infos = infos }, [])

  pub cast_at : CombatComponent F → ℕ → ℤ → ℕ → SkillInfo → Option (CombatComponent F × List Effect)
  unfolding can_cast_skill start_skill roll_back
  cast_at c now timer i info =
      if can_cast_skill c now info
      then start_skill c now timer i info
      else if info.local_predicated
      then roll_back c i info
      else some (c, [])

  pub cast_skill : CombatComponent F → ℕ → ℤ → ℕ → Option (CombatComponent F × List Effect)
  unfolding find_info cast_at
  cast_skill c now timer skill_id = elim (find_info skill_id c.skill_infos.vec) [
    | none ↦ some (c, log_error ∷ [])
    | some i ↦ do info ← get_elem? c.skill_infos.vec i; cast_at c now timer i info
  ]

  -- The effect of Skill_1 when its timer runs, but for the damage to those in the circle.
  pub finish_skill : CombatComponent F → ℕ → CombatComponent F
  finish_skill c skill_id = elim (find skill_id c.running_skills) [
    | none ↦ c
    | some skill ↦ record c {
      running_skills =
          put skill_id (record skill { effect_timer = negsuc 0; is_active = false })
            c.running_skills;
    }
  ]

  -- stop_running_skill
  pub stop_running_skill : CombatComponent F → CombatComponent F × List Effect
  unfolding stop_effects
  stop_running_skill c = (record c { running_skills = [] }, stop_effects c.running_skills)
