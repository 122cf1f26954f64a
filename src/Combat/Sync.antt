-- ===== src/Combat/Sync.antt =====
-- combat/combat_component.cpp: what a fighter starts with, and what clients are told of it.
use archai_engine.Shared.{
  not, ◌&&◌, ◌==◌, ◌≡◌, refl, sym, ◌∙◌, ℕ, Bool, true, false, ◌||◌, Option, some, [], ◌∷◌,
  if◌then◌else◌,
}
use archai_engine.Shared.Options.{◌>>=◌}
use archai_engine.Shared.Int.{pos}
use archai_engine.BitStream.{OutputBitStream, InputBitStream, empty}
use archai_engine.SyncArray
use archai_engine.SyncArray.Replay
use archai_engine.AttrSet
use archai_engine.AttrSet.Delta
use mathlib.Core.Bool.{or-false}
use archai_engine.AttrSet.{AttrSet}
use archai_engine.Combat.{SkillInfo, CombatComponent, new_skill_info, skill_serial}

-- What an entity is written with: what `realloc` leaves in new memory, protobuf's SerializeToString, and what
-- the class of arrays takes of SkillInfo and does not use here.
module _ (memory : ℕ → ℕ) (get : InputBitStream → Option (SkillInfo × InputBitStream))
    (fresh : SkillInfo) {F : Type 0} where
  -- CombatComponent::init, on a new component; `attr_set` is what AttrSet::init leaves.
  pub combat_init : AttrSet F → Option (CombatComponent F)
  combat_init attr_set = do
    infos ←
        SyncArray.push_back memory (skill_serial memory get fresh)
          (record { vec = []; dirty_log = empty })
          (new_skill_info 1 (83 ∷ 107 ∷ 105 ∷ 108 ∷ 108 ∷ 49 ∷ []) (pos 2) (pos 5000) false)
    some (record { attr_set = attr_set; skill_infos = infos; running_skills = [] })

  pub combat_net_serialize : CombatComponent F → OutputBitStream → Bool → Option OutputBitStream
  combat_net_serialize c bs to_self =
      let bs' = AttrSet.net_serialize memory c.attr_set bs in
      if to_self
      then SyncArray.net_serialize memory (skill_serial memory get fresh) c.skill_infos bs'
      else some bs'

  unfoldable pub combat_net_delta_serialize :
      CombatComponent F → OutputBitStream → Bool → OutputBitStream × Bool
  combat_net_delta_serialize c bs to_self =
      let (bs', dirty) = AttrSet.net_delta_serialize memory c.attr_set bs in
      let (bs'', dirty') =
        SyncArray.net_delta_serialize memory (skill_serial memory get fresh) c.skill_infos bs' in
      if to_self then (bs'', dirty || dirty') else (bs', dirty)

  unfoldable pub combat_reset_dirty : CombatComponent F → CombatComponent F
  combat_reset_dirty c = record c {
    attr_set = AttrSet.reset_dirty c.attr_set;
    skill_infos = SyncArray.reset_dirty memory (skill_serial memory get fresh) c.skill_infos;
  }

  pub combat_net_delta_serialize-flag :
      (c : CombatComponent F) (bs : OutputBitStream) (to_self : Bool)
      → (combat_net_delta_serialize c bs to_self).1
        ≡ (not (c.attr_set.dirty_flag == 0) || (to_self && not (c.skill_infos.dirty_log.pos == 0)))
  unfolding combat_net_delta_serialize
  combat_net_delta_serialize-flag c bs true =
      let bs' = (AttrSet.net_delta_serialize memory c.attr_set bs).0 in
      rw
        (
          Delta.net_delta_serialize-flag memory c.attr_set bs,
          Replay.net_delta_serialize-flag memory (skill_serial memory get fresh) c.skill_infos bs',
        )
        refl
  combat_net_delta_serialize-flag c bs false =
      Delta.net_delta_serialize-flag memory c.attr_set bs ∙ sym (or-false _)
