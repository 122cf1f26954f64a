-- ===== src/Entity/Tests.antt =====
-- A player who is hurt, with a combat and a connection component.
use archai_engine.Shared.{ℕ, ◌≡◌, true, false, none, some, [], ◌∷◌, arith}
use archai_engine.Shared.Int.{ℤ, pos}
use archai_engine.BitStream.{OutputBitStream, empty}
use archai_engine.AttrSet.{AttrSet}
use archai_engine.Combat.{CombatComponent, new_skill_info}
use archai_engine.Entity.{
  combat_component, connection_component, as_combat, as_connection, a_player, Entity, Wire,
  entity_net_delta_serialize, entity_reset_dirty,
}
use archai_engine.Entity.Flags.{has_delta, entity_net_delta_serialize_lem, entity_reset_dirty-clean}

abbrev pub wire : Wire ℤ
wire = record {
  memory = λ n. 0;
  serialize = λ m. 1 ∷ 2 ∷ [];
  get = λ i. none;
  fresh = new_skill_info 0 [] (pos 0) (pos 0) false;
}

abbrev pub hurt : AttrSet ℕ
hurt = record {
  defence = pos 1;
  shield = pos 0;
  critical_rate = 0;
  critical_damage = 0;
  accuracy = 0;
  dodge_rate = 0;
  lifesteal = 0;
  dirty_flag = 2;
  max_health = pos 100;
  health = pos 90;
  max_mana = pos 10;
  mana = pos 10;
}

abbrev pub fighter : CombatComponent ℕ
fighter = record {
  attr_set = hurt;
  skill_infos = record { vec = []; dirty_log = empty };
  running_skills = [];
}

abbrev pub hero : Entity ℤ ℕ
hero = record {
  eid = 2;
  dirty_flag = 0;
  kind = a_player (65 ∷ []);
  components =
      (combat_component, as_combat fighter) ∷ (connection_component, as_connection 10) ∷ [];
}

entity_net_delta_serialize_lem_example :
    (bs' : OutputBitStream) × (entity_net_delta_serialize wire hero empty true
      ≡ some (bs', has_delta hero true))
entity_net_delta_serialize_lem_example =
    entity_net_delta_serialize_lem wire hero empty true (λ m. omega arith) (omega arith)

entity_reset_dirty-clean_example :
    (bs' : OutputBitStream) × (entity_net_delta_serialize wire
        (entity_reset_dirty wire hero)
        empty
        true
      ≡ some (bs', false))
entity_reset_dirty-clean_example =
    entity_reset_dirty-clean wire hero empty (λ m. omega arith) (omega arith)
