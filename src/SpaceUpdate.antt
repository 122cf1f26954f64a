-- ===== src/SpaceUpdate.antt =====
-- Space::update, call_all and call_others of space.cpp: what the clients are told of the entities of a space.
-- `store` is _eid_2_entity. A connection is a number; a message to one is a pair. `none` is a failed assert, a
-- StreamException, or an entity without a MovementComponent that comes into sight.
pub mod Told
pub mod Again
pub mod Cache
pub mod Plain
mod Tests
use archai_engine.Shared.{
  ℕ, Bool, true, false, Option, none, some, List, [], ◌∷◌, ◌++◌, ◌==◌, if◌then◌else◌,
}
use archai_engine.Shared.Options.{◌>>=◌}
use archai_engine.Shared.Maps.{find, put}
use archai_engine.BitStream.{OutputBitStream, empty, seekp}
use archai_engine.BitStream.Growth.{contents}
use archai_engine.GridAoi.{Plane, GridAoi, AoiState, TriggerNotify, fetch_state, get_observers}
use archai_engine.Movement.{MovementComponent, Vector3f}
use archai_engine.Entity.{
  Kind, a_player, a_monster, Component, as_movement, as_connection, Entity, Wire,
  movement_component, connection_component, get_component, reset_dirty, entity_net_serialize,
  entity_net_delta_serialize,
}

-- What get_type returns.
pub data EntityType : Type 0 where
  player_type monster_type : EntityType

abbrev pub get_type : Kind → EntityType
get_type (a_player name) = player_type
get_type (a_monster character_id) = monster_type

-- space_service::AoiEntity, a protobuf message
pub record Sight (C : Type 0) : Type 0 where
  pub entity_type : EntityType
  pub data_bytes : List ℕ
  pub position : Vector3f C
  pub rotation : Vector3f C

pub data Message (C : Type 0) : Type 0 where
  sync_delta_info : ℕ → List ℕ → Message C
  entities_enter_sight : List (Sight C) → Message C
  entities_leave_sight : List ℕ → Message C
  sync_aoi_update : List (ℕ × List ℕ) → Message C
  raw_msg : List ℕ → List ℕ → Message C

abbrev pub Sent : Type 0 → Type 0
Sent C = List (ℕ × Message C)

-- The messages to a connection, if there is one.
abbrev pub to_client : {C : Type 0} → Option ℕ → Message C → Sent C
to_client none msg = []
to_client (some conn) msg = (conn, msg) ∷ []

module _ {C F : Type 0} where
  abbrev pub as_conn : Option (Component C F) → Option ℕ
  as_conn (some (as_connection conn)) = some conn
  as_conn _ = none

  abbrev pub as_move : Option (Component C F) → Option (MovementComponent C)
  as_move (some (as_movement m)) = some m
  as_move _ = none

  abbrev pub connection_of : Entity C F → Option ℕ
  connection_of e = as_conn (get_component e connection_component)

  abbrev pub movement_of : Entity C F → Option (MovementComponent C)
  movement_of e = as_move (get_component e movement_component)

module _ {C F : Type 0} (w : Wire C) where
  -- The first loop of update, for one entity: the entity, what its client is told, and what the others are to be told.
  pub sync_entity : ℕ → Entity C F → Option (Entity C F × Sent C × List (ℕ × List ℕ))
  sync_entity eid e = do
    (bs, own) ← entity_net_delta_serialize w e empty true
    (bs', others) ← entity_net_delta_serialize w e (seekp bs 0) false
    some (
      reset_dirty e,
      if own then to_client (connection_of e) (sync_delta_info eid (contents bs)) else [],
      if others then (eid, contents bs') ∷ [] else [],
    )

  pub sync_entities :
      List (ℕ × Entity C F) → Option (List (ℕ × Entity C F) × Sent C × List (ℕ × List ℕ))
  unfolding sync_entity
  sync_entities [] = some ([], [], [])
  sync_entities ((eid, e) ∷ store) = do
    (e', sent, dirty) ← sync_entity eid e
    (store', sent', dirty') ← sync_entities store
    some ((eid, e') ∷ store', sent ++ sent', dirty ++ dirty')

  -- `entity_properties[other_eid]`, which is made at its first use.
  pub properties_of : List (ℕ × List ℕ) → ℕ → Entity C F → Option (List ℕ × List (ℕ × List ℕ))
  properties_of cache eid e = elim (find eid cache) [
    | some bytes ↦ some (bytes, cache)
    | none ↦ do
      bs ← entity_net_serialize w e empty false
      some (contents bs, put eid (contents bs) cache)
  ]

  abbrev pub sight_of : Entity C F → MovementComponent C → List ℕ → Sight C
  sight_of e m bytes = record {
    entity_type = get_type e.kind;
    data_bytes = bytes;
    position = record { x = m.position.x; y = m.position.y; z = m.position.z };
    rotation = record { x = m.rotation.pitch; y = m.rotation.yaw; z = m.rotation.roll };
  }

module _ {C F : Type 0} (w : Wire C) (store : List (ℕ × Entity C F)) where
  pub enter_one : List (ℕ × List ℕ) → ℕ → Option (List (Sight C) × List (ℕ × List ℕ))
  unfolding properties_of
  enter_one cache other = elim (find other store) [
    | none ↦ some ([], cache)
    | some e ↦ do
      (bytes, cache') ← properties_of w cache other e
      m ← movement_of e
      some (sight_of w e m bytes ∷ [], cache')
  ]

  pub enter_sight : List (ℕ × List ℕ) → ℕ → List ℕ → Option (List (Sight C) × List (ℕ × List ℕ))
  unfolding enter_one
  enter_sight cache eid [] = some ([], cache)
  enter_sight cache eid (other ∷ others) =
      let told = (do
        (sights, cache') ← enter_one cache other
        (sights', cache'') ← enter_sight cache' eid others
        some (sights ++ sights', cache'')) in
      if other == eid then none else told

  pub notify_one : List (ℕ × List ℕ) → ℕ → ℕ → TriggerNotify → Option (Sent C × List (ℕ × List ℕ))
  unfolding enter_sight
  notify_one cache eid conn notify =
      let entered = (do
        (sights, cache') ← enter_sight cache eid notify.entities
        some ((conn, entities_enter_sight sights) ∷ [], cache')) in
      if notify.is_add
      then entered
      else some ((conn, entities_leave_sight notify.entities) ∷ [], cache)

  pub notify_all :
      List (ℕ × List ℕ) → ℕ → ℕ → List TriggerNotify → Option (Sent C × List (ℕ × List ℕ))
  unfolding notify_one
  notify_all cache eid conn [] = some ([], cache)
  notify_all cache eid conn (notify ∷ notifies) = do
    (sent, cache') ← notify_one cache eid conn notify
    (sent', cache'') ← notify_all cache' eid conn notifies
    some (sent ++ sent', cache'')

  -- `aoi_updates`, of those in sight that are there and have changes.
  pub aoi_updates : List (ℕ × List ℕ) → List ℕ → List (ℕ × List ℕ)
  aoi_updates dirty [] = []
  aoi_updates dirty (eid ∷ interests) =
      let rest = aoi_updates dirty interests in
      elim (find eid store) [
        | none ↦ rest
        | some e ↦ elim (find eid dirty) [ none ↦ rest | some bytes ↦ (eid, bytes) ∷ rest ]
      ]

  -- The second loop of update, for one state of the grid. Without a connection nothing is sent.
  pub send_state :
      List (ℕ × List ℕ) → List (ℕ × List ℕ) → AoiState → Option (Sent C × List (ℕ × List ℕ))
  unfolding notify_all aoi_updates
  send_state dirty cache state = elim (find state.eid store) [
    | none ↦ some ([], cache)
    | some e ↦ elim (connection_of e) [
      | none ↦ some ([], cache)
      | some conn ↦ do
        (sent, cache') ← notify_all cache state.eid conn state.notifies
        some (sent ++ ((conn, sync_aoi_update (aoi_updates dirty state.interests)) ∷ []), cache')
    ]
  ]

  pub send_states :
      List (ℕ × List ℕ) → List (ℕ × List ℕ) → List AoiState → Option (Sent C × List (ℕ × List ℕ))
  unfolding send_state
  send_states dirty cache [] = some ([], cache)
  send_states dirty cache (state ∷ states) = do
    (sent, cache') ← send_state dirty cache state
    (sent', cache'') ← send_states dirty cache' states
    some (sent ++ sent', cache'')

  -- send_raw_msg to an entity that is there and has a connection
  pub raw_to : ℕ → List ℕ → List ℕ → Sent C
  raw_to eid name bytes = elim (find eid store) [
    | none ↦ []
    | some e ↦ to_client (connection_of e) (raw_msg name bytes)
  ]

  pub raw_to_all : List ℕ → List ℕ → List ℕ → Sent C
  unfolding raw_to
  raw_to_all [] name bytes = []
  raw_to_all (eid ∷ eids) name bytes = raw_to eid name bytes ++ raw_to_all eids name bytes

module _ (p : Plane) {F : Type 0} (w : Wire (p.Coord)) where
  open p use {Coord}

  pub update :
      List (ℕ × Entity Coord F)
      → GridAoi Coord
      → Option (List (ℕ × Entity Coord F) × GridAoi Coord × Sent Coord)
  unfolding sync_entities send_states
  update store aoi = do
    (store', sent, dirty) ← sync_entities w store
    let (states, aoi') = fetch_state p aoi
    (sent', cache) ← send_states w store' dirty [] states
    some (store', aoi', sent ++ sent')

  pub call_others : List (ℕ × Entity Coord F) → GridAoi Coord → ℕ → List ℕ → List ℕ → Sent Coord
  unfolding raw_to_all
  call_others store aoi eid name bytes = raw_to_all w store (get_observers p aoi eid) name bytes

  pub call_all : List (ℕ × Entity Coord F) → GridAoi Coord → ℕ → List ℕ → List ℕ → Sent Coord
  unfolding call_others raw_to
  call_all store aoi eid name bytes =
      raw_to w store eid name bytes ++ call_others store aoi eid name bytes
