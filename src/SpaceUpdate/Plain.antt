-- ===== src/SpaceUpdate/Plain.antt =====
-- The second loop of Space::update without `entity_properties`.
use archai_engine.Shared.{ℕ, false, Option, none, some, List, [], ◌∷◌, ◌++◌, ◌==◌, if◌then◌else◌}
use archai_engine.Shared.Options.{◌>>=◌}
use archai_engine.Shared.Maps.{find}
use archai_engine.BitStream.{empty}
use archai_engine.BitStream.Growth.{contents}
use archai_engine.GridAoi.{AoiState, TriggerNotify}
use archai_engine.Entity.{Entity, Wire, entity_net_serialize}
use archai_engine.SpaceUpdate.{
  Sight, Sent, entities_enter_sight, entities_leave_sight, sync_aoi_update, connection_of,
  movement_of, sight_of, aoi_updates,
}

module _ {C F : Type 0} (w : Wire C) (store : List (ℕ × Entity C F)) where
  -- The second loop of update with the bytes of an entity made anew at every use.
  unfoldable pub plain_properties : Entity C F → Option (List ℕ)
  plain_properties e = do bs ← entity_net_serialize w e empty false; some (contents bs)

  unfoldable pub plain_one : ℕ → Option (List (Sight C))
  unfolding plain_properties
  plain_one other = elim (find other store) [
    | none ↦ some []
    | some e ↦ do bytes ← plain_properties e; m ← movement_of e; some (sight_of w e m bytes ∷ [])
  ]

  unfoldable pub plain_sight : ℕ → List ℕ → Option (List (Sight C))
  unfolding plain_one
  plain_sight eid [] = some []
  plain_sight eid (other ∷ others) =
      let told = (do
        sights ← plain_one other
        sights' ← plain_sight eid others
        some (sights ++ sights')) in
      if other == eid then none else told

  unfoldable pub plain_notify : ℕ → ℕ → TriggerNotify → Option (Sent C)
  unfolding plain_sight
  plain_notify eid conn notify =
      let entered = (do
        sights ← plain_sight eid notify.entities
        some ((conn, entities_enter_sight sights) ∷ [])) in
      if notify.is_add then entered else some ((conn, entities_leave_sight notify.entities) ∷ [])

  unfoldable pub plain_all : ℕ → ℕ → List TriggerNotify → Option (Sent C)
  unfolding plain_notify
  plain_all eid conn [] = some []
  plain_all eid conn (notify ∷ notifies) = do
    sent ← plain_notify eid conn notify
    sent' ← plain_all eid conn notifies
    some (sent ++ sent')

  unfoldable pub plain_state : List (ℕ × List ℕ) → AoiState → Option (Sent C)
  unfolding plain_all
  plain_state dirty state = elim (find state.eid store) [
    | none ↦ some []
    | some e ↦ elim (connection_of e) [
      | none ↦ some []
      | some conn ↦ do
        sent ← plain_all state.eid conn state.notifies
        some (sent ++ ((conn, sync_aoi_update (aoi_updates w store dirty state.interests)) ∷ []))
    ]
  ]

  unfoldable pub plain_states : List (ℕ × List ℕ) → List AoiState → Option (Sent C)
  unfolding plain_state
  plain_states dirty [] = some []
  plain_states dirty (state ∷ states) = do
    sent ← plain_state dirty state
    sent' ← plain_states dirty states
    some (sent ++ sent')
