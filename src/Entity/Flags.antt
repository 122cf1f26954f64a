-- ===== src/Entity/Flags.antt =====
-- Which entities write a delta: net_delta_serialize returns true. A MovementComponent does so for every
-- client but its own, whether it moved or not; the others do when a flag or their log is set.
use archai_engine.Shared.{
  ℕ, ◌≡◌, refl, sym, ap, ◌∙◌, Bool, true, false, not, ◌&&◌, ◌||◌, some, List, [], ◌∷◌, ◌==◌, arith,
  Bool-cases, inl, inr, bit_and,
}
use archai_engine.BitStream.{OutputBitStream, write_number}
use archai_engine.BitStream.RoundTrip.{Short, write_string-Short}
use archai_engine.Movement.{Movement, fill_movement_data}
use archai_engine.Movement.Upload.{net_delta_serialize-Short}
use archai_engine.Combat.Sync.{
  combat_net_delta_serialize, combat_net_delta_serialize-flag, combat_reset_dirty,
}
use mathlib.Core.Bool.{or_assoc, or-false}
use archai_engine.Entity.{
  ComponentName, movement_component, space_component, combat_component, connection_component,
  navigation_component, name_bytes, Component, as_movement, as_space, as_combat, as_connection,
  as_navigation, Kind, a_player, a_monster, kind_net_delta_serialize, Entity, Wire,
  component_net_delta_serialize, write_deltas, entity_net_delta_serialize, reset_components,
  entity_reset_dirty, component_reset_dirty,
}

module _ {C F : Type 0} where
  -- Whether net_delta_serialize of a component returns true, to its own client (`true`) or to the others.
  abbrev pub component_says : Component C F → Bool → Bool
  component_says (as_movement m) to_self = not to_self
  component_says (as_space s) to_self = false
  component_says (as_combat c) to_self =
      not (c.attr_set.dirty_flag == 0) || (to_self && not (c.skill_infos.dirty_log.pos == 0))
  component_says (as_connection conn) to_self = false
  component_says as_navigation to_self = false

  -- Of an entity with a MovementComponent this is true for the others, always.
  abbrev pub any_says : List (ComponentName × Component C F) → Bool → Bool
  any_says [] to_self = false
  any_says ((name, comp) ∷ l) to_self = component_says comp to_self || any_says l to_self

  abbrev pub has_delta : Entity C F → Bool → Bool
  has_delta e to_self = not (e.dirty_flag == 0) || any_says e.components to_self

name_bytes-Short : (name : ComponentName) → Short (name_bytes name)
name_bytes-Short movement_component = omega arith
name_bytes-Short space_component = omega arith
name_bytes-Short combat_component = omega arith
name_bytes-Short connection_component = omega arith
name_bytes-Short navigation_component = omega arith

-- The string of a player's name fits a stream.
abbrev pub Named : Kind → Type 0
Named (a_player name) = Short name
Named (a_monster character_id) = Unit

-- Protobuf's bytes of a Movement, which has sixteen numbers and an enum, fit a string of a stream.
abbrev pub Fits : {C : Type 0} → Wire C → Type 0
Fits {C} w = (m : Movement C) → Short (w.serialize m)

kind_net_delta_serialize-Named :
    (memory : ℕ → ℕ) (kind : Kind) (flag : ℕ) (bs : OutputBitStream)
    → Named kind
    → (bs' : OutputBitStream) × (kind_net_delta_serialize memory kind flag bs ≡ some bs')
unfolding kind_net_delta_serialize
kind_net_delta_serialize-Named memory (a_monster id) flag bs h = (bs, refl)
kind_net_delta_serialize-Named memory (a_player name) flag bs h =
    let flagged = write_number memory 4 bs flag in
    let (bs', e) = write_string-Short memory flagged name h in
    elim (Bool-cases (bit_and flag 1 == 0)) [
      | inl zero_bit ↦ (flagged, rw zero_bit refl)
      | inr one_bit ↦ (bs', rw one_bit e)
    ]

module _ {C F : Type 0} (w : Wire C) where
  open w use {memory}

  component_net_delta_serialize-dirty :
      (comp : Component C F) (bs : OutputBitStream) (to_self : Bool)
      → Fits w
      → (bs' : OutputBitStream) × (component_net_delta_serialize w comp bs to_self
          ≡ some (bs', component_says comp to_self))
  unfolding component_net_delta_serialize
  component_net_delta_serialize-dirty (as_movement m) bs to_self h =
      net_delta_serialize-Short memory w.serialize m bs to_self (h (fill_movement_data m))
  component_net_delta_serialize-dirty (as_space s) bs to_self h = (bs, refl)
  component_net_delta_serialize-dirty (as_combat c) bs to_self h =
      let said = combat_net_delta_serialize memory w.get w.fresh c bs to_self in
      (
        said.0,
        ap (λ (d : Bool). some (said.0, d))
            (combat_net_delta_serialize-flag memory w.get w.fresh c bs to_self),
      )
  component_net_delta_serialize-dirty (as_connection conn) bs to_self h = (bs, refl)
  component_net_delta_serialize-dirty as_navigation bs to_self h = (bs, refl)

  write_deltas-dirty :
      (l : List (ComponentName × Component C F)) (bs : OutputBitStream) (to_self dirty : Bool)
      → Fits w
      → (bs' : OutputBitStream) × (write_deltas w l bs to_self dirty
          ≡ some (bs', dirty || any_says l to_self))
  unfolding write_deltas
  write_deltas-dirty [] bs to_self dirty h =
      (bs, ap (λ (d : Bool). some (bs, d)) (sym (or-false dirty)))
  write_deltas-dirty ((name, comp) ∷ l) bs to_self dirty h =
      let (named, e) = write_string-Short memory bs (name_bytes name) (name_bytes-Short name) in
      let (written, e') = component_net_delta_serialize-dirty comp named to_self h in
      let (bs', e'') =
        write_deltas-dirty l written to_self (dirty || component_says comp to_self) h in
      (
        bs',
        rw (e, e', e'')
            (ap (λ (d : Bool). some (bs', d))
              (or_assoc dirty (component_says comp to_self) (any_says l to_self))),
      )

  -- When the name of a player, and protobuf's bytes of each movement, are shorter than 65536, the function returns,
  -- and its result is has_delta. For the own client that is: the flags of the entity or of its AttrSet are set, or
  -- the log of its skills is not empty. For the others it is: the flags of the entity or of its AttrSet are set, or it
  -- has a MovementComponent, which always writes its whole state for them, also when it has not moved.
  pub entity_net_delta_serialize_lem :
      (e : Entity C F) (bs : OutputBitStream) (to_self : Bool)
      → Fits w
      → Named e.kind
      → (bs' : OutputBitStream) × (entity_net_delta_serialize w e bs to_self
          ≡ some (bs', has_delta e to_self))
  unfolding entity_net_delta_serialize
  entity_net_delta_serialize_lem e bs to_self h named =
      let flagged = write_number memory 4 bs e.dirty_flag in
      let (typed, e1) = kind_net_delta_serialize-Named memory e.kind e.dirty_flag flagged named in
      let (bs', e2) = write_deltas-dirty e.components flagged to_self false h in
      let (bs'', e3) = write_deltas-dirty e.components typed to_self true h in
      elim (Bool-cases (e.dirty_flag == 0)) [
        | inl c ↦ (bs', rw (c, e2) refl)
        | inr c ↦ (bs'', rw (c, e1, e3) refl)
      ]

  any_says-reset :
      (l : List (ComponentName × Component C F)) → any_says (reset_components w l) true ≡ false
  unfolding component_reset_dirty combat_reset_dirty
  any_says-reset [] = refl
  any_says-reset ((name, as_movement m) ∷ l) = any_says-reset l
  any_says-reset ((name, as_space s) ∷ l) = any_says-reset l
  any_says-reset ((name, as_combat c) ∷ l) = any_says-reset l
  any_says-reset ((name, as_connection conn) ∷ l) = any_says-reset l
  any_says-reset ((name, as_navigation) ∷ l) = any_says-reset l

  -- After entity_reset_dirty the function returns false for the entity's own client, under the same conditions.
  pub entity_reset_dirty-clean :
      (e : Entity C F) (bs : OutputBitStream)
      → Fits w
      → Named e.kind
      → (bs' : OutputBitStream) × (entity_net_delta_serialize w (entity_reset_dirty w e) bs true
          ≡ some (bs', false))
  entity_reset_dirty-clean e bs h named =
      let (bs', said) = entity_net_delta_serialize_lem (entity_reset_dirty w e) bs true h named in
      (bs', said ∙ ap (λ (d : Bool). some (bs', d)) (any_says-reset e.components))
