-- ===== src/Movement.antt =====
-- movement_component.h and .cpp: where an entity is and how it moves, and the handler of space_service.cpp that
-- a client tells it by. float is the type of coordinates of the grid. How protobuf turns a message into
-- bytes, and std::atan2 in degrees, are parameters.
pub mod Upload
pub mod Tests
use archai_engine.Shared.{
  ℕ, Bool, true, false, Option, none, some, List, [], ◌∷◌, ◌==◌, if◌then◌else◌,
}
use archai_engine.Shared.Int.{ℤ, pos}
use archai_engine.Shared.Maps.{find, put, elem}
use archai_engine.BitStream.{OutputBitStream, write_string}
use archai_engine.GridAoi.{Plane}
use archai_engine.Service.{Space, SpaceService, find_player, update_position}

pub record Vector3f (C : Type 0) : Type 0 where
  pub x : C
  pub y : C
  pub z : C

pub record Rotation (C : Type 0) : Type 0 where
  pub pitch : C
  pub yaw : C
  pub roll : C

pub record MovementComponent (C : Type 0) : Type 0 where
  pub position : Vector3f C
  pub rotation : Rotation C
  pub velocity : Vector3f C
  pub acceleration : Vector3f C
  pub angular_velocity : Vector3f C
  pub move_mode : ℤ
  pub move_timestamp : C

-- space_service::Movement, a protobuf message
pub record Movement (C : Type 0) : Type 0 where
  pub position : Vector3f C
  pub rotation : Vector3f C
  pub velocity : Vector3f C
  pub acceleration : Vector3f C
  pub angular_velocity : Vector3f C
  pub mode : ℤ
  pub timestamp : C

module _ {C : Type 0} where
  pub set_rotation : MovementComponent C → C → C → C → MovementComponent C
  set_rotation m x y z = record m { rotation = record { pitch = x; yaw = y; roll = z } }

  pub set_velocity : MovementComponent C → C → C → C → MovementComponent C
  set_velocity m x y z = record m { velocity = record { x = x; y = y; z = z } }

  pub set_acceleration : MovementComponent C → C → C → C → MovementComponent C
  set_acceleration m x y z = record m { acceleration = record { x = x; y = y; z = z } }

  pub set_angular_velocity : MovementComponent C → C → C → C → MovementComponent C
  set_angular_velocity m x y z = record m { angular_velocity = record { x = x; y = y; z = z } }

  pub set_move_mode : MovementComponent C → ℤ → MovementComponent C
  set_move_mode m mode = record m { move_mode = mode }

  unfoldable pub set_move_timestamp : MovementComponent C → C → MovementComponent C
  set_move_timestamp m t = record m { move_timestamp = t }

  pub fill_movement_data : MovementComponent C → Movement C
  fill_movement_data m = record {
    position = record { x = m.position.x; y = m.position.y; z = m.position.z };
    rotation = record { x = m.rotation.pitch; y = m.rotation.yaw; z = m.rotation.roll };
    velocity = record { x = m.velocity.x; y = m.velocity.y; z = m.velocity.z };
    acceleration = record { x = m.acceleration.x; y = m.acceleration.y; z = m.acceleration.z };
    angular_velocity = record {
      x = m.angular_velocity.x;
      y = m.angular_velocity.y;
      z = m.angular_velocity.z;
    };
    mode = m.move_mode;
    timestamp = m.move_timestamp;
  }

  module _ (memory : ℕ → ℕ) (serialize : Movement C → List ℕ) where
    pub net_serialize : MovementComponent C → OutputBitStream → Bool → Option OutputBitStream
    unfolding fill_movement_data
    net_serialize m bs to_self =
        if to_self then some bs else write_string memory bs (serialize (fill_movement_data m))

    pub net_delta_serialize :
        MovementComponent C → OutputBitStream → Bool → Option (OutputBitStream × Bool)
    unfolding net_serialize
    net_delta_serialize m bs to_self =
        if to_self
        then some (bs, false)
        else elim (net_serialize m bs to_self) [ none ↦ none | some bs' ↦ some (bs', true) ]

module _ (p : Plane) where
  open p use {Coord, origin, minus}

  -- A component, and the space that its entity is in, if it is in one.
  unfoldable pub set_position :
      MovementComponent Coord
      → Space Coord
      → ℕ
      → Coord
      → Coord
      → Coord
      → MovementComponent Coord × Space Coord
  unfolding update_position
  set_position m s eid x y z =
      let moved = record m { position = record { x = x; y = y; z = z } } in
      if elem eid s.entities then (moved, update_position p s eid x z) else (moved, s)

  -- `yaw_of` is `std::atan2(x, z) / DEG2RAD`.
  unfoldable pub look_at :
      (Coord → Coord → Coord) → MovementComponent Coord → Vector3f Coord → MovementComponent Coord
  unfolding set_rotation
  look_at yaw_of m to =
      set_rotation m origin (yaw_of (minus to.x m.position.x) (minus to.z m.position.z)) origin

  -- The movement components of the players, by their ids.
  abbrev pub Movements : Type 0
  Movements = List (ℕ × MovementComponent Coord)

  abbrev pub take_in : MovementComponent Coord → Movement Coord → MovementComponent Coord
  unfolding set_rotation set_velocity set_acceleration set_angular_velocity set_move_mode
      set_move_timestamp
  take_in m msg =
      let turned = set_rotation m msg.rotation.x msg.rotation.y msg.rotation.z in
      let moving = set_velocity turned msg.velocity.x msg.velocity.y msg.velocity.z in
      let pushed =
        set_acceleration moving msg.acceleration.x msg.acceleration.y msg.acceleration.z in
      let turning =
        set_angular_velocity pushed msg.angular_velocity.x msg.angular_velocity.y
          msg.angular_velocity.z in
      set_move_timestamp (set_move_mode turning msg.mode) msg.timestamp

  -- `none` is a component that is missing.
  pub upload_movement :
      SpaceService Coord → Movements → ℕ → Movement Coord → Option (SpaceService Coord × Movements)
  unfolding set_position
  upload_movement s ms conn msg = elim (find_player p s conn) [
    | none ↦ some (s, ms)
    | some player ↦ elim (find player.eid ms) [
      | none ↦ none
      | some m ↦
          let (m', space') =
            set_position m s.space player.eid msg.position.x msg.position.y msg.position.z in
          some (record s { space = space' }, put player.eid (take_in m' msg) ms)
    ]
  ]
