-- ===== src/Movement/Tests.antt =====
-- A player who walks on the grid of GridAoi/Tests.
use archai_engine.Shared.{ℕ, ◌≡◌, refl, true, some, List, [], ◌∷◌}
use archai_engine.Shared.Int.{ℤ, pos}
use archai_engine.Shared.Maps.{elem, find, put, include}
use archai_engine.GridAoi.{add_entity}
use archai_engine.GridAoi.Tests.{points}
use archai_engine.Service.{Player, SpaceService, start, login, join, same_name, find_player}
use archai_engine.Service.InStep.{InStep}
use archai_engine.Service.Sessions.{Event, logs_in, joins, steps, steps-IsLive}
use archai_engine.Movement.{Vector3f, MovementComponent, Movement, upload_movement}
use archai_engine.Movement.Upload.{OthersStand, Uploaded, upload_movement_lem}

abbrev arrivals : List (Event ℤ)
arrivals = logs_in 10 (65 ∷ []) ∷ joins 10 (pos 1) (pos 1) (pos 3) ∷ []

abbrev pub arrived : SpaceService ℤ
arrived = steps points (start points (pos 5) (pos 5) (pos 3) (pos 4) (pos 14)) arrivals

abbrev rest : Vector3f ℤ
rest = record { x = pos 0; y = pos 0; z = pos 0 }

abbrev pub standing : MovementComponent ℤ
standing = record {
  position = rest;
  rotation = record { pitch = pos 0; yaw = pos 0; roll = pos 0 };
  velocity = rest;
  acceleration = rest;
  angular_velocity = rest;
  move_mode = pos 0;
  move_timestamp = pos 0;
}

abbrev walk : Movement ℤ
walk = record {
  position = record { x = pos 2; y = pos 0; z = pos 3 };
  rotation = record { x = pos 0; y = pos 90; z = pos 0 };
  velocity = record { x = pos 1; y = pos 0; z = pos 0 };
  acceleration = rest;
  angular_velocity = rest;
  mode = pos 1;
  timestamp = pos 7;
}

abbrev walker : Player
walker = record { eid = 2; name = 65 ∷ [] }

arrived-walker : find_player points arrived 10 ≡ some walker
unfolding find_player steps find put login join start same_name add_entity
arrived-walker = refl

pub arrived-inside : elem 2 arrived.space.entities ≡ true
unfolding elem steps find put login join start same_name add_entity find_player include
arrived-inside = refl

pub arrived-InStep : InStep points arrived.space
arrived-InStep = (steps-IsLive points (pos 5) (pos 5) (pos 3) (pos 4) (pos 14) arrivals).1

found-standing : find 2 (put 2 standing []) ≡ some standing
unfolding find put
found-standing = refl

upload_movement_lem_example :
    (m' : MovementComponent ℤ) × (s' : SpaceService ℤ) × (ms' : List (ℕ × MovementComponent ℤ))
    × (upload_movement points arrived (put 2 standing []) 10 walk ≡ some (s', ms'))
    × Uploaded points arrived (put 2 standing []) 2 walk m' s' ms'
    × OthersStand points arrived 2 walk s'
    × (ms' ≡ put 2 m' (put 2 standing []))
upload_movement_lem_example =
    upload_movement_lem points arrived (put 2 standing []) 10 walk walker standing arrived-walker
      found-standing arrived-inside arrived-InStep
