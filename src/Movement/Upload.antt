-- ===== src/Movement/Upload.antt =====
-- What a client uploads, and what others are told of it.
use archai_engine.Shared.{
  ◌==◌, ==_iff, if◌then◌else◌, subst, Bool-cases, inl, inr, not, List, Bool, false, ℕ, ◌≡◌, refl,
  ◌∙◌, true, Option, none, some, arith,
}
use archai_engine.Shared.Maps.{find, put, elem, find-put}
use archai_engine.BitStream.{OutputBitStream}
use archai_engine.BitStream.RoundTrip.{Short, write_string-Short}
use archai_engine.GridAoi.{Plane}
use archai_engine.GridAoi.Queries.{moves, call, follow, spot, call-spot}
use archai_engine.Service.{Player, SpaceService, find_player, update_position}
use archai_engine.Service.InStep.{here, InStep}
use archai_engine.Movement.{
  MovementComponent, Movement, fill_movement_data, net_serialize, net_delta_serialize, Movements,
  take_in, upload_movement,
}

module _ (p : Plane) where
  open p use {Coord}

  pub follow-here :
      (e : ℕ) (o : Option (Coord × Coord)) (x z : Coord)
      → here o ≡ true
      → follow p e o (moves e x z) ≡ some (x, z)
  follow-here e none x z h = cc
  follow-here e (some at) x z h = ground arith

  follow-moves :
      (e other : ℕ) (o : Option (Coord × Coord)) (x z : Coord)
      → ((e == other) ≡ true → here o ≡ true)
      → follow p other o (moves e x z) ≡ (if e == other then some (x, z) else o)
  follow-moves e other (some at) x z h = refl
  follow-moves e other none x z h = elim (Bool-cases (e == other)) [
    | inl c ↦ let never = h c in cc
    | inr c ↦ rw c refl
  ]

  -- What the handler leaves for a player who is in the space.
  abbrev pub Uploaded :
      SpaceService Coord
      → Movements p
      → ℕ
      → Movement Coord
      → MovementComponent Coord
      → SpaceService Coord
      → Movements p
      → Type 0
  Uploaded s ms eid msg m' s' ms' =
      (find eid ms' ≡ some m')
      × (fill_movement_data m' ≡ msg)
      × (spot p (find eid s'.space.aoi.entities) ≡ some (msg.position.x, msg.position.z))
      × (s'.space.entities ≡ s.space.entities)
      × (s'.conn_2_player ≡ s.conn_2_player)
      × (s'.exists_names ≡ s.exists_names)
      × (s'.next_eid ≡ s.next_eid)

  -- Where the grid has the others.
  abbrev pub OthersStand : SpaceService Coord → ℕ → Movement Coord → SpaceService Coord → Type 0
  OthersStand s eid msg s' =
      (other : ℕ)
      → spot p (find other s'.space.aoi.entities) ≡ (
          if eid == other
          then some (msg.position.x, msg.position.z)
          else spot p (find other s.space.aoi.entities))

  -- For a logged-in player who is in the space and has a movement component, with the grid in step with the space,
  -- the handler returns. Afterwards a message that is filled from the player's component is the uploaded message,
  -- and the grid has the player at the x and z of its position and every other entity where it had it. The space
  -- has the same entities; the service has the same players, the same names and the same next id; and no other
  -- component is changed.
  pub upload_movement_lem :
      (s : SpaceService Coord) (ms : Movements p) (conn : ℕ) (msg : Movement Coord)
      (player : Player) (m : MovementComponent Coord)
      → find_player p s conn ≡ some player
      → find player.eid ms ≡ some m
      → elem player.eid s.space.entities ≡ true
      → InStep p s.space
      → (m' : MovementComponent Coord) × (s' : SpaceService Coord) × (ms' : Movements p)
        × (upload_movement p s ms conn msg ≡ some (s', ms'))
        × Uploaded s ms player.eid msg m' s' ms'
        × OthersStand s player.eid msg s'
        × (ms' ≡ put player.eid m' ms)
  unfolding upload_movement update_position fill_movement_data call take_in
  upload_movement_lem s ms conn msg player m logged has inside fits =
      let x = msg.position.x in
      let z = msg.position.z in
      let m' =
        take_in p (record m { position = record { x = x; y = msg.position.y; z = z } }) msg in
      let s' : SpaceService Coord = record s { space = update_position p s.space player.eid x z } in
      let there : here (spot p (find player.eid s.space.aoi.entities)) ≡ true =
        fits player.eid ∙ inside in
      (
        m',
        s',
        put player.eid m' ms,
        rw (logged, upload_movement, has, inside) refl,
        (
          find-put player.eid player.eid m' ms ∙ ground arith,
          refl,
          call-spot p s.space.aoi (moves player.eid x z) player.eid
              ∙ follow-here player.eid _ x z there,
          refl,
          refl,
          refl,
          refl,
        ),
        (λ other.
            call-spot p s.space.aoi (moves player.eid x z) other
            ∙ follow-moves player.eid other _ x z (λ same.
              let eq : player.eid ≡ other = (==_iff player.eid other).0 same in
              subst (λ (e : ℕ). here (spot p (find e s.space.aoi.entities)) ≡ true) eq there)),
        refl,
      )

pub net_delta_serialize-Short :
    {C : Type 0} (memory : ℕ → ℕ) (serialize : Movement C → List ℕ) (m : MovementComponent C)
    (bs : OutputBitStream) (to_self : Bool)
    → Short (serialize (fill_movement_data m))
    → (bs' : OutputBitStream) × (net_delta_serialize memory serialize m bs to_self
        ≡ some (bs', not to_self))
unfolding net_delta_serialize net_serialize
net_delta_serialize-Short memory serialize m bs true h = (bs, refl)
net_delta_serialize-Short memory serialize m bs false h =
    let (bs', e) = write_string-Short memory bs (serialize (fill_movement_data m)) h in
    (bs', rw e refl)
