-- ===== src/Service/Sessions.antt =====
-- What connections do with the service.
use archai_engine.Shared.{
  subst, ℕ, ◌≡◌, ◌⊎◌, inl, inr, refl, sym, ◌∙◌, true, false, List, [], ◌∷◌, ◌==◌, if◌then◌else◌,
  arith, Bool-cases,
}
use native.Mathlib.Decide.{ℕ_discrete}
use archai_engine.Shared.Maps.{find, elem}
use archai_engine.GridAoi.{Plane, init}
use archai_engine.Service.{
  present, find_entities_in_circle, Space, SpaceService, enter, start, login, join, leave,
}
use archai_engine.Service.Live.{
  LoggedIn, IsLive, enter-elem, login-IsLive, join-IsLive, leave-IsLive,
}
use archai_engine.Service.InStep.{
  InStep, update_position-InStep, enter-InStep, login-space, join-InStep, leave-InStep,
}

-- What a connection does: leaves is also its loss.
pub data Event (C : Type 0) : Type 0 where
  logs_in : ℕ → List ℕ → Event C
  joins : ℕ → C → C → C → Event C
  leaves : ℕ → Event C

module _ (p : Plane) where
  open p use {Coord}

  unfoldable pub step : SpaceService Coord → Event Coord → SpaceService Coord
  step s (logs_in conn name) = (login p s conn name).0
  step s (joins conn x z view) = (join p s conn x z view).0
  step s (leaves conn) = leave p s conn

  unfoldable pub steps : SpaceService Coord → List (Event Coord) → SpaceService Coord
  unfolding step
  steps s [] = s
  steps s (e ∷ es) = steps (step s e) es

  start-Kept :
      (x z view x' z' : Coord)
      → IsLive (start p x z view x' z').space.entities (start p x z view x' z').conn_2_player
        × InStep p (start p x z view x' z').space
  unfolding start elem find
  start-Kept x z view x' z' =
      let nowhere : Space Coord = record { entities = []; aoi = init } in
      let inside = enter p nowhere 1 x z view in
      (
        (λ e h.
            let one : (if 1 == e then true else false) ≡ true =
              sym (enter-elem p nowhere 1 x z view e) ∙ h in
            inl (ground arith)),
        update_position-InStep p inside 1 x' z' (enter-InStep p nowhere 1 x z view (λ e. refl)),
      )

  step-Kept :
      (s : SpaceService Coord) (v : Event Coord)
      → IsLive s.space.entities s.conn_2_player × InStep p s.space
      → IsLive (step s v).space.entities (step s v).conn_2_player × InStep p (step s v).space
  unfolding step
  step-Kept s (logs_in conn name) (live, fits) =
      (login-IsLive p s conn name live, subst (InStep p) (sym (login-space p s conn name)) fits)
  step-Kept s (joins conn x z view) (live, fits) =
      (join-IsLive p s conn x z view live, join-InStep p s conn x z view fits)
  step-Kept s (leaves conn) (live, fits) = (leave-IsLive p s conn live, leave-InStep p s conn fits)

  steps-Kept :
      (s : SpaceService Coord) (vs : List (Event Coord))
      → IsLive s.space.entities s.conn_2_player × InStep p s.space
      → IsLive (steps s vs).space.entities (steps s vs).conn_2_player × InStep p (steps s vs).space
  unfolding steps
  steps-Kept s [] h = h
  steps-Kept s (v ∷ vs) h = steps-Kept (step s v) vs (step-Kept s v h)

  -- The service starts, and connections log in, join the space, leave it and are lost in any order. Then each
  -- entity of the space is the monster or a player who is logged in, not that each of those is in the space; and
  -- the grid of the area of interest has just the entities of the space. No round of the grid's thread runs
  -- between the calls.
  pub steps-IsLive :
      (x z view x' z' : Coord) (vs : List (Event Coord))
      → IsLive
          (steps (start p x z view x' z') vs).space.entities
          (steps (start p x z view x' z') vs).conn_2_player
        × InStep p (steps (start p x z view x' z') vs).space
  steps-IsLive x z view x' z' vs =
      steps-Kept (start p x z view x' z') vs (start-Kept x z view x' z')

  present-elem :
      (entities eids : List ℕ) (a : ℕ)
      → elem a (present entities eids) ≡ true
      → elem a entities ≡ true
  unfolding present elem
  present-elem entities [] a h = cc
  present-elem entities (eid ∷ eids) a h = elim (Bool-cases (elem eid entities)) [
    | inr out ↦ let h' = rw out at h in present-elem entities eids a h'
    | inl kept ↦
        let h' : elem a (eid ∷ present entities eids) ≡ true = rw kept at h in
        elim (ℕ_discrete eid a) [
          | yes same ↦ subst (λ x. elem x entities ≡ true) same kept
          | no other ↦
              let later : elem a (present entities eids) ≡ true = ground arith in
              present-elem entities eids a later
        ]
  ]

  -- However connections come and go after the start, the search of the space by circle, which finds who is
  -- hit by a skill, gives only the monster and players who are logged in.
  pub find_entities_in_circle-IsLive :
      (x z view x' z' : Coord) (vs : List (Event Coord)) (cx cy r : Coord) (a : ℕ)
      → elem a (find_entities_in_circle p (steps (start p x z view x' z') vs).space cx cy r).0
        ≡ true
      → (a ≡ 1) ⊎ LoggedIn a (steps (start p x z view x' z') vs).conn_2_player
  unfolding find_entities_in_circle
  find_entities_in_circle-IsLive x z view x' z' vs cx cy r a h =
      let (live, fits) = steps-IsLive x z view x' z' vs in
      live a (present-elem (steps (start p x z view x' z') vs).space.entities _ a h)
