-- ===== src/Service/InStep.antt =====
-- The space and its grid have the same entities.
use archai_engine.Shared.{
  ℕ, ◌≡◌, inl, inr, refl, sym, ap, ◌∙◌, Bool, true, false, Option, none, some, List, ◌==◌,
  if◌then◌else◌, arith, Bool-cases, Option-cases,
}
use archai_engine.Shared.Maps.{find, elem, elem-include, elem-exclude}
use archai_engine.GridAoi.{Plane, update_entity}
use archai_engine.GridAoi.Queries.{adds, dels, moves, call, follow, spot, call-spot}
use archai_engine.Service.{Space, SpaceService, enter, exit, login, join, leave, update_position}

abbrev pub here : {C : Type 0} → Option C → Bool
here none = false
here (some c) = true

module _ (p : Plane) where
  open p use {Coord}

  -- The grid has just the entities of the space.
  abbrev pub InStep : Space Coord → Type 0
  InStep s = (e : ℕ) → here (spot p (find e s.aoi.entities)) ≡ elem e s.entities

  here-moves :
      (e : ℕ) (o : Option (Coord × Coord)) (eid : ℕ) (x z : Coord)
      → here (follow p e o (moves eid x z)) ≡ here o
  here-moves e none eid x z = refl
  here-moves e (some at) eid x z = ground arith

  here-adds :
      (e : ℕ) (o : Option (Coord × Coord)) (eid : ℕ) (x z view : Coord)
      → here (follow p e o (adds eid x z view)) ≡ (if eid == e then true else here o)
  here-adds e none eid x z view = ground arith
  here-adds e (some at) eid x z view = ground arith

  here-dels :
      (e : ℕ) (o : Option (Coord × Coord)) (eid : ℕ)
      → here (follow p e o (dels eid)) ≡ (if eid == e then false else here o)
  here-dels e o eid = ground arith

  pub update_position-InStep :
      (s : Space Coord) (eid : ℕ) (x z : Coord) → InStep s → InStep (update_position p s eid x z)
  unfolding update_position call
  update_position-InStep s eid x z h e =
      ap here (call-spot p s.aoi (moves eid x z) e)
      ∙ here-moves e (spot p (find e s.aoi.entities)) eid x z
      ∙ h e

  pub enter-InStep :
      (s : Space Coord) (eid : ℕ) (x z view : Coord) → InStep s → InStep (enter p s eid x z view)
  unfolding enter call update_position
  enter-InStep s eid x z view h e = elim (Bool-cases (elem eid s.entities)) [
    | inl old ↦ rw (old, enter) (h e)
    | inr new ↦
        let moved = update_entity p s.aoi eid x z in
        rw (new, enter)
          (ap here (call-spot p moved (adds eid x z view) e)
            ∙ here-adds e (spot p (find e moved.entities)) eid x z view
            ∙ ap (λ (b : Bool). if eid == e then true else b) (update_position-InStep s eid x z h e)
            ∙ sym (elem-include e eid s.entities))
  ]

  pub exit-InStep : (s : Space Coord) (eid : ℕ) → InStep s → InStep (exit p s eid)
  unfolding exit call
  exit-InStep s eid h e = elim (Bool-cases (elem eid s.entities)) [
    | inr out ↦ rw (out, exit) (h e)
    | inl old ↦
        rw (old, exit)
          (ap here (call-spot p s.aoi (dels eid) e)
            ∙ here-dels e (spot p (find e s.aoi.entities)) eid
            ∙ ap (λ (b : Bool). if eid == e then false else b) (h e)
            ∙ sym (elem-exclude e eid s.entities))
  ]

  pub login-space :
      (s : SpaceService Coord) (conn : ℕ) (name : List ℕ) → (login p s conn name).0.space ≡ s.space
  unfolding login
  login-space s conn name = ground arith

  pub join-InStep :
      (s : SpaceService Coord) (conn : ℕ) (x z view : Coord)
      → InStep s.space
      → InStep (join p s conn x z view).0.space
  unfolding join
  join-InStep s conn x z view h = elim (Option-cases (find conn s.conn_2_player)) [
    | inl out ↦ rw (out, join) h
    | inr (player, old) ↦ rw (old, join) (enter-InStep s.space player.eid x z view h)
  ]

  pub leave-InStep :
      (s : SpaceService Coord) (conn : ℕ) → InStep s.space → InStep (leave p s conn).space
  unfolding leave
  leave-InStep s conn h = elim (Option-cases (find conn s.conn_2_player)) [
    | inl out ↦ rw (out, leave) h
    | inr (player, old) ↦ rw (old, leave) (exit-InStep s.space player.eid h)
  ]
