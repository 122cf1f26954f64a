-- ===== src/GridAoi/Queries.antt =====
-- The grid as its owner sees it: where the entities are, and the queries by circle.
use archai_engine.Shared.{
  ℕ, ◌≡◌, refl, ap, ◌∙◌, Bool, false, Option, none, some, List, [], ◌∷◌, arith, if◌then◌else◌, ◌==◌,
  Option-cases, inl, inr,
}
use native.Mathlib.Decide.{ℕ_discrete}
use archai_engine.Shared.Maps.{find, elem, find-put, find-remove}
use archai_engine.GridAoi.{
  Plane, AoiEntity, Entities, GridAoi, init, add_entity, del_entity, update_entity,
  get_entities_in_circle,
}
use archai_engine.GridAoi.Cells.{
  Agree, init-Agree, add_entity-Agree, del_entity-Agree, update_entity-Agree,
}
use archai_engine.GridAoi.Circle.{circle-elem, inside}

-- A call of the owner.
pub data AoiCall (C : Type 0) : Type 0 where
  adds : ℕ → C → C → C → AoiCall C
  dels : ℕ → AoiCall C
  moves : ℕ → C → C → AoiCall C

module _ (p : Plane) where
  open p use {Coord, within}

  unfoldable pub call : GridAoi Coord → AoiCall Coord → GridAoi Coord
  unfolding add_entity del_entity update_entity
  call g (adds eid x y radius) = (add_entity p g eid x y radius).0
  call g (dels eid) = del_entity p g eid
  call g (moves eid x y) = update_entity p g eid x y

  unfoldable pub calls : GridAoi Coord → List (AoiCall Coord) → GridAoi Coord
  unfolding call
  calls g [] = g
  calls g (c ∷ cs) = calls (call g c) cs

  -- Where an entity is after a call, and after all, if it was at `o` before: `none` is nowhere.
  abbrev pub follow : ℕ → Option (Coord × Coord) → AoiCall Coord → Option (Coord × Coord)
  follow a none (adds eid x y radius) = if eid == a then some (x, y) else none
  follow a (some at) (adds eid x y radius) = some at
  follow a o (dels eid) = if eid == a then none else o
  follow a none (moves eid x y) = none
  follow a (some at) (moves eid x y) = if eid == a then some (x, y) else some at

  abbrev pub where_is : ℕ → Option (Coord × Coord) → List (AoiCall Coord) → Option (Coord × Coord)
  where_is a o [] = o
  where_is a o (c ∷ cs) = where_is a (follow a o c) cs

  abbrev pub spot : Option (AoiEntity Coord) → Option (Coord × Coord)
  spot none = none
  spot (some e) = some (e.x, e.y)

  -- Whether a place is within a circle.
  abbrev pub near : Coord → Coord → Coord → Option (Coord × Coord) → Bool
  near x y radius none = false
  near x y radius (some (ex, ey)) = within x y ex ey radius

  call-Agree :
      (g : GridAoi Coord) (c : AoiCall Coord)
      → Agree p g.grids g.entities
      → Agree p (call g c).grids (call g c).entities
  unfolding call
  call-Agree g (adds eid x y radius) h = add_entity-Agree p g eid x y radius h
  call-Agree g (dels eid) h = del_entity-Agree p g eid h
  call-Agree g (moves eid x y) h = update_entity-Agree p g eid x y h

  pub call-spot :
      (g : GridAoi Coord) (c : AoiCall Coord) (a : ℕ)
      → spot (find a (call g c).entities) ≡ follow a (spot (find a g.entities)) c
  unfolding call add_entity del_entity update_entity
  call-spot g (adds eid x y radius) a = elim (Option-cases (find eid g.entities)) [
    | inl fresh ↦
        rw (fresh, call, add_entity, find-put eid a _ g.entities)
          (elim (ℕ_discrete eid a) [
            | yes same ↦
                let here : find a g.entities ≡ none = rw same at fresh in rw here (ground arith)
            | no other ↦ ground arith
          ])
    | inr (e, old) ↦
        rw (old, call, add_entity)
          (elim (ℕ_discrete eid a) [
            | yes same ↦ let here : find a g.entities ≡ some e = rw same at old in rw here refl
            | no other ↦ ground arith
          ])
  ]
  call-spot g (dels eid) a = elim (Option-cases (find eid g.entities)) [
    | inl out ↦
        rw (out, call, del_entity)
          (elim (ℕ_discrete eid a) [
            | yes same ↦
                let here : find a g.entities ≡ none = rw same at out in rw here (ground arith)
            | no other ↦ ground arith
          ])
    | inr (e, old) ↦ rw (old, call, del_entity, find-remove eid a g.entities) (ground arith)
  ]
  call-spot g (moves eid x y) a = elim (Option-cases (find eid g.entities)) [
    | inl out ↦
        rw (out, call, update_entity)
          (elim (ℕ_discrete eid a) [
            | yes same ↦ let here : find a g.entities ≡ none = rw same at out in rw here refl
            | no other ↦ ground arith
          ])
    | inr (e, old) ↦
        rw (old, call, update_entity, find-put eid a _ g.entities)
          (elim (ℕ_discrete eid a) [
            | yes same ↦
                let here : find a g.entities ≡ some e = rw same at old in rw here (ground arith)
            | no other ↦ ground arith
          ])
  ]

  near-spot :
      (x y radius : Coord) (live : Entities Coord) (o : Option (AoiEntity Coord))
      → inside p x y radius live o ≡ near x y radius (spot o)
  near-spot x y radius live none = refl
  near-spot x y radius live (some e) = refl

  calls_lem :
      (g : GridAoi Coord) (cs : List (AoiCall Coord))
      → Agree p g.grids g.entities
      → Agree p (calls g cs).grids (calls g cs).entities
        × ((a : ℕ) → spot (find a (calls g cs).entities) ≡ where_is a (spot (find a g.entities)) cs)
  unfolding calls
  calls_lem g [] h = (h, (λ a. refl))
  calls_lem g (c ∷ cs) h =
      let (agree, spots) = calls_lem (call g c) cs (call-Agree g c h) in
      (
        agree,
        (λ a. spots a ∙ ap (λ (o : Option (Coord × Coord)). where_is a o cs) (call-spot g c a)),
      )

-- The owner adds, deletes and moves entities in any way, from an empty grid. Then a query by circle
-- finds an entity just when the place where the calls have put it is within the circle, and the query
-- changes nothing.
pub circle-where_is :
    (p : Plane) (cs : List (AoiCall p.Coord)) (x y radius : p.Coord) (a : ℕ)
    → (elem a (get_entities_in_circle p (calls p init cs) x y radius).0
        ≡ near p x y radius (where_is p a none cs))
      × ((get_entities_in_circle p (calls p init cs) x y radius).1 ≡ calls p init cs)
unfolding get_entities_in_circle find
circle-where_is p cs x y radius a =
    let (agree, spots) = calls_lem p init cs (init-Agree p) in
    let g = calls p init cs in
    let (kept, found) = circle-elem p x y radius g.entities g.grids agree a in
    (
      found
          ∙ near-spot p x y radius g.entities (find a g.entities)
          ∙ ap (near p x y radius) (spots a),
      ap (λ (l : Entities p.Coord). record g { entities = l }) kept,
    )
