-- ===== src/GridAoi/Cells.antt =====
-- The grids and the entities agree: an entity is in the grid of its cell, and in no other.
use archai_engine.Shared.{
  ℕ, ◌≡◌, refl, ap, ◌∙◌, Bool, true, false, ◌&&◌, Option, none, some, List, arith, if◌then◌else◌,
  ◌==◌, Bool-cases, Option-cases, inl, inr,
}
use native.Mathlib.Decide.{ℕ_discrete}
use archai_engine.Shared.Int.{ℤ, eq_ℤ}
use archai_engine.Shared.Maps.{
  find, put, remove, elem, find-put, find-remove, elem-include, elem-exclude,
}
use archai_engine.GridAoi.{
  Plane, AoiEntity, Grids, Entities, GridAoi, init, members, enter_grid, leave_grid, without,
  add_entity, del_entity, move_grid, update_entity,
}

same_cell : (i i' j j' : ℤ) → (eq_ℤ i i' && eq_ℤ j j') ≡ true → (i ≡ i') × (j ≡ j')
same_cell i i' j j' h = ground arith

members-without :
    (a eid : ℕ) (l : Option (List ℕ))
    → elem a (members (without eid l)) ≡ (if eid == a then false else elem a (members l))
unfolding elem
members-without a eid none = ground arith
members-without a eid (some l) = elem-exclude a eid l

module _ (grids : Grids) (i j i' j' : ℤ) (a eid : ℕ) where
  abbrev here : Bool
  here = eq_ℤ i i' && eq_ℤ j j'

  members-enter :
      elem a (members (enter_grid grids i j eid i' j'))
      ≡ (if here && eid == a then true else elem a (members (grids i' j')))
  members-enter = elim (Bool-cases here) [
    | inl e ↦
        let (x, y) = same_cell i i' j j' e in
        rw (e, elem-include a eid (members (grids i j)), x, y) refl
    | inr e ↦ rw e refl
  ]

  members-leave :
      elem a (members (leave_grid grids i j eid i' j'))
      ≡ (if here && eid == a then false else elem a (members (grids i' j')))
  members-leave = elim (Bool-cases here) [
    | inl e ↦
        let (x, y) = same_cell i i' j j' e in rw (e, members-without a eid (grids i j), x, y) refl
    | inr e ↦ rw e refl
  ]

module _ (p : Plane) where
  open p use {Coord, cell}

  -- Whether an entity stands in a cell.
  abbrev pub stands : Option (AoiEntity Coord) → ℤ → ℤ → Bool
  stands none i j = false
  stands (some e) i j = eq_ℤ (cell e.x) i && eq_ℤ (cell e.y) j

  abbrev pub Agree : Grids → Entities Coord → Type 0
  Agree grids entities =
      (eid : ℕ) (i j : ℤ) → elem eid (members (grids i j)) ≡ stands (find eid entities) i j

  pub init-Agree : Agree (init {C = Coord}).grids (init {C = Coord}).entities
  unfolding find elem
  init-Agree eid i j = refl

  pub add_entity-Agree :
      (g : GridAoi Coord) (eid : ℕ) (x y radius : Coord)
      → Agree g.grids g.entities
      → Agree (add_entity p g eid x y radius).0.grids (add_entity p g eid x y radius).0.entities
  unfolding add_entity
  add_entity-Agree g eid x y radius h a i j = elim (Option-cases (find eid g.entities)) [
    | inr (e, old) ↦ rw (old, add_entity) (h a i j)
    | inl fresh ↦
        rw
          (
            fresh,
            add_entity,
            members-enter g.grids (cell x) (cell y) i j a eid,
            find-put eid a _ g.entities,
          )
          (ground (arith, h a i j))
  ]

  leave_cell :
      (g : GridAoi Coord) (eid : ℕ) (e : AoiEntity Coord)
      → find eid g.entities ≡ some e
      → Agree g.grids g.entities
      → Agree (leave_grid g.grids (cell e.x) (cell e.y) eid) (remove eid g.entities)
  leave_cell g eid e old h a i j =
      rw (members-leave g.grids (cell e.x) (cell e.y) i j a eid, find-remove eid a g.entities)
        (elim (ℕ_discrete eid a) [
          | yes same ↦ let h' = h eid i j in rw (← same) (ground arith)
          | no other ↦ ground (arith, h a i j)
        ])

  pub del_entity-Agree :
      (g : GridAoi Coord) (eid : ℕ)
      → Agree g.grids g.entities
      → Agree (del_entity p g eid).grids (del_entity p g eid).entities
  unfolding del_entity
  del_entity-Agree g eid h a i j = elim (Option-cases (find eid g.entities)) [
    | inl out ↦ rw (out, del_entity) (h a i j)
    | inr (e, old) ↦ rw (old, del_entity) (leave_cell g eid e old h a i j)
  ]

  move_cell :
      (g : GridAoi Coord) (eid : ℕ) (x y : Coord) (e : AoiEntity Coord)
      → find eid g.entities ≡ some e
      → Agree g.grids g.entities
      → Agree
          (move_grid g.grids (cell e.x, cell e.y) (cell x, cell y) eid)
          (put eid (record e { x = x; y = y }) g.entities)
  unfolding move_grid
  move_cell g eid x y e old h a i j =
      let new = enter_grid g.grids (cell x) (cell y) eid in
      let was : elem eid (members (g.grids i j)) ≡ (eq_ℤ (cell e.x) i && eq_ℤ (cell e.y) j) =
        h eid i j ∙ ap (λ (o : Option (AoiEntity Coord)). stands o i j) old in
      let entered = members-enter g.grids (cell x) (cell y) i j a eid in
      elim (Bool-cases (eq_ℤ (cell e.x) (cell x) && eq_ℤ (cell e.y) (cell y))) [
        | inl stays ↦
            let (sx, sy) = same_cell (cell e.x) (cell x) (cell e.y) (cell y) stays in
            rw (move_grid, stays, find-put eid a (record e { x = x; y = y }) g.entities)
              (elim (ℕ_discrete eid a) [
                | yes same ↦ rw (← same) (ground arith)
                | no other ↦ ground (arith, h a i j)
              ])
        | inr moves ↦
            rw
              (
                move_grid,
                moves,
                find-put eid a (record e { x = x; y = y }) g.entities,
                members-leave new (cell e.x) (cell e.y) i j a eid,
                entered,
              )
              (elim (ℕ_discrete eid a) [
                | yes same ↦ rw (← same) (ground arith)
                | no other ↦ ground (arith, h a i j)
              ])
      ]

  pub update_entity-Agree :
      (g : GridAoi Coord) (eid : ℕ) (x y : Coord)
      → Agree g.grids g.entities
      → Agree (update_entity p g eid x y).grids (update_entity p g eid x y).entities
  unfolding update_entity
  update_entity-Agree g eid x y h a i j = elim (Option-cases (find eid g.entities)) [
    | inl out ↦ rw (out, update_entity) (h a i j)
    | inr (e, old) ↦ rw (old, update_entity) (move_cell g eid x y e old h a i j)
  ]
