-- ===== src/GridAoi.antt =====
-- aoi.h, grid_aoi.h and grid_aoi.cpp: who sees whom, by a grid of cells. Coordinates are a parameter. An
-- unordered_set is a list, and the map of entities a list of pairs; what is shown does not depend on
-- their order. `run` is one round of its loop: the copies that it takes, the update of them and the
-- hand-over are three steps, since other threads may call between them.
pub mod Cells
pub mod Circle
pub mod Queries
pub mod Tests
use archai_engine.Shared.{
  ◌≡◌, ℕ, zero, suc, ◌+◌, Bool, true, false, not, ◌&&◌, Option, none, some, List, [], ◌∷◌, ◌++◌,
  map, if◌then◌else◌, ◌==◌,
}
use archai_engine.Shared.Int.{ℤ, pos, ◌+ℤ◌, ◌-ℤ◌, ◌≤ℤ◌, pos_part, eq_ℤ}
use archai_engine.Shared.Maps.{find, put, remove, elem, include, exclude}

-- float, as far as the code uses it. `cell` is `static_cast<int>(x / _grid_size)`, `within x y ex ey r`
-- is `std::hypot(x - ex, y - ey) < r`, and `over` is `>`. The laws: a point that is within a circle lies
-- in the square about it, and division and conversion keep the order.
pub record Plane : Type 1 where
  pub Coord : Type 0
  pub origin : Coord
  pub plus : Coord → Coord → Coord
  pub minus : Coord → Coord → Coord
  pub cell : Coord → ℤ
  pub within : Coord → Coord → Coord → Coord → Coord → Bool
  pub over : Coord → Coord → Bool
  pub max_view_radius : Coord
  pub within_x :
      (x y ex ey r : Coord)
      → within x y ex ey r ≡ true
      → (cell (minus x r) ≤ℤ cell ex) × (cell ex ≤ℤ cell (plus x r))
  pub within_y :
      (x y ex ey r : Coord)
      → within x y ex ey r ≡ true
      → (cell (minus y r) ≤ℤ cell ey) × (cell ey ≤ℤ cell (plus y r))

pub record TriggerNotify : Type 0 where
  pub is_add : Bool
  pub entities : List ℕ

pub record AoiEntity (C : Type 0) : Type 0 where
  pub eid : ℕ
  pub x : C
  pub y : C
  pub radius : C
  pub interests : List ℕ
  pub observers : List ℕ
  pub notifies : List TriggerNotify

pub record AoiState : Type 0 where
  pub eid : ℕ
  pub interests : List ℕ
  pub notifies : List TriggerNotify

abbrev pub Grids : Type 0
Grids = ℤ → ℤ → Option (List ℕ)

abbrev pub Entities : Type 0 → Type 0
Entities C = List (ℕ × AoiEntity C)

pub record GridAoi (C : Type 0) : Type 0 where
  pub grids : Grids
  pub entities : Entities C

abbrev pub init : {C : Type 0} → GridAoi C
init = record { grids = λ i j. none; entities = [] }

abbrev pub members : Option (List ℕ) → List ℕ
members none = []
members (some l) = l

abbrev pub set_grid : Grids → ℤ → ℤ → Option (List ℕ) → Grids
set_grid grids i j l i' j' = if eq_ℤ i i' && eq_ℤ j j' then l else grids i' j'

-- `find`, and `insert` of an empty grid where there is none; then `insert(eid)`.
abbrev pub enter_grid : Grids → ℤ → ℤ → ℕ → Grids
enter_grid grids i j eid = set_grid grids i j (some (include eid (members (grids i j))))

-- `erase(eid)` where there is a grid.
abbrev pub without : ℕ → Option (List ℕ) → Option (List ℕ)
without eid none = none
without eid (some l) = some (exclude eid l)

abbrev pub leave_grid : Grids → ℤ → ℤ → ℕ → Grids
leave_grid grids i j eid = set_grid grids i j (without eid (grids i j))

-- `for (int i = lo; i <= hi; i++)`, as the list of the values of `i`.
pub upwards : ℤ → ℕ → List ℤ
upwards i zero = []
upwards i (suc n) = i ∷ upwards (i +ℤ pos 1) n

pub range : ℤ → ℤ → List ℤ
unfolding upwards
range lo hi = upwards lo (pos_part (hi +ℤ pos 1 -ℤ lo))

-- The elements of the second set that are not in the first, and the other way round.
pub calc_set_add : List ℕ → List ℕ → List ℕ
calc_set_add a [] = []
calc_set_add a (b ∷ l) = let rest = calc_set_add a l in if elem b a then rest else b ∷ rest

pub calc_set_del : List ℕ → List ℕ → List ℕ
unfolding calc_set_add
calc_set_del a b = calc_set_add b a

-- `for grid_x ... for grid_y ...`
pub cells_of : List ℤ → List ℤ → List (ℤ × ℤ)
cells_of [] js = []
cells_of (i ∷ is) js = map (λ j. (i, j)) js ++ cells_of is js

abbrev pub to_set : List ℕ → List ℕ
to_set [] = []
to_set (a ∷ l) = include a (to_set l)

-- A notify of the entities, if there are any.
abbrev pub notify : Bool → List ℕ → List TriggerNotify
notify is_add [] = []
notify is_add (a ∷ l) = record { is_add = is_add; entities = a ∷ l } ∷ []

-- The grids when an entity moves from one cell to another.
pub move_grid : Grids → ℤ × ℤ → ℤ × ℤ → ℕ → Grids
move_grid grids (i, j) (i', j') eid =
    if eq_ℤ i i' && eq_ℤ j j' then grids else leave_grid (enter_grid grids i' j' eid) i j eid

module _ (p : Plane) where
  open p use {Coord, origin, plus, minus, cell, within, over, max_view_radius}

  abbrev pub blank : AoiEntity Coord
  blank = record {
    eid = 0;
    x = origin;
    y = origin;
    radius = origin;
    interests = [];
    observers = [];
    notifies = [];
  }

  -- `_entities[eid]`, which inserts an entity where there is none.
  abbrev pub or_blank :
      Entities Coord → ℕ → Option (AoiEntity Coord) → AoiEntity Coord × Entities Coord
  or_blank entities eid none = (blank, put eid blank entities)
  or_blank entities eid (some e) = (e, entities)

  abbrev pub at : Entities Coord → ℕ → AoiEntity Coord × Entities Coord
  at entities eid = or_blank entities eid (find eid entities)

  -- The result is 0 or -1.
  unfoldable pub add_entity : GridAoi Coord → ℕ → Coord → Coord → Coord → GridAoi Coord × Bool
  add_entity g eid x y radius = elim (find eid g.entities) [
    | some e ↦ (g, false)
    | none ↦
        let radius' = if over radius max_view_radius then max_view_radius else radius in
        (
          record {
            grids = enter_grid g.grids (cell x) (cell y) eid;
            entities =
                put eid (record blank { eid = eid; x = x; y = y; radius = radius' }) g.entities;
          },
          true,
        )
  ]

  unfoldable pub del_entity : GridAoi Coord → ℕ → GridAoi Coord
  del_entity g eid = elim (find eid g.entities) [
    | none ↦ g
    | some e ↦ record {
      grids = leave_grid g.grids (cell e.x) (cell e.y) eid;
      entities = remove eid g.entities;
    }
  ]

  unfoldable pub update_entity : GridAoi Coord → ℕ → Coord → Coord → GridAoi Coord
  unfolding move_grid
  update_entity g eid x y = elim (find eid g.entities) [
    | none ↦ g
    | some e ↦ record {
      grids = move_grid g.grids (cell e.x, cell e.y) (cell x, cell y) eid;
      entities = put eid (record e { x = x; y = y }) g.entities;
    }
  ]

  -- The entities of one grid that are within the circle; `live` is `_entities`.
  pub in_grid : Coord → Coord → Coord → List ℕ → Entities Coord → List ℕ × Entities Coord
  in_grid x y radius [] live = ([], live)
  in_grid x y radius (eid ∷ l) live =
      let (e, live') = at live eid in
      let (found, live'') = in_grid x y radius l live' in
      (if within x y e.x e.y radius then eid ∷ found else found, live'')

  pub in_grids :
      Coord → Coord → Coord → Grids → List (ℤ × ℤ) → Entities Coord → List ℕ × Entities Coord
  unfolding in_grid
  in_grids x y radius grids [] live = ([], live)
  in_grids x y radius grids ((i, j) ∷ cells) live =
      let (found, live') = in_grid x y radius (members (grids i j)) live in
      let (more, live'') = in_grids x y radius grids cells live' in (found ++ more, live'')

  -- `_get_entities_in_circle`
  pub circle : Coord → Coord → Coord → Grids → Entities Coord → List ℕ × Entities Coord
  unfolding in_grids cells_of range
  circle x y radius grids live =
      in_grids x y radius grids
        (cells_of (range (cell (minus x radius)) (cell (plus x radius)))
          (range (cell (minus y radius)) (cell (plus y radius))))
        live

  unfoldable pub get_entities_in_circle :
      GridAoi Coord → Coord → Coord → Coord → List ℕ × GridAoi Coord
  unfolding circle
  get_entities_in_circle g x y radius =
      let (found, live) = circle x y radius g.grids g.entities in
      (found, record g { entities = live })

  pub get_interests : GridAoi Coord → ℕ → List ℕ
  get_interests g eid = elim (find eid g.entities) [ none ↦ [] | some e ↦ e.interests ]

  pub get_observers : GridAoi Coord → ℕ → List ℕ
  get_observers g eid = elim (find eid g.entities) [ none ↦ [] | some e ↦ e.observers ]

  -- The states, and the entities with their notifies taken.
  pub fetch_all : Entities Coord → List AoiState × Entities Coord
  fetch_all [] = ([], [])
  fetch_all ((k, e) ∷ entities) =
      let (states, rest) = fetch_all entities in
      (
        record { eid = e.eid; interests = e.interests; notifies = e.notifies } ∷ states,
        (k, record e { notifies = [] }) ∷ rest,
      )

  pub fetch_state : GridAoi Coord → List AoiState × GridAoi Coord
  unfolding fetch_all
  fetch_state g =
      let (states, entities) = fetch_all g.entities in (states, record g { entities = entities })

  -- `other_entity.observers.insert(eid)` for all of `interests_add`
  pub register : ℕ → List ℕ → Entities Coord → Entities Coord
  register eid [] entities = entities
  register eid (other ∷ l) entities =
      let (e, entities') = at entities other in
      register eid l (put other (record e { observers = include eid e.observers }) entities')

  -- `other_entity.observers.erase(eid)` for those of `interests_del` that are there
  pub unregister_one : ℕ → ℕ → Entities Coord → Entities Coord
  unregister_one eid other entities = elim (find other entities) [
    | none ↦ entities
    | some e ↦ put other (record e { observers = exclude eid e.observers }) entities
  ]

  pub unregister : ℕ → List ℕ → Entities Coord → Entities Coord
  unfolding unregister_one
  unregister eid [] entities = entities
  unregister eid (other ∷ l) entities = unregister eid l (unregister_one eid other entities)

  -- `entity.interests.swap(new_interests)`, and the notifies added before it.
  pub renew : ℕ → List ℕ → List TriggerNotify → Entities Coord → Entities Coord
  renew eid interests notifies entities = elim (find eid entities) [
    | none ↦ entities
    | some e ↦
        put eid (record e { interests = interests; notifies = e.notifies ++ notifies }) entities
  ]

  -- One round of the loop of update, for an entity that has the value `e` at its start.
  pub refresh :
      Grids
      → ℕ
      → AoiEntity Coord
      → Entities Coord
      → Entities Coord
      → Entities Coord × Entities Coord
  unfolding circle register unregister renew calc_set_add calc_set_del
  refresh grids eid e entities live =
      let (found, live') = circle e.x e.y e.radius grids live in
      let new_interests = exclude eid (to_set found) in
      let interests_add = calc_set_add e.interests new_interests in
      let interests_del = calc_set_del e.interests new_interests in
      (
        renew eid new_interests (notify true interests_add ++ notify false interests_del)
            (unregister eid interests_del (register eid interests_add entities)),
        live',
      )

  -- `none` for an entity that is not there, which the loop does not come to.
  pub visit :
      Grids
      → ℕ
      → Option (AoiEntity Coord)
      → Entities Coord
      → Entities Coord
      → Entities Coord × Entities Coord
  unfolding refresh
  visit grids eid none entities live = (entities, live)
  visit grids eid (some e) entities live = refresh grids eid e entities live

  pub update_all :
      Grids → List ℕ → Entities Coord → Entities Coord → Entities Coord × Entities Coord
  unfolding visit
  update_all grids [] entities live = (entities, live)
  update_all grids (eid ∷ l) entities live =
      let (entities', live') = visit grids eid (find eid entities) entities live in
      update_all grids l entities' live'

  -- `update`, on the copies, while `_entities` is `live`: its circle reads there.
  pub update : Grids → Entities Coord → Entities Coord → Entities Coord × Entities Coord
  unfolding update_all
  update grids entities live = update_all grids (map (λ (k, e). k) entities) entities live

  -- The hand-over of `run`: what the copies know is put where `_entities` still has the entity.
  pub publish : Entities Coord → GridAoi Coord → GridAoi Coord
  publish [] g = g
  publish ((eid, e) ∷ entities) g = publish entities (elim (find eid g.entities) [
    | none ↦ g
    | some live ↦ record g {
      entities =
          put eid
            (record live {
              interests = e.interests;
              observers = e.observers;
              notifies = e.notifies;
            })
            g.entities;
    }
  ])
