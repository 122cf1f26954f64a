-- ===== src/Service.antt =====
-- space_service.cpp and the space that it keeps, space.cpp: logging in and out, and joining and leaving
-- the space. A connection is a number; what the replies carry beside the result and the id is left out.
-- The coordinates where an entity comes in, which random_01 gives, are arguments.
pub mod Live
pub mod InStep
pub mod Sessions
pub mod Names
pub mod Dispatch
mod Tests
use archai_engine.Shared.{
  ℕ, ◌+◌, Bool, true, false, ◌&&◌, ◌||◌, Option, none, some, List, [], ◌∷◌, ◌==◌, if◌then◌else◌,
}
use archai_engine.Shared.Maps.{find, put, remove, elem, include, exclude}
use archai_engine.GridAoi.{
  Plane, GridAoi, init, add_entity, del_entity, update_entity, get_entities_in_circle,
}

pub record Player : Type 0 where
  pub eid : ℕ
  pub name : List ℕ

-- `entities` has the keys of _eid_2_entity.
pub record Space (C : Type 0) : Type 0 where
  pub entities : List ℕ
  pub aoi : GridAoi C

pub record SpaceService (C : Type 0) : Type 0 where
  pub space : Space C
  pub conn_2_player : List (ℕ × Player)
  pub exists_names : List (List ℕ)
  pub next_eid : ℕ

pub data Reply : Type 0 where
  login_reply : ℕ → Option ℕ → Reply
  join_reply : Reply
  sync_full_info : ℕ → Reply

abbrev already_logined : ℕ
already_logined = 1

abbrev name_exists : ℕ
name_exists = 2

-- Equality of strings, and std::set of them.
unfoldable pub same_name : List ℕ → List ℕ → Bool
same_name [] [] = true
same_name [] (b ∷ m) = false
same_name (a ∷ l) [] = false
same_name (a ∷ l) (b ∷ m) = a == b && same_name l m

pub contains : List ℕ → List (List ℕ) → Bool
contains name [] = false
contains name (n ∷ names) = same_name n name || contains name names

pub erase_name : List ℕ → List (List ℕ) → List (List ℕ)
erase_name name [] = []
erase_name name (n ∷ names) =
    let rest = erase_name name names in if same_name n name then rest else n ∷ rest

-- Those of the ids that have an entity.
pub present : List ℕ → List ℕ → List ℕ
present entities [] = []
present entities (eid ∷ eids) =
    let rest = present entities eids in if elem eid entities then eid ∷ rest else rest

module _ (p : Plane) where
  open p use {Coord}

  -- set_position calls this of an entity that is in a space.
  unfoldable pub update_position : Space Coord → ℕ → Coord → Coord → Space Coord
  update_position s eid x z = record s { aoi = update_entity p s.aoi eid x z }

  -- Space::join; `view` is default_view_raidus.
  pub enter : Space Coord → ℕ → Coord → Coord → Coord → Space Coord
  unfolding update_position
  enter s eid x z view =
      let moved = update_position s eid x z in
      if elem eid s.entities then s else record {
        entities = include eid s.entities;
        aoi = (add_entity p moved.aoi eid x z view).0;
      }

  -- Space::leave
  pub exit : Space Coord → ℕ → Space Coord
  exit s eid =
      if elem eid s.entities
      then record { entities = exclude eid s.entities; aoi = del_entity p s.aoi eid }
      else s

  pub find_entities_in_circle : Space Coord → Coord → Coord → Coord → List ℕ × Space Coord
  unfolding present
  find_entities_in_circle s cx cy r =
      let (eids, aoi) = get_entities_in_circle p s.aoi cx cy r in
      (present s.entities eids, record s { aoi = aoi })

  -- SpaceService::start, where Space::Space joins a monster, the first entity, and moves it to its place.
  unfoldable pub start : Coord → Coord → Coord → Coord → Coord → SpaceService Coord
  unfolding enter update_position
  start x z view x' z' = record {
    space = update_position (enter (record { entities = []; aoi = init }) 1 x z view) 1 x' z';
    conn_2_player = [];
    exists_names = [];
    next_eid = 2;
  }

  abbrev pub find_player : SpaceService Coord → ℕ → Option Player
  find_player s conn = find conn s.conn_2_player

  unfoldable pub login : SpaceService Coord → ℕ → List ℕ → SpaceService Coord × List Reply
  unfolding contains
  login s conn username = elim (find_player s conn) [
    | some player ↦ (s, login_reply already_logined none ∷ [])
    | none ↦ if contains username s.exists_names then (s, login_reply name_exists none ∷ []) else (
      record s {
        conn_2_player = put conn (record { eid = s.next_eid; name = username }) s.conn_2_player;
        exists_names = username ∷ s.exists_names;
        next_eid = s.next_eid + 1;
      },
      login_reply 0 (some s.next_eid) ∷ [],
    )
  ]

  unfoldable pub join :
      SpaceService Coord → ℕ → Coord → Coord → Coord → SpaceService Coord × List Reply
  unfolding enter
  join s conn x z view = elim (find_player s conn) [
    | none ↦ (s, [])
    | some player ↦ (
      record s { space = enter s.space player.eid x z view },
      join_reply ∷ sync_full_info player.eid ∷ [],
    )
  ]

  -- leave, which on_lost_connection calls too
  pub leave : SpaceService Coord → ℕ → SpaceService Coord
  unfolding exit erase_name
  leave s conn = elim (find_player s conn) [
    | none ↦ s
    | some player ↦ record s {
      space = exit s.space player.eid;
      conn_2_player = remove conn s.conn_2_player;
      exists_names = erase_name player.name s.exists_names;
    }
  ]
