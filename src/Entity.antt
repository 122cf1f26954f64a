-- ===== src/Entity.antt =====
-- entity.h and entity.cpp, and the entities of player.cpp and monster.cpp: an entity, its components by name, and
-- what is written of them to a stream. The components are a list in the order in which the unordered_map
-- is gone through. `none` is a failed assert or a StreamException.
pub mod Flags
pub mod Components
pub mod Tests
use archai_engine.Shared.{
  ℕ, ◌≡◌, Bool, true, false, ◌||◌, bit_and, bit_or, Option, none, some, List, [], ◌∷◌, ◌==◌,
  if◌then◌else◌,
}
use archai_engine.Shared.Options.{◌>>=◌}
use archai_engine.Shared.Int.{ℤ}
use archai_engine.BitStream.{OutputBitStream, InputBitStream, write_number, write_string}
use archai_engine.AttrSet.{write_int}
use archai_engine.Movement.{MovementComponent, Movement, net_serialize, net_delta_serialize}
use archai_engine.Combat.{SkillInfo, CombatComponent}
use archai_engine.Combat.Sync.{combat_net_serialize, combat_net_delta_serialize, combat_reset_dirty}

-- The classes of components, by COMPONENT_NAME.
pub data ComponentName : Type 0 where
  movement_component : ComponentName
  space_component : ComponentName
  combat_component : ComponentName
  connection_component : ComponentName
  navigation_component : ComponentName

abbrev pub name_bytes : ComponentName → List ℕ
name_bytes movement_component =
    77 ∷ 111 ∷ 118 ∷ 101 ∷ 109 ∷ 101 ∷ 110 ∷ 116 ∷ 67 ∷ 111 ∷ 109 ∷ 112 ∷ 111 ∷ 110 ∷ 101 ∷ 110
    ∷ 116 ∷ []
name_bytes space_component =
    83 ∷ 112 ∷ 97 ∷ 99 ∷ 101 ∷ 67 ∷ 111 ∷ 109 ∷ 112 ∷ 111 ∷ 110 ∷ 101 ∷ 110 ∷ 116 ∷ []
name_bytes combat_component =
    67 ∷ 111 ∷ 109 ∷ 98 ∷ 97 ∷ 116 ∷ 67 ∷ 111 ∷ 109 ∷ 112 ∷ 111 ∷ 110 ∷ 101 ∷ 110 ∷ 116 ∷ []
name_bytes connection_component =
    67 ∷ 111 ∷ 110 ∷ 110 ∷ 101 ∷ 99 ∷ 116 ∷ 105 ∷ 111 ∷ 110 ∷ 67 ∷ 111 ∷ 109 ∷ 112 ∷ 111 ∷ 110 ∷ 101
    ∷ 110 ∷ 116 ∷ []
name_bytes navigation_component =
    78 ∷ 97 ∷ 118 ∷ 105 ∷ 103 ∷ 97 ∷ 116 ∷ 105 ∷ 111 ∷ 110 ∷ 67 ∷ 111 ∷ 109 ∷ 112 ∷ 111 ∷ 110 ∷ 101
    ∷ 110 ∷ 116 ∷ []

unfoldable pub class_index : ComponentName → ℕ
class_index movement_component = 0
class_index space_component = 1
class_index combat_component = 2
class_index connection_component = 3
class_index navigation_component = 4

-- A component of each class: whether it is in a space, and its connection, are all that SpaceComponent and
-- ConnectionComponent keep. NavigationComponent is in Navigation.antt.
pub data Component (C F : Type 0) : Type 0 where
  as_movement : MovementComponent C → Component C F
  as_space : Bool → Component C F
  as_combat : CombatComponent F → Component C F
  as_connection : ℕ → Component C F
  as_navigation : Component C F

pub data Kind : Type 0 where
  a_player : List ℕ → Kind
  a_monster : ℤ → Kind

pub record Entity (C F : Type 0) : Type 0 where
  pub eid : ℕ
  pub dirty_flag : ℕ
  pub kind : Kind
  pub components : List (ComponentName × Component C F)

module _ {C F : Type 0} where
  -- `_components.find(name)`, for the names of the classes.
  unfoldable pub find_component :
      ComponentName → List (ComponentName × Component C F) → Option (Component C F)
  find_component name [] = none
  find_component name ((n, c) ∷ l) =
      if class_index n == class_index name then some c else find_component name l

  pub erase_component :
      ComponentName → List (ComponentName × Component C F) → List (ComponentName × Component C F)
  erase_component name [] = []
  erase_component name ((n, c) ∷ l) =
      let rest = erase_component name l in
      if class_index n == class_index name then rest else (n, c) ∷ rest

  -- The new component, which `new T` and init give.
  pub add_component : Entity C F → ComponentName → Component C F → Option (Entity C F)
  unfolding find_component
  add_component e name comp = elim (find_component name e.components) [
    | none ↦ some (record e { components = (name, comp) ∷ e.components })
    | some c ↦ none
  ]

  pub remove_component : Entity C F → ComponentName → Entity C F
  unfolding find_component erase_component
  remove_component e name = elim (find_component name e.components) [
    | none ↦ e
    | some c ↦ record e { components = erase_component name e.components }
  ]

  abbrev pub get_component : Entity C F → ComponentName → Option (Component C F)
  get_component e name = find_component name e.components

  abbrev pub has_component : Entity C F → ComponentName → Bool
  has_component e name = elim (find_component name e.components) [ none ↦ false | some c ↦ true ]

  -- Player::set_name, of STR_PROPERTY
  pub set_name : Entity C F → List ℕ → Entity C F
  set_name e val = record e { kind = a_player val; dirty_flag = bit_or e.dirty_flag 1 }

  -- Entity::reset_dirty, which neither Player nor Monster overrides.
  abbrev pub reset_dirty : Entity C F → Entity C F
  reset_dirty e = record e { dirty_flag = 0 }

module _ (memory : ℕ → ℕ) where
  -- Player::net_serialize and Monster::net_serialize
  pub kind_net_serialize : Kind → OutputBitStream → Option OutputBitStream
  kind_net_serialize (a_player name) bs = write_string memory bs name
  kind_net_serialize (a_monster character_id) bs = some (write_int memory bs character_id)

  -- Player::net_delta_serialize and Monster::net_delta_serialize; their result is not used.
  unfoldable pub kind_net_delta_serialize : Kind → ℕ → OutputBitStream → Option OutputBitStream
  kind_net_delta_serialize (a_player name) dirty_flag bs =
      let flagged = write_number memory 4 bs dirty_flag in
      if bit_and dirty_flag 1 == 0 then some flagged else write_string memory flagged name
  kind_net_delta_serialize (a_monster character_id) dirty_flag bs = some bs

-- What `realloc` leaves in new memory, protobuf's SerializeToString, and what the class of arrays takes of SkillInfo.
pub record Wire (C : Type 0) : Type 0 where
  pub memory : ℕ → ℕ
  pub serialize : Movement C → List ℕ
  pub get : InputBitStream → Option (SkillInfo × InputBitStream)
  pub fresh : SkillInfo

module _ {C F : Type 0} (w : Wire C) where
  open w use {memory, serialize, get, fresh}

  pub component_net_serialize : Component C F → OutputBitStream → Bool → Option OutputBitStream
  component_net_serialize (as_movement m) bs to_self = net_serialize memory serialize m bs to_self
  component_net_serialize (as_space s) bs to_self = some bs
  component_net_serialize (as_combat c) bs to_self =
      combat_net_serialize memory get fresh c bs to_self
  component_net_serialize (as_connection conn) bs to_self = some bs
  component_net_serialize as_navigation bs to_self = some bs

  pub component_net_delta_serialize :
      Component C F → OutputBitStream → Bool → Option (OutputBitStream × Bool)
  component_net_delta_serialize (as_movement m) bs to_self =
      net_delta_serialize memory serialize m bs to_self
  component_net_delta_serialize (as_space s) bs to_self = some (bs, false)
  component_net_delta_serialize (as_combat c) bs to_self =
      some (combat_net_delta_serialize memory get fresh c bs to_self)
  component_net_delta_serialize (as_connection conn) bs to_self = some (bs, false)
  component_net_delta_serialize as_navigation bs to_self = some (bs, false)

  -- The _dirty_flag of an IComponent is set nowhere; only the fields of CombatComponent are reset.
  pub component_reset_dirty : Component C F → Component C F
  component_reset_dirty (as_movement m) = as_movement m
  component_reset_dirty (as_space s) = as_space s
  component_reset_dirty (as_combat c) = as_combat (combat_reset_dirty memory get fresh c)
  component_reset_dirty (as_connection conn) = as_connection conn
  component_reset_dirty as_navigation = as_navigation

  pub write_components :
      List (ComponentName × Component C F) → OutputBitStream → Bool → Option OutputBitStream
  unfolding component_net_serialize
  write_components [] bs to_self = some bs
  write_components ((name, comp) ∷ l) bs to_self = do
    named ← write_string memory bs (name_bytes name)
    written ← component_net_serialize comp named to_self
    write_components l written to_self

  pub entity_net_serialize : Entity C F → OutputBitStream → Bool → Option OutputBitStream
  unfolding kind_net_serialize write_components
  entity_net_serialize e bs to_self = do
    typed ← kind_net_serialize memory e.kind (write_number memory 4 bs e.eid)
    write_components e.components typed to_self

  -- `dirty |= ...` for each component
  pub write_deltas :
      List (ComponentName × Component C F)
      → OutputBitStream
      → Bool
      → Bool
      → Option (OutputBitStream × Bool)
  unfolding component_net_delta_serialize
  write_deltas [] bs to_self dirty = some (bs, dirty)
  write_deltas ((name, comp) ∷ l) bs to_self dirty = do
    named ← write_string memory bs (name_bytes name)
    (written, d) ← component_net_delta_serialize comp named to_self
    write_deltas l written to_self (dirty || d)

  pub entity_net_delta_serialize :
      Entity C F → OutputBitStream → Bool → Option (OutputBitStream × Bool)
  unfolding kind_net_delta_serialize write_deltas
  entity_net_delta_serialize e bs to_self =
      let flagged = write_number memory 4 bs e.dirty_flag in
      let clean = write_deltas e.components flagged to_self false in
      let changed = (do
        bs' ← kind_net_delta_serialize memory e.kind e.dirty_flag flagged
        write_deltas e.components bs' to_self true) in
      if e.dirty_flag == 0 then clean else changed

  abbrev pub reset_components :
      List (ComponentName × Component C F) → List (ComponentName × Component C F)
  reset_components [] = []
  reset_components ((name, comp) ∷ l) = (name, component_reset_dirty comp) ∷ reset_components l

  abbrev pub entity_reset_dirty : Entity C F → Entity C F
  entity_reset_dirty e = record (reset_dirty e) { components = reset_components e.components }
