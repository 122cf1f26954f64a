-- ===== src/Service/Tests.antt =====
-- Two connections that come and go, on the grid of GridAoi/Tests.
use archai_engine.Shared.{ℕ, ◌++◌, none, some, arith, ◌≡◌, ◌⊎◌, refl, true, List, [], ◌∷◌}
use archai_engine.Shared.Int.{ℤ, pos, ◌+ℤ◌, ◌-ℤ◌}
use archai_engine.Shared.Maps.{elem, find, put, remove, include, exclude}
use archai_engine.GridAoi.{add_entity, del_entity, update_entity, get_entities_in_circle}
use archai_engine.GridAoi.Tests.{points}
use archai_engine.SevenBit.{write_7bit_encoded_int, write_loop}
use archai_engine.Service.Dispatch.{message, parts, parts-message, parts-overrun}
use archai_engine.Service.{
  SpaceService, start, login, join, leave, same_name, find_entities_in_circle,
}
use archai_engine.Service.Live.{IsLive, LoggedIn}
use archai_engine.Service.InStep.{InStep}
use archai_engine.Service.Names.{Named, steps-Named}
use archai_engine.Service.Sessions.{
  Event, logs_in, joins, leaves, steps, steps-IsLive, find_entities_in_circle-IsLive,
}

abbrev visits : List (Event ℤ)
visits =
    logs_in 10 (65 ∷ [])
    ∷ joins 10 (pos 1) (pos 1) (pos 3)
    ∷ logs_in 11 (65 ∷ [])
    ∷ logs_in 11 (66 ∷ [])
    ∷ joins 11 (pos 2) (pos 1) (pos 3)
    ∷ leaves 10
    ∷ []

abbrev visited : SpaceService ℤ
visited = steps points (start points (pos 5) (pos 5) (pos 3) (pos 4) (pos 14)) visits

steps-IsLive_example :
    IsLive visited.space.entities visited.conn_2_player × InStep points visited.space
steps-IsLive_example = steps-IsLive points (pos 5) (pos 5) (pos 3) (pos 4) (pos 14) visits

steps-Named_example : Named points visited
steps-Named_example = steps-Named points (pos 5) (pos 5) (pos 3) (pos 4) (pos 14) visits

found-3 : elem 3 (find_entities_in_circle points visited.space (pos 2) (pos 1) (pos 2)).0 ≡ true
unfolding steps elem find find_entities_in_circle get_entities_in_circle add_entity del_entity
    update_entity put remove include exclude ◌+ℤ◌ ◌-ℤ◌ leave join login start same_name
found-3 = refl

find_entities_in_circle-IsLive_example : (◌≡◌ {A = ℕ} 3 1) ⊎ LoggedIn 3 visited.conn_2_player
find_entities_in_circle-IsLive_example =
    find_entities_in_circle-IsLive points (pos 5) (pos 5) (pos 3) (pos 4) (pos 14) visits (pos 2)
      (pos 1) (pos 2) 3 found-3

abbrev ping : List ℕ
ping = 112 ∷ 105 ∷ 110 ∷ 103 ∷ []

code-4 : write_7bit_encoded_int 4 ≡ some (4 ∷ [])
unfolding write_7bit_encoded_int write_loop
code-4 = refl

sent-ping : message ping (8 ∷ 1 ∷ []) ≡ some (4 ∷ 112 ∷ 105 ∷ 110 ∷ 103 ∷ 8 ∷ 1 ∷ [])
unfolding message write_7bit_encoded_int write_loop
sent-ping = refl

parts-message_example : parts (4 ∷ 112 ∷ 105 ∷ 110 ∷ 103 ∷ 8 ∷ 1 ∷ []) ≡ some (ping, 8 ∷ 1 ∷ [])
parts-message_example =
    parts-message ping (8 ∷ 1 ∷ []) (4 ∷ 112 ∷ 105 ∷ 110 ∷ 103 ∷ 8 ∷ 1 ∷ []) (omega arith) sent-ping

parts-overrun_example : parts ((4 ∷ []) ++ 112 ∷ 105 ∷ []) ≡ none
parts-overrun_example = parts-overrun (4 ∷ []) (112 ∷ 105 ∷ []) 4 (omega arith) code-4 (omega arith)
