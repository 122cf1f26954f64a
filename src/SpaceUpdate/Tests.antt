-- ===== src/SpaceUpdate/Tests.antt =====
-- A space with the player of Entity/Tests.
use archai_engine.Shared.{ℕ, ◌≡◌, refl, true, some, List, [], ◌∷◌, map, length, All, arith}
use archai_engine.Shared.Int.{ℤ}
use archai_engine.Shared.Maps.{find, elem}
use archai_engine.GridAoi.{AoiState}
use archai_engine.Entity.{Entity, find_component, class_index}
use archai_engine.Entity.Tests.{wire, hero}
use archai_engine.SpaceUpdate.{Sent, sync_entities, send_states, connection_of}
use archai_engine.SpaceUpdate.Told.{key, own_clients, told_of, resets, sync_entities_lem}
use archai_engine.SpaceUpdate.Again.{rounds, rounds-again}
use archai_engine.SpaceUpdate.Plain.{plain_states}
use archai_engine.SpaceUpdate.Cache.{messages_of, send_states-plain}

abbrev store : List (ℕ × Entity ℤ ℕ)
store = (2, hero) ∷ []

abbrev states : List AoiState
states =
    record {
      eid = 2;
      interests = 3 ∷ [];
      notifies = record { is_add = true; entities = 3 ∷ [] } ∷ [];
    }
    ∷ []

sync_entities_lem_example :
    (sent : Sent ℤ) × (dirty : List (ℕ × List ℕ)) × (sync_entities wire store
      ≡ some (resets store, sent, dirty))
    × (map key sent ≡ own_clients store)
    × (map key dirty ≡ told_of store)
sync_entities_lem_example = sync_entities_lem wire store (λ m. omega arith) (omega arith, tt)

store-hero : find 2 store ≡ some hero
unfolding find
store-hero = refl

hero-connection : connection_of hero ≡ some 10
unfolding find_component class_index
hero-connection = refl

rounds-again_example :
    (sents : List (Sent ℤ)) × (rounds wire 3 store ≡ some sents)
    × (length sents ≡ 3)
    × All (λ (sent : Sent ℤ). elem 10 (map key sent) ≡ true) sents
rounds-again_example =
    rounds-again wire 3 store 2 10 hero (λ m. omega arith) (omega arith, tt) store-hero refl
      hero-connection

send_states-plain_example :
    messages_of (send_states wire store [] [] states) ≡ plain_states wire store [] states
send_states-plain_example = send_states-plain wire store [] states
