-- ===== src/SpaceUpdate/Told.antt =====
-- The first loop of Space::update: whose own client is sent a delta, and of whom there are bytes for
-- others. Of an entity with a MovementComponent there always are, whether it moved or not.
use archai_engine.Shared.{
  ℕ, ◌≡◌, refl, ap, ◌∙◌, Bool, true, false, Option, none, some, List, [], ◌∷◌, ◌++◌, map,
  if◌then◌else◌, All,
}
use archai_engine.BitStream.{empty, seekp}
use archai_engine.BitStream.Growth.{contents}
use archai_engine.Entity.{Entity, Wire, reset_dirty}
use archai_engine.Entity.Flags.{has_delta, Named, Fits, entity_net_delta_serialize_lem}
use archai_engine.SpaceUpdate.{
  Sent, Message, sync_delta_info, to_client, connection_of, sync_entity, sync_entities,
}

abbrev pub key : {V : Type 0} → ℕ × V → ℕ
key (k, v) = k

map-append : {V : Type 0} (l m : List (ℕ × V)) → map key (l ++ m) ≡ map key l ++ map key m
map-append [] m = refl
map-append (a ∷ l) m = ap (λ (x : List ℕ). key a ∷ x) (map-append l m)

abbrev pub clients : Option ℕ → List ℕ
clients none = []
clients (some conn) = conn ∷ []

to_client-key :
    {C : Type 0} (o : Option ℕ) (msg : Message C) → map key (to_client o msg) ≡ clients o
to_client-key none msg = refl
to_client-key (some conn) msg = refl

map-if :
    {V : Type 0} (b : Bool) (l : List (ℕ × V))
    → map key (if b then l else []) ≡ (if b then map key l else [])
map-if true l = refl
map-if false l = refl

module _ {C F : Type 0} where
  abbrev pub AllNamed : List (ℕ × Entity C F) → Type 0
  AllNamed store = All (λ ((eid, e) : ℕ × Entity C F). Named e.kind) store

  abbrev pub own_client : Entity C F → List ℕ
  own_client e = if has_delta e true then clients (connection_of e) else []

  -- The connections of the entities with a delta for their own clients, and the entities with one for the others.
  abbrev pub own_clients : List (ℕ × Entity C F) → List ℕ
  own_clients [] = []
  own_clients ((eid, e) ∷ store) = own_client e ++ own_clients store

  abbrev pub told_of : List (ℕ × Entity C F) → List ℕ
  told_of [] = []
  told_of ((eid, e) ∷ store) = (if has_delta e false then eid ∷ [] else []) ++ told_of store

  abbrev pub resets : List (ℕ × Entity C F) → List (ℕ × Entity C F)
  resets [] = []
  resets ((eid, e) ∷ store) = (eid, reset_dirty e) ∷ resets store

module _ {C F : Type 0} (w : Wire C) where
  sync_entity_lem :
      (eid : ℕ) (e : Entity C F)
      → Fits w
      → Named e.kind
      → (sent : Sent C) × (dirty : List (ℕ × List ℕ)) × (sync_entity w eid e
          ≡ some (reset_dirty e, sent, dirty))
        × (map key sent ≡ own_client e)
        × (map key dirty ≡ (if has_delta e false then eid ∷ [] else []))
  unfolding sync_entity
  sync_entity_lem eid e fits named =
      let (bs, own) = entity_net_delta_serialize_lem w e empty true fits named in
      let (bs', others) = entity_net_delta_serialize_lem w e (seekp bs 0) false fits named in
      (
        if has_delta e true
            then to_client (connection_of e) (sync_delta_info eid (contents bs))
            else [],
        if has_delta e false then (eid, contents bs') ∷ [] else [],
        rw (own, others) refl,
        map-if (has_delta e true) (to_client (connection_of e) (sync_delta_info eid (contents bs)))
            ∙ ap (λ (l : List ℕ). if has_delta e true then l else [])
                (to_client-key (connection_of e) (sync_delta_info eid (contents bs))),
        map-if (has_delta e false) ((eid, contents bs') ∷ []),
      )

  -- When the names of players and protobuf's bytes of movements are shorter than 65536, the loop returns. It sends to
  -- the clients of exactly those entities that have a connection and has_delta for their own client, that is, a flag of the
  -- entity or of its AttrSet, or a change in the log of its skills, in the order of the loop. It keeps bytes for others of
  -- exactly those that have has_delta for others, that is, such a flag or a MovementComponent, moved or not. And only the
  -- entities' own flags are reset.
  pub sync_entities_lem :
      (store : List (ℕ × Entity C F))
      → Fits w
      → AllNamed store
      → (sent : Sent C) × (dirty : List (ℕ × List ℕ)) × (sync_entities w store
          ≡ some (resets store, sent, dirty))
        × (map key sent ≡ own_clients store)
        × (map key dirty ≡ told_of store)
  unfolding sync_entities
  sync_entities_lem [] fits named = ([], [], refl, refl, refl)
  sync_entities_lem ((eid, e) ∷ store) fits (here, later) =
      let (sent, dirty, run, to, of) = sync_entity_lem eid e fits here in
      let (sent', dirty', run', to', of') = sync_entities_lem store fits later in
      (
        sent ++ sent',
        dirty ++ dirty',
        rw (run, run') refl,
        rw (map-append sent sent', to, to') refl,
        rw (map-append dirty dirty', of, of') refl,
      )
