-- ===== src/SpaceUpdate/Cache.antt =====
-- `entity_properties` of Space::update keeps the bytes of an entity for all who see it come in.
use archai_engine.Shared.{
  ℕ, ◌≡◌, refl, sym, ap, ◌∙◌, false, ◌⊎◌, inl, inr, Option, none, some, List, [], ◌∷◌, ◌++◌, ◌==◌,
  Bool-cases, Option-cases, ==_iff, if_true, if_false,
}
use archai_engine.Shared.Options.{◌>>=◌}
use archai_engine.Shared.Maps.{find, put, find-put}
use mathlib.Core.Option.{some-injective}
use archai_engine.BitStream.{empty}
use archai_engine.BitStream.Growth.{contents}
use archai_engine.GridAoi.{AoiState, TriggerNotify}
use archai_engine.Entity.{Entity, Wire, entity_net_serialize}
use archai_engine.SpaceUpdate.{
  Sent, entities_enter_sight, entities_leave_sight, sync_aoi_update, connection_of, movement_of,
  sight_of, properties_of, enter_one, enter_sight, notify_one, notify_all, aoi_updates, send_state,
  send_states,
}
use archai_engine.SpaceUpdate.Plain.{
  plain_properties, plain_one, plain_sight, plain_notify, plain_all, plain_state, plain_states,
}

abbrev pub messages_of : {C : Type 0} → Option (Sent C × List (ℕ × List ℕ)) → Option (Sent C)
messages_of none = none
messages_of (some (sent, cache)) = some sent

module _ {C F : Type 0} (w : Wire C) (store : List (ℕ × Entity C F)) where
  -- The bytes that are kept are those that the entities have.
  abbrev Valid : List (ℕ × List ℕ) → Type 0
  Valid cache =
      (id : ℕ) (e : Entity C F) (bytes : List ℕ)
      → find id cache ≡ some bytes
      → find id store ≡ some e
      → plain_properties w store e ≡ some bytes

  -- Both fail, or both give the same.
  abbrev Agree : {A : Type 0} → Option (A × List (ℕ × List ℕ)) → Option A → Type 0
  Agree {A} m plain =
      ((m ≡ none) × (plain ≡ none))
      ⊎ ((a : A) × (cache : List (ℕ × List ℕ)) × (m ≡ some (a, cache))
          × (plain ≡ some a)
          × Valid cache)

  bind-Agree :
      {A B : Type 0} {m : Option (A × List (ℕ × List ℕ))} {plain : Option A}
      (f : A × List (ℕ × List ℕ) → Option (B × List (ℕ × List ℕ))) (g : A → Option B)
      → Agree m plain
      → ((a : A) (cache : List (ℕ × List ℕ)) → Valid cache → Agree (f (a, cache)) (g a))
      → Agree (m >>= f) (plain >>= g)
  bind-Agree f g (inl (e, e')) next = inl (rw e refl, rw e' refl)
  bind-Agree f g (inr (a, cache, e, e', valid)) next = rw (e, e') (next a cache valid)

  pure-Agree :
      {A : Type 0} (a : A) (cache : List (ℕ × List ℕ))
      → Valid cache
      → Agree (some (a, cache)) (some a)
  pure-Agree a cache valid = inr (a, cache, refl, refl, valid)

  Valid-put :
      (cache : List (ℕ × List ℕ)) (id : ℕ) (e : Entity C F) (bytes : List ℕ)
      → Valid cache
      → find id store ≡ some e
      → plain_properties w store e ≡ some bytes
      → Valid (put id bytes cache)
  Valid-put cache id e bytes valid at made id' e' bytes' kept at' =
      let found = sym (find-put id id' bytes cache) ∙ kept in
      elim (Bool-cases (id == id')) [
        | inl c ↦
            let same : id ≡ id' = (==_iff id id').0 c in
            let one : e ≡ e' =
              some-injective e e' (sym at ∙ ap (λ (k : ℕ). find k store) same ∙ at') in
            ap (plain_properties w store) (sym one)
            ∙ made
            ∙ sym (if_true (some bytes) (find id' cache) c)
            ∙ found
        | inr c ↦ valid id' e' bytes' (sym (if_false (some bytes) (find id' cache) c) ∙ found) at'
      ]

  properties_of-Agree :
      (cache : List (ℕ × List ℕ)) (id : ℕ) (e : Entity C F)
      → Valid cache
      → find id store ≡ some e
      → Agree (properties_of w cache id e) (plain_properties w store e)
  unfolding plain_properties properties_of
  properties_of-Agree cache id e valid at = elim (Option-cases (find id cache)) [
    | inr (bytes, c) ↦ inr (bytes, cache, rw (c, properties_of) refl, valid id e bytes c at, valid)
    | inl c ↦ elim (Option-cases (entity_net_serialize w e empty false)) [
      | inl s ↦ inl (rw (c, s, properties_of) refl, rw s refl)
      | inr (bs, s) ↦ inr (
        contents bs,
        put id (contents bs) cache,
        rw (c, s, properties_of) refl,
        rw s refl,
        Valid-put cache id e (contents bs) valid at (rw (s, plain_properties) refl),
      )
    ]
  ]

  enter_one-Agree :
      (cache : List (ℕ × List ℕ)) (other : ℕ)
      → Valid cache
      → Agree (enter_one w store cache other) (plain_one w store other)
  unfolding enter_one plain_one
  enter_one-Agree cache other valid = elim (Option-cases (find other store)) [
    | inl gone ↦ rw (gone, enter_one, plain_one) (pure-Agree [] cache valid)
    | inr (e, at) ↦
        rw (at, enter_one, plain_one)
          (bind-Agree _ _ (properties_of-Agree cache other e valid at) (λ bytes cache' valid'.
            elim (Option-cases (movement_of e)) [
              | inl h ↦ inl (rw h refl, rw h refl)
              | inr (m, h) ↦ rw h (pure-Agree (sight_of w e m bytes ∷ []) cache' valid')
            ]))
  ]

  enter_sight-Agree :
      (cache : List (ℕ × List ℕ)) (eid : ℕ) (others : List ℕ)
      → Valid cache
      → Agree (enter_sight w store cache eid others) (plain_sight w store eid others)
  unfolding enter_sight plain_sight
  enter_sight-Agree cache eid [] valid = pure-Agree [] cache valid
  enter_sight-Agree cache eid (other ∷ others) valid = elim (Bool-cases (other == eid)) [
    | inl same ↦ inl (rw same refl, rw same refl)
    | inr differ ↦ rw differ (
        bind-Agree _ _ (enter_one-Agree cache other valid) (λ sights cache' valid'.
          bind-Agree _ _ (enter_sight-Agree cache' eid others valid')
            (λ sights' cache'' valid''. pure-Agree (sights ++ sights') cache'' valid'')))
  ]

  notify_one-Agree :
      (cache : List (ℕ × List ℕ)) (eid conn : ℕ) (notify : TriggerNotify)
      → Valid cache
      → Agree (notify_one w store cache eid conn notify) (plain_notify w store eid conn notify)
  unfolding notify_one plain_notify
  notify_one-Agree cache eid conn notify valid = elim (Bool-cases notify.is_add) [
    | inl adds ↦ rw adds (
        bind-Agree _ _ (enter_sight-Agree cache eid notify.entities valid) (λ sights cache' valid'.
          pure-Agree ((conn, entities_enter_sight sights) ∷ []) cache' valid'))
    | inr dels ↦
        rw dels (pure-Agree ((conn, entities_leave_sight notify.entities) ∷ []) cache valid)
  ]

  notify_all-Agree :
      (cache : List (ℕ × List ℕ)) (eid conn : ℕ) (notifies : List TriggerNotify)
      → Valid cache
      → Agree (notify_all w store cache eid conn notifies) (plain_all w store eid conn notifies)
  unfolding notify_all plain_all
  notify_all-Agree cache eid conn [] valid = pure-Agree [] cache valid
  notify_all-Agree cache eid conn (notify ∷ notifies) valid =
      bind-Agree _ _ (notify_one-Agree cache eid conn notify valid) (λ sent cache' valid'.
        bind-Agree _ _ (notify_all-Agree cache' eid conn notifies valid')
          (λ sent' cache'' valid''. pure-Agree (sent ++ sent') cache'' valid''))

  send_state-Agree :
      (dirty cache : List (ℕ × List ℕ)) (state : AoiState)
      → Valid cache
      → Agree (send_state w store dirty cache state) (plain_state w store dirty state)
  unfolding send_state plain_state
  send_state-Agree dirty cache state valid = elim (Option-cases (find state.eid store)) [
    | inl gone ↦ rw (gone, send_state, plain_state) (pure-Agree [] cache valid)
    | inr (e, at) ↦ elim (Option-cases (connection_of e)) [
      | inl none_of ↦ rw (at, none_of, send_state, plain_state) (pure-Agree [] cache valid)
      | inr (conn, of) ↦
          let updates = (conn, sync_aoi_update (aoi_updates w store dirty state.interests)) ∷ [] in
          rw (at, of, send_state, plain_state)
            (bind-Agree _ _ (notify_all-Agree cache state.eid conn state.notifies valid)
              (λ sent cache' valid'. pure-Agree (sent ++ updates) cache' valid'))
    ]
  ]

  send_states-Agree :
      (dirty cache : List (ℕ × List ℕ)) (states : List AoiState)
      → Valid cache
      → Agree (send_states w store dirty cache states) (plain_states w store dirty states)
  unfolding send_states plain_states
  send_states-Agree dirty cache [] valid = pure-Agree [] cache valid
  send_states-Agree dirty cache (state ∷ states) valid =
      bind-Agree _ _ (send_state-Agree dirty cache state valid) (λ sent cache' valid'.
        bind-Agree _ _ (send_states-Agree dirty cache' states valid')
          (λ sent' cache'' valid''. pure-Agree (sent ++ sent') cache'' valid''))

  -- The second loop of update fails, or sends, exactly as one that writes the entity anew each time it comes into
  -- someone's sight, and so the bytes that are kept are never those of another entity.
  pub send_states-plain :
      (dirty : List (ℕ × List ℕ)) (states : List AoiState)
      → messages_of (send_states w store dirty [] states) ≡ plain_states w store dirty states
  unfolding find
  send_states-plain dirty states =
      elim (send_states-Agree dirty [] states (λ id e bytes kept at. cc)) [
        | inl (e, e') ↦ rw (e, e') refl
        | inr (sent, cache, e, e', valid) ↦ rw (e, e') refl
      ]
