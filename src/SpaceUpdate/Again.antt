-- ===== src/SpaceUpdate/Again.antt =====
-- Space::update resets the flag of an entity, by reset_dirty, and not those of its components.
use archai_engine.Shared.{
  ℕ, zero, suc, ◌≡◌, refl, sym, ap, ◌∙◌, Bool, true, false, not, ◌||◌, Option, some, List, [], ◌∷◌,
  map, ◌==◌, arith, Bool-cases, inl, inr, length, All, if_true, if_false,
}
use archai_engine.Shared.Options.{◌>>=◌}
use archai_engine.Shared.Maps.{find, elem, elem-append}
use mathlib.Core.Option.{some-injective}
use mathlib.Core.Bool.{or-true}
use archai_engine.Entity.{Entity, Wire, reset_dirty}
use archai_engine.Entity.Flags.{has_delta, any_says, Fits}
use archai_engine.SpaceUpdate.{Sent, connection_of, sync_entities}
use archai_engine.SpaceUpdate.Told.{
  key, clients, AllNamed, own_client, own_clients, resets, sync_entities_lem,
}

module _ {C F : Type 0} where
  AllNamed-resets : (store : List (ℕ × Entity C F)) → AllNamed store → AllNamed (resets store)
  AllNamed-resets [] h = h
  AllNamed-resets ((eid, e) ∷ store) (here, later) = (here, AllNamed-resets store later)

  head :
      (k eid : ℕ) (a e : Entity C F) (store : List (ℕ × Entity C F))
      → (k == eid) ≡ true
      → find eid ((k, a) ∷ store) ≡ some e
      → a ≡ e
  unfolding find
  head k eid a e store c h = some-injective a e (sym (if_true (some a) (find eid store) c) ∙ h)

  tail :
      (k eid : ℕ) (a e : Entity C F) (store : List (ℕ × Entity C F))
      → (k == eid) ≡ false
      → find eid ((k, a) ∷ store) ≡ some e
      → find eid store ≡ some e
  unfolding find
  tail k eid a e store c h = sym (if_false (some a) (find eid store) c) ∙ h

  find-resets :
      (store : List (ℕ × Entity C F)) (eid : ℕ) (e : Entity C F)
      → find eid store ≡ some e
      → find eid (resets store) ≡ some (reset_dirty e)
  unfolding find
  find-resets [] eid e h = cc
  find-resets ((k, a) ∷ store) eid e h = elim (Bool-cases (k == eid)) [
    | inl c ↦
        if_true (some (reset_dirty a)) (find eid (resets store)) c
        ∙ ap (λ (x : Entity C F). some (reset_dirty x)) (head k eid a e store c h)
    | inr c ↦
        if_false (some (reset_dirty a)) (find eid (resets store)) c
        ∙ find-resets store eid e (tail k eid a e store c h)
  ]

  elem-own_client :
      (conn : ℕ) (e : Entity C F)
      → any_says e.components true ≡ true
      → connection_of e ≡ some conn
      → elem conn (own_client e) ≡ true
  unfolding elem
  elem-own_client conn e d c =
      let dirty : has_delta e true ≡ true = rw d (or-true (not (e.dirty_flag == 0))) in
      let here : elem conn (conn ∷ []) ≡ true = ground arith in
      ap (elem conn) (if_true (clients (connection_of e)) [] dirty ∙ ap clients c) ∙ here

  elem-own_clients :
      (store : List (ℕ × Entity C F)) (eid conn : ℕ) (e : Entity C F)
      → find eid store ≡ some e
      → any_says e.components true ≡ true
      → connection_of e ≡ some conn
      → elem conn (own_clients store) ≡ true
  unfolding find elem
  elem-own_clients [] eid conn e h d c = cc
  elem-own_clients ((k, a) ∷ store) eid conn e h d c =
      elem-append conn (own_client a) (own_clients store) ∙ elim (Bool-cases (k == eid)) [
        | inl same ↦
            ap (λ (x : Entity C F). elem conn (own_client x) || elem conn (own_clients store))
              (head k eid a e store same h)
            ∙ ap (λ (b : Bool). b || elem conn (own_clients store)) (elem-own_client conn e d c)
        | inr other ↦
            ap (λ (b : Bool). elem conn (own_client a) || b)
              (elem-own_clients store eid conn e (tail k eid a e store other h) d c)
            ∙ or-true (elem conn (own_client a))
      ]

module _ {C F : Type 0} (w : Wire C) where
  -- Update after update, with no change in between: what each sends to the entities' own clients.
  unfoldable pub rounds : ℕ → List (ℕ × Entity C F) → Option (List (Sent C))
  unfolding sync_entities
  rounds zero store = some []
  rounds (suc n) store = do
    (store', sent, dirty) ← sync_entities w store
    later ← rounds n store'
    some (sent ∷ later)

  -- When the names of players and protobuf's bytes of movements are shorter than 65536, and an entity with a connection
  -- has a component with changes to tell its client, then however many updates follow, with no change in between,
  -- every one of them sends to that connection once more.
  pub rounds-again :
      (n : ℕ) (store : List (ℕ × Entity C F)) (eid conn : ℕ) (e : Entity C F)
      → Fits w
      → AllNamed store
      → find eid store ≡ some e
      → any_says e.components true ≡ true
      → connection_of e ≡ some conn
      → (sents : List (Sent C)) × (rounds n store ≡ some sents)
        × (length sents ≡ n)
        × All (λ (sent : Sent C). elem conn (map key sent) ≡ true) sents
  unfolding rounds
  rounds-again zero store eid conn e fits named at dirty conned = ([], refl, refl, tt)
  rounds-again (suc n) store eid conn e fits named at dirty conned =
      let (sent, _, run, to, _) = sync_entities_lem w store fits named in
      let (sents, again, count, all) =
        rounds-again n (resets store) eid conn (reset_dirty e) fits (AllNamed-resets store named)
          (find-resets store eid e at) dirty conned in
      (
        sent ∷ sents,
        rw (run, again) refl,
        ap suc count,
        (ap (elem conn) to ∙ elem-own_clients store eid conn e at dirty conned, all),
      )
