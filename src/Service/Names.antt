-- ===== src/Service/Names.antt =====
-- The names of the players who are logged in.
use archai_engine.Shared.{
  ℕ, ◌≡◌, ◌≢◌, ◌⊎◌, refl, sym, ap, ◌∙◌, true, false, some, List, [], ◌∷◌, arith, Bool-cases,
  Option-cases, inl, inr, subst,
}
use native.Mathlib.Decide.{ℕ_discrete}
use archai_engine.Shared.Maps.{find, put, remove, find-put, find-remove}
use archai_engine.GridAoi.{Plane}
use archai_engine.Service.{
  Player, SpaceService, start, login, join, leave, same_name, contains, erase_name,
}
use archai_engine.Service.Sessions.{Event, logs_in, joins, leaves, step, steps}

same_name_refl : (a : List ℕ) → same_name a a ≡ true
unfolding same_name
same_name_refl [] = refl
same_name_refl (x ∷ a) = ground (arith, same_name_refl a)

same_name-eq : (a b : List ℕ) → same_name a b ≡ true → a ≡ b
unfolding same_name
same_name-eq [] [] h = refl
same_name-eq [] (y ∷ b) h = cc
same_name-eq (x ∷ a) [] h = cc
same_name-eq (x ∷ a) (y ∷ b) h =
    let tails : same_name a b ≡ true = ground arith in
    let tail : a ≡ b = same_name-eq a b tails in let head : x ≡ y = ground arith in cc

contains-erase_name :
    (gone name : List ℕ) (names : List (List ℕ))
    → same_name gone name ≡ false
    → contains name (erase_name gone names) ≡ contains name names
unfolding contains erase_name
contains-erase_name gone name [] h = refl
contains-erase_name gone name (n ∷ names) h =
    let rest = contains-erase_name gone name names h in
    elim (Bool-cases (same_name n gone)) [
      | inl same ↦
          let eq : n ≡ gone = same_name-eq n gone same in
          let other : same_name n name ≡ false = ap (λ (m : List ℕ). same_name m name) eq ∙ h in
          rw (same, other, rest) refl
      | inr differ ↦ rw (differ, rest) refl
    ]

-- Each player's name is taken, and no other player has it.
abbrev pub Held : List (List ℕ) → List (ℕ × Player) → Type 0
Held names players =
    (c : ℕ) (player : Player) → find c players ≡ some player → contains player.name names ≡ true

abbrev pub Single : List (ℕ × Player) → Type 0
Single players =
    (c c' : ℕ) (player player' : Player)
    → find c players ≡ some player
    → find c' players ≡ some player'
    → player.name ≡ player'.name
    → c ≡ c'

module _ (players : List (ℕ × Player)) (conn : ℕ) where
  -- What a map with one more entry has.
  found-put :
      (new : Player) (c : ℕ) (player : Player)
      → find c (put conn new players) ≡ some player
      → ((conn ≡ c) × (new ≡ player)) ⊎ (find c players ≡ some player)
  found-put new c player h =
      let h' = sym (find-put conn c new players) ∙ h in
      elim (ℕ_discrete conn c) [
        | yes same ↦ inl (same, ground arith)
        | no other ↦ inr (ground arith)
      ]

  found-remove :
      (c : ℕ) (player : Player)
      → find c (remove conn players) ≡ some player
      → (conn ≢ c) × (find c players ≡ some player)
  found-remove c player h =
      let h' = sym (find-remove conn c players) ∙ h in
      elim (ℕ_discrete conn c) [
        | yes same ↦ absurd (ground arith)
        | no other ↦ (other, ground arith)
      ]

  put-Held :
      (names : List (List ℕ)) (new : Player)
      → Held names players
      → Held (new.name ∷ names) (put conn new players)
  unfolding contains
  put-Held names new held c player h = elim (found-put new c player h) [
    | inl (same, eq) ↦
        let own : same_name new.name player.name ≡ true =
          subst (λ (x : Player). same_name new.name x.name ≡ true) eq (same_name_refl new.name) in
        rw own refl
    | inr old ↦ let known = held c player old in ground arith
  ]

  put-Single :
      (names : List (List ℕ)) (new : Player)
      → contains new.name names ≡ false
      → Held names players
      → Single players
      → Single (put conn new players)
  put-Single names new free held single c c' player player' h h' same =
      elim (found-put new c player h) [
        | inl (at, eq) ↦ elim (found-put new c' player' h') [
          | inl (at', eq') ↦ sym at ∙ at'
          | inr old' ↦
              let taken : contains new.name names ≡ true =
                subst (λ (n : List ℕ). contains n names ≡ true)
                  (sym (ap (λ (x : Player). x.name) eq ∙ same)) (held c' player' old') in
              absurd (ground arith)
        ]
        | inr old ↦ elim (found-put new c' player' h') [
          | inl (at', eq') ↦
              let taken : contains new.name names ≡ true =
                subst (λ (n : List ℕ). contains n names ≡ true)
                  (same ∙ sym (ap (λ (x : Player). x.name) eq')) (held c player old) in
              absurd (ground arith)
          | inr old' ↦ single c c' player player' old old' same
        ]
      ]

  remove-Held :
      (names : List (List ℕ)) (gone : Player)
      → find conn players ≡ some gone
      → Held names players
      → Single players
      → Held (erase_name gone.name names) (remove conn players)
  remove-Held names gone there held single c player h =
      let (other, old) = found-remove c player h in
      let differ : same_name gone.name player.name ≡ false =
        elim (Bool-cases (same_name gone.name player.name)) [
          | inr differ ↦ differ
          | inl alike ↦ absurd (
              other
                (single conn c gone player there old (same_name-eq gone.name player.name alike)))
        ] in
      contains-erase_name gone.name player.name names differ ∙ held c player old

  remove-Single : Single players → Single (remove conn players)
  remove-Single single c c' player player' h h' same =
      let (other, old) = found-remove c player h in
      let (other', old') = found-remove c' player' h' in single c c' player player' old old' same

module _ (p : Plane) where
  open p use {Coord}

  abbrev pub Named : SpaceService Coord → Type 0
  Named s = Held s.exists_names s.conn_2_player × Single s.conn_2_player

  login-Named :
      (s : SpaceService Coord) (conn : ℕ) (name : List ℕ) → Named s → Named (login p s conn name).0
  unfolding login
  login-Named s conn name (held, single) = elim (Option-cases (find conn s.conn_2_player)) [
    | inr (player, old) ↦ rw (old, login) (held, single)
    | inl fresh ↦ elim (Bool-cases (contains name s.exists_names)) [
      | inl taken ↦ rw (fresh, taken, login) (held, single)
      | inr free ↦
          rw (fresh, free, login)
            (
              put-Held s.conn_2_player conn s.exists_names
                  (record { eid = s.next_eid; name = name }) held,
              put-Single s.conn_2_player conn s.exists_names
                  (record { eid = s.next_eid; name = name }) free held single,
            )
    ]
  ]

  join-Named :
      (s : SpaceService Coord) (conn : ℕ) (x z view : Coord)
      → Named s
      → Named (join p s conn x z view).0
  unfolding join
  join-Named s conn x z view h = elim (Option-cases (find conn s.conn_2_player)) [
    | inl out ↦ rw (out, join) h
    | inr (player, old) ↦ rw (old, join) h
  ]

  leave-Named : (s : SpaceService Coord) (conn : ℕ) → Named s → Named (leave p s conn)
  unfolding leave
  leave-Named s conn (held, single) = elim (Option-cases (find conn s.conn_2_player)) [
    | inl out ↦ rw (out, leave) (held, single)
    | inr (player, old) ↦
        rw (old, leave)
          (
            remove-Held s.conn_2_player conn s.exists_names player old held single,
            remove-Single s.conn_2_player conn single,
          )
  ]

  step-Named : (s : SpaceService Coord) (v : Event Coord) → Named s → Named (step p s v)
  unfolding step
  step-Named s (logs_in conn name) h = login-Named s conn name h
  step-Named s (joins conn x z view) h = join-Named s conn x z view h
  step-Named s (leaves conn) h = leave-Named s conn h

  run-Named : (s : SpaceService Coord) (vs : List (Event Coord)) → Named s → Named (steps p s vs)
  unfolding steps
  run-Named s [] h = h
  run-Named s (v ∷ vs) h = run-Named (step p s v) vs (step-Named s v h)

  -- However connections come and go after the start, the name of each player who is logged in is in
  -- exists_names, and two connections never have players of the same name.
  pub steps-Named :
      (x z view x' z' : Coord) (vs : List (Event Coord))
      → Named (steps p (start p x z view x' z') vs)
  unfolding start find
  steps-Named x z view x' z' vs =
      run-Named (start p x z view x' z') vs
        ((λ c player h. cc), (λ c c' player player' h h' same. cc))
