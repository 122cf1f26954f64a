-- ===== src/Service/Live.antt =====
-- The entities of the space are players who are logged in.
use archai_engine.Shared.{
  ℕ, ◌≡◌, ◌≢◌, ◌⊎◌, inl, inr, refl, sym, ap, ◌∙◌, true, false, none, some, List, ◌==◌,
  if◌then◌else◌, arith, Bool-cases, Option-cases,
}
use native.Mathlib.Decide.{ℕ_discrete}
use archai_engine.Shared.Maps.{
  find, put, remove, elem, find-put, find-remove, elem-include, elem-exclude,
}
use archai_engine.GridAoi.{Plane}
use archai_engine.Service.{Player, Space, SpaceService, enter, exit, login, join, leave, contains}

-- A player who is logged in.
abbrev pub LoggedIn : ℕ → List (ℕ × Player) → Type 0
LoggedIn e players =
    (conn : ℕ) × (player : Player) × (find conn players ≡ some player) × (player.eid ≡ e)

-- The entities of the space are the monster and players who are logged in.
abbrev pub IsLive : List ℕ → List (ℕ × Player) → Type 0
IsLive entities players = (e : ℕ) → elem e entities ≡ true → (e ≡ 1) ⊎ LoggedIn e players

put-IsLive :
    (entities : List ℕ) (players : List (ℕ × Player)) (conn : ℕ) (new : Player)
    → find conn players ≡ none
    → IsLive entities players
    → IsLive entities (put conn new players)
put-IsLive entities players conn new fresh live e h = elim (live e h) [
  | inl monster ↦ inl monster
  | inr (c, player, found, same) ↦
      let kept : find c (put conn new players) ≡ some player = elim (ℕ_discrete conn c) [
        | yes at_c ↦ let out : find c players ≡ none = rw at_c at fresh in cc
        | no other ↦ rw (find-put conn c new players) (ground arith)
      ] in
      inr (c, player, kept, same)
]

remove-IsLive :
    (entities entities' : List ℕ) (players : List (ℕ × Player)) (conn : ℕ) (gone : Player)
    → find conn players ≡ some gone
    → ((e : ℕ) → elem e entities' ≡ (if gone.eid == e then false else elem e entities))
    → IsLive entities players
    → IsLive entities' (remove conn players)
remove-IsLive entities entities' players conn gone there left live e h =
    let stays : (if gone.eid == e then false else elem e entities) ≡ true = sym (left e) ∙ h in
    let was : elem e entities ≡ true = ground arith in
    let other_eid : gone.eid ≢ e = ground arith in
    elim (live e was) [
      | inl monster ↦ inl monster
      | inr (c, player, found, same) ↦
          let kept : find c (remove conn players) ≡ some player = elim (ℕ_discrete conn c) [
            | yes at_c ↦
                let out : find c players ≡ some gone = rw at_c at there in
                let eids : gone ≡ player = cc in
                absurd (other_eid (ap (λ (x : Player). x.eid) eids ∙ same))
            | no other ↦ rw (find-remove conn c players) (ground arith)
          ] in
          inr (c, player, kept, same)
    ]

module _ (p : Plane) where
  open p use {Coord}

  pub enter-elem :
      (s : Space Coord) (eid : ℕ) (x z view : Coord) (e : ℕ)
      → elem e (enter p s eid x z view).entities ≡ (if eid == e then true else elem e s.entities)
  unfolding enter
  enter-elem s eid x z view e = elim (Bool-cases (elem eid s.entities)) [
    | inl old ↦
        rw (old, enter)
          (elim (ℕ_discrete eid e) [
            | yes same ↦
                let found : elem e s.entities ≡ true = rw same at old in rw found (ground arith)
            | no other ↦ ground arith
          ])
    | inr new ↦ rw (new, enter, elem-include e eid s.entities) refl
  ]

  pub exit-elem :
      (s : Space Coord) (eid e : ℕ)
      → elem e (exit p s eid).entities ≡ (if eid == e then false else elem e s.entities)
  unfolding exit
  exit-elem s eid e = elim (Bool-cases (elem eid s.entities)) [
    | inl old ↦ rw (old, exit, elem-exclude e eid s.entities) refl
    | inr out ↦
        rw (out, exit)
          (elim (ℕ_discrete eid e) [
            | yes same ↦
                let gone : elem e s.entities ≡ false = rw same at out in rw gone (ground arith)
            | no other ↦ ground arith
          ])
  ]

  pub login-IsLive :
      (s : SpaceService Coord) (conn : ℕ) (name : List ℕ)
      → IsLive s.space.entities s.conn_2_player
      → IsLive (login p s conn name).0.space.entities (login p s conn name).0.conn_2_player
  unfolding login
  login-IsLive s conn name live = elim (Option-cases (find conn s.conn_2_player)) [
    | inr (player, old) ↦ rw (old, login) live
    | inl fresh ↦ elim (Bool-cases (contains name s.exists_names)) [
      | inl taken ↦ rw (fresh, taken, login) live
      | inr free ↦
          rw (fresh, free, login) (put-IsLive s.space.entities s.conn_2_player conn _ fresh live)
    ]
  ]

  pub join-IsLive :
      (s : SpaceService Coord) (conn : ℕ) (x z view : Coord)
      → IsLive s.space.entities s.conn_2_player
      → IsLive (join p s conn x z view).0.space.entities (join p s conn x z view).0.conn_2_player
  unfolding join
  join-IsLive s conn x z view live = elim (Option-cases (find conn s.conn_2_player)) [
    | inl out ↦ rw (out, join) live
    | inr (player, old) ↦
        rw (old, join)
          (λ e h. elim (ℕ_discrete player.eid e) [
            | yes same ↦ inr (conn, player, old, same)
            | no other ↦
                let both = sym (enter-elem s.space player.eid x z view e) ∙ h in
                live e (ground arith)
          ])
  ]

  pub leave-IsLive :
      (s : SpaceService Coord) (conn : ℕ)
      → IsLive s.space.entities s.conn_2_player
      → IsLive (leave p s conn).space.entities (leave p s conn).conn_2_player
  unfolding leave
  leave-IsLive s conn live = elim (Option-cases (find conn s.conn_2_player)) [
    | inl out ↦ rw (out, leave) live
    | inr (player, old) ↦
        rw (old, leave)
          (remove-IsLive s.space.entities (exit p s.space player.eid).entities s.conn_2_player conn
            player old (exit-elem s.space player.eid) live)
  ]
