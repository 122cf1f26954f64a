-- ===== src/Navigation/Arrive.antt =====
-- What a walk does to the entity's MovementComponent and to its space.
use archai_engine.Shared.{
  ℕ, ◌+◌, ◌-◌, ◌≤◌, ◌≡◌, refl, sym, ap, ◌∙◌, ◌⊎◌, inl, inr, Bool, true, some, List, [], ◌∷◌, ◌++◌,
  length, get_elem?, subst, if_true,
}
use archai_engine.Shared.Int.{pos, negsuc}
use archai_engine.Shared.Maps.{find, elem}
use archai_engine.GridAoi.{Plane}
use archai_engine.GridAoi.Queries.{moves, spot, call, call-spot}
use archai_engine.Service.{Space, update_position}
use archai_engine.Service.InStep.{here}
use archai_engine.Movement.{Vector3f, MovementComponent, set_position, look_at, set_move_timestamp}
use archai_engine.Movement.Upload.{follow-here}
use archai_engine.Navigation.{
  Reals, NavEffect, looks_at, moves_to, stamps, starts_timer, stops_timer, NavigationComponent,
  update,
}
use archai_engine.Navigation.Walk.{UnderWay, update-Walked}

-- `yaw_of` is that of look_at, and `now` is ms_since_start in seconds.
module _ (p : Plane) (yaw_of : (p.Coord) → (p.Coord) → (p.Coord)) (now : p.Coord) (eid : ℕ) where
  open p use {Coord}

  abbrev pub Body : Type 0
  Body = MovementComponent Coord × Space Coord

  -- The calls of the MovementComponent in move_to and update.
  pub apply_effect : Body → NavEffect Coord → Body
  unfolding set_position look_at set_move_timestamp
  apply_effect (m, s) (looks_at to) = (look_at p yaw_of m to, s)
  apply_effect (m, s) (moves_to to) = set_position p m s eid to.x to.y to.z
  apply_effect (m, s) stamps = (set_move_timestamp m now, s)
  apply_effect (m, s) (starts_timer ms) = (m, s)
  apply_effect (m, s) (stops_timer id) = (m, s)

  unfoldable pub apply_effects : Body → List (NavEffect Coord) → Body
  unfolding apply_effect
  apply_effects b [] = b
  apply_effects b (e ∷ effects) = apply_effects (apply_effect b e) effects

  apply_effects-append :
      (b : Body) (l l' : List (NavEffect Coord))
      → apply_effects b (l ++ l') ≡ apply_effects (apply_effects b l) l'
  unfolding apply_effects
  apply_effects-append b [] l' = refl
  apply_effects-append b (e ∷ l) l' = apply_effects-append (apply_effect b e) l l'

  -- The entity is in the space, and the grid has it.
  abbrev pub Stands : Body → Type 0
  Stands (m, s) = (elem eid s.entities ≡ true) × (here (spot p (find eid s.aoi.entities)) ≡ true)

  -- The grid has the entity at its position.
  abbrev pub Shown : Body → Type 0
  Shown (m, s) = spot p (find eid s.aoi.entities) ≡ some (m.position.x, m.position.z)

  moved_to :
      (b : Body) (to : Vector3f Coord)
      → Stands b
      → (b' : Body) × (apply_effect b (moves_to to) ≡ b')
        × Stands b'
        × Shown b'
        × (b'.0.position ≡ to)
  unfolding apply_effect set_position update_position call
  moved_to (m, s) to (inside, there) =
      let spotted =
        call-spot p s.aoi (moves eid to.x to.z) eid ∙ follow-here p eid _ to.x to.z there in
      (
        (record m { position = to }, update_position p s eid to.x to.z),
        if_true _ _ inside,
        (inside, ap here spotted),
        spotted,
        refl,
      )

  apply_effect-Stands : (b : Body) (e : NavEffect Coord) → Stands b → Stands (apply_effect b e)
  unfolding apply_effect
  apply_effect-Stands b (looks_at to) h = h
  apply_effect-Stands b (moves_to to) h =
      let (b', e, stands, shown, at) = moved_to b to h in subst Stands (sym e) stands
  apply_effect-Stands b stamps h = h
  apply_effect-Stands b (starts_timer ms) h = h
  apply_effect-Stands b (stops_timer id) h = h

  apply_effects-Stands :
      (b : Body) (l : List (NavEffect Coord)) → Stands b → Stands (apply_effects b l)
  unfolding apply_effects
  apply_effects-Stands b [] h = h
  apply_effects-Stands b (e ∷ l) h =
      apply_effects-Stands (apply_effect b e) l (apply_effect-Stands b e h)

  -- After the last effects of a walk.
  arrived :
      (b : Body) (before : List (NavEffect Coord)) (last : Vector3f Coord) (timer : ℕ)
      → Stands b
      → let b' =
          apply_effects b (before ++ (moves_to last ∷ stamps ∷ stops_timer (pos timer) ∷ [])) in
        (b'.0.position ≡ last) × Shown b'
  unfolding apply_effects apply_effect set_move_timestamp
  arrived b before last timer h =
      let tail = moves_to last ∷ stamps ∷ stops_timer (pos timer) ∷ [] in
      let (b', e, stands, shown, at) =
        moved_to (apply_effects b before) last (apply_effects-Stands b before h) in
      let all =
        apply_effects-append b before tail
        ∙ ap (λ (x : Body). apply_effects x (stamps ∷ stops_timer (pos timer) ∷ [])) e in
      (ap (λ (x : Body). x.0.position) all ∙ at, subst Shown (sym all) shown)

-- The coordinates of a walk are those of the plane.
module _ (p : Plane) (one : p.Coord) (times over : (p.Coord) → (p.Coord) → (p.Coord))
    (root : (p.Coord) → (p.Coord)) (at_least : (p.Coord) → (p.Coord) → Bool)
    (is_zero : (p.Coord) → Bool) where
  open p use {Coord}

  abbrev pub reals : Reals
  reals = record {
    Real = Coord;
    nought = p.origin;
    one = one;
    plus = p.plus;
    minus = p.minus;
    times = times;
    over = over;
    root = root;
    at_least = at_least;
    is_zero = is_zero;
  }

  -- A call of update while the timer runs, for an entity that is in the space and on the grid, returns, with fuel for the
  -- legs that are left. It leaves the timer running, or it stops it; then the MovementComponent has the path's last
  -- point for its position, and the grid has the entity there.
  pub update-arrives :
      (yaw_of : Coord → Coord → Coord) (now : Coord) (eid : ℕ) (path : List (Vector3f Coord))
      (timer fuel : ℕ) (n : NavigationComponent Coord) (delta_t : Coord) (b : Body p yaw_of now eid)
      → UnderWay reals path timer n
      → length path ≤ fuel + n.cur_path_idx + 1
      → Stands p yaw_of now eid b
      → (n' : NavigationComponent Coord) × (effects : List (NavEffect Coord)) × (update reals fuel n
            delta_t
          ≡ some (n', effects))
        × (UnderWay reals path timer n'
            ⊎ ((n'.update_timer ≡ negsuc 0)
                × (get_elem? path (length path - 1)
                    ≡ some (apply_effects p yaw_of now eid b effects).0.position)
                × Shown p yaw_of now eid (apply_effects p yaw_of now eid b effects)))
  update-arrives yaw_of now eid path timer fuel n delta_t b way enough stands =
      let (n', effects, run, walked) = update-Walked reals path timer fuel n delta_t way enough in
      (
        n',
        effects,
        run,
        elim walked [
          | inl (way', on) ↦ inl way'
          | inr (last, before, at, stopped, e) ↦
              let (end, shown) = arrived p yaw_of now eid b before last timer stands in
              let same = ap (apply_effects p yaw_of now eid b) e in
              inr (
                stopped,
                at
                    ∙ ap (λ (v : Vector3f Coord). some v)
                        (sym (ap (λ (x : Body p yaw_of now eid). x.0.position) same ∙ end)),
                subst (Shown p yaw_of now eid) (sym same) shown,
              )
        ],
      )
