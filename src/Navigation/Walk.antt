-- ===== src/Navigation/Walk.antt =====
-- A walk goes on from point to point, and ends at the last.
use archai_engine.Shared.{
  ℕ, zero, suc, ◌+◌, ◌-◌, ◌^◌, ◌≤◌, ◌<◌, ◌≡◌, refl, sym, ap, ◌∙◌, ◌⊎◌, inl, inr, true, false, some,
  List, [], ◌∷◌, ◌++◌, leb, ◌==◌, if◌then◌else◌, length, get_elem?, arith, Bool-cases, append_assoc,
}
use archai_engine.Shared.Int.{pos, negsuc}
use archai_engine.Movement.{Vector3f}
use archai_engine.Navigation.{
  Reals, NavEffect, looks_at, moves_to, stamps, stops_timer, NavigationComponent, vec_minus,
  vec_plus, scale, lenght, reset, last_leg, update,
}

get_elem?-in :
    {A : Type 0} (xs : List A) (i : ℕ) → i < length xs → (x : A) × (get_elem? xs i ≡ some x)
get_elem?-in [] i h = absurd (omega arith)
get_elem?-in (x ∷ xs) zero h = (x, refl)
get_elem?-in (x ∷ xs) (suc i) h = get_elem?-in xs i (omega arith)

module _ (f : Reals) (path : List (Vector3f (f.Real))) (timer : ℕ) where
  open f use {Real, nought, plus, minus, one, over, at_least, is_zero}

  -- The timer runs, and the leg that is walked is one of the path.
  abbrev pub UnderWay : NavigationComponent Real → Type 0
  UnderWay n =
      (n.path ≡ path)
      × (n.update_timer ≡ pos timer)
      × (n.cur_path_idx + 1 < length path)
      × (length path < 2 ^ 64)

  -- The timer is stopped, after the last point of the path is reached.
  abbrev pub Arrived : NavigationComponent Real → List (NavEffect Real) → Type 0
  Arrived n effects =
      (last : Vector3f Real) × (before : List (NavEffect Real)) × (get_elem? path (length path - 1)
        ≡ some last)
      × (n.update_timer ≡ negsuc 0)
      × (effects ≡ before ++ (moves_to last ∷ stamps ∷ stops_timer (pos timer) ∷ []))

  abbrev pub Walked :
      NavigationComponent Real → NavigationComponent Real → List (NavEffect Real) → Type 0
  Walked n n' effects = (UnderWay n' × (n.cur_path_idx ≤ n'.cur_path_idx)) ⊎ Arrived n' effects

  Arrived-then :
      (n : NavigationComponent Real) (looked effects : List (NavEffect Real))
      → Arrived n effects
      → Arrived n (looked ++ effects)
  Arrived-then n looked effects (last, before, at, stopped, e) = (
    last,
    looked ++ before,
    at,
    stopped,
    ap (λ (l : List (NavEffect Real)). looked ++ l) e ∙ sym (append_assoc looked before _),
  )

  -- A call of update while the timer runs, with fuel for the legs that are left, does not read out of the path. It
  -- leaves the timer running, with the same path and the place on it not moved back, or it arrives: the last
  -- thing done is that the entity is put at the path's last point and the timer is stopped.
  pub update-Walked :
      (fuel : ℕ) (n : NavigationComponent Real) (delta_t : Real)
      → UnderWay n
      → length path ≤ fuel + n.cur_path_idx + 1
      → (n' : NavigationComponent Real) × (effects : List (NavEffect Real)) × (update f fuel n
            delta_t
          ≡ some (n', effects))
        × Walked n n' effects
  unfolding update reset
  update-Walked zero n delta_t (same, runs, inside, small) enough = absurd (omega arith)
  update-Walked (suc fuel) n delta_t (same, runs, inside, small) enough =
      let i = n.cur_path_idx in
      let (start, there) = get_elem?-in path i (omega arith) in
      let (end, there') = get_elem?-in path (i + 1) inside in
      let at_start = ap (λ (l : List (Vector3f Real)). get_elem? l i) same ∙ there in
      let at_end = ap (λ (l : List (Vector3f Real)). get_elem? l (i + 1)) same ∙ there' in
      let begins = is_zero n.cumulate_t in
      let looked : List (NavEffect Real) = if begins then looks_at end ∷ [] else [] in
      let segment =
        if begins then over (lenght f (vec_minus f end start)) n.move_speed else n.segment_t in
      let total = plus n.cumulate_t delta_t in
      let next : NavigationComponent Real = record n {
        segment_t = nought;
        cumulate_t = nought;
        cur_path_idx = i + 1;
      } in
      let running : (timer + 1 == 0) ≡ false = ground arith in
      let leg : leb (last_leg n.path) i ≡ leb (last_leg path) i =
        ap (λ (p : List (Vector3f Real)). leb (last_leg p) i) same in
      let last_place : leb (last_leg path) i ≡ true → length path - 1 ≡ i + 1 = λ l. ground arith in
      elim (Bool-cases (at_least total segment)) [
        | inr c ↦ (
          record n { segment_t = segment; cumulate_t = total },
          looked
              ++ (moves_to (
                    vec_plus f (scale f (minus one (over total segment)) start)
                      (scale f (over total segment) end))
                  ∷ stamps
                  ∷ []),
          rw (at_start, at_end, c) refl,
          inl ((same, runs, inside, small), omega arith),
        )
        | inl c ↦ elim (Bool-cases (leb (last_leg path) i)) [
          | inl l ↦ (
            (reset f n).0,
            looked ++ (moves_to end ∷ stamps ∷ stops_timer (pos timer) ∷ []),
            rw (at_start, at_end, c, leg ∙ l, runs, running) refl,
            inr (end, looked, ap (get_elem? path) (last_place l) ∙ there', refl, refl),
          )
          | inr l ↦
              let (n', effects, run, walked) =
                update-Walked fuel next (minus total segment) (same, runs, ground arith, small)
                  (omega arith) in
              (
                n',
                looked ++ effects,
                rw (at_start, at_end, c, leg ∙ l, run) refl,
                elim walked [
                  | inl (way, on) ↦ inl (way, omega arith)
                  | inr arrived ↦ inr (Arrived-then n' looked effects arrived)
                ],
              )
        ]
      ]
