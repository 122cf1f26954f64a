-- ===== src/Navigation/Calls.antt =====
-- Any sequence of calls of move_to and runs of the timer.
use archai_engine.Shared.{
  ℕ, ◌≡◌, refl, sym, subst, ◌+◌, ◌==◌, ◌⊎◌, inl, inr, false, Option, some, List, [], ◌∷◌, length,
  ◌<◌, ◌^◌, All, arith, if◌then◌else◌,
}
use archai_engine.Shared.Options.{◌>>=◌}
use archai_engine.Shared.Int.{pos, negsuc, eq_ℤ}
use archai_engine.Movement.{Vector3f}
use archai_engine.Navigation.{Reals, NavEffect, NavigationComponent, reset, move_to, update}
use archai_engine.Navigation.Walk.{UnderWay, update-Walked}

-- A call of move_to, with what find_path and add_timer give, or a run of the timer's callback.
pub data NavEvent (R : Type 0) : Type 0 where
  goes_to : List (Vector3f R) → ℕ → NavEvent R
  ticks : R → NavEvent R

module _ (f : Reals) where
  open f use {Real, nought}

  abbrev pub new_component : Real → NavigationComponent Real
  new_component move_speed = record {
    update_timer = negsuc 0;
    move_speed = move_speed;
    cumulate_t = nought;
    segment_t = nought;
    cur_path_idx = 0;
    path = [];
  }

  -- The callback runs only while the component has a timer.
  pub nav_step : NavigationComponent Real → NavEvent Real → Option (NavigationComponent Real)
  unfolding move_to update
  nav_step n (goes_to found timer) = some (move_to f n found timer).0
  nav_step n (ticks delta_t) =
      let called = (do (n', effects) ← update f (length n.path) n delta_t; some n') in
      if eq_ℤ n.update_timer (negsuc 0) then some n else called

  unfoldable pub nav_steps :
      NavigationComponent Real → List (NavEvent Real) → Option (NavigationComponent Real)
  unfolding nav_step
  nav_steps n [] = some n
  nav_steps n (event ∷ events) = do n' ← nav_step n event; nav_steps n' events

  -- The paths of find_path have at most 512 points.
  abbrev pub Sized : NavEvent Real → Type 0
  Sized (goes_to found timer) = length found < 2 ^ 64
  Sized (ticks delta_t) = Unit

  -- No timer, or a timer and a leg of the path that is walked.
  abbrev pub Sound : NavigationComponent Real → Type 0
  Sound n = (n.update_timer ≡ negsuc 0) ⊎ ((timer : ℕ) × UnderWay f n.path timer n)

  nav_step-ticks :
      (n n' : NavigationComponent Real) (delta_t : Real) (timer : ℕ)
      (effects : List (NavEffect Real))
      → n.update_timer ≡ pos timer
      → update f (length n.path) n delta_t ≡ some (n', effects)
      → nav_step n (ticks delta_t) ≡ some n'
  unfolding nav_step
  nav_step-ticks n n' delta_t timer effects runs run =
      let running : (timer + 1 == 0) ≡ false = ground arith in rw (run, runs, running) refl

  nav_step-Sound :
      (n : NavigationComponent Real) (event : NavEvent Real)
      → Sound n
      → Sized event
      → (n' : NavigationComponent Real) × (nav_step n event ≡ some n') × Sound n'
  unfolding nav_step move_to reset
  nav_step-Sound n (goes_to [] timer) sound sized = (_, refl, inl refl)
  nav_step-Sound n (goes_to (at ∷ []) timer) sound sized = (_, refl, inl refl)
  nav_step-Sound n (goes_to (from ∷ to ∷ found) timer) sound sized =
      (_, refl, inr (timer, (refl, refl, omega arith, sized)))
  nav_step-Sound n (ticks delta_t) (inl idle) sized = (n, rw idle refl, inl idle)
  nav_step-Sound n (ticks delta_t) (inr (timer, way)) sized =
      let (n', effects, run, walked) =
        update-Walked f n.path timer (length n.path) n delta_t way (omega arith) in
      (
        n',
        nav_step-ticks n n' delta_t timer effects way.1 run,
        elim walked [
          | inl ((same, runs, inside, small), on) ↦ inr (
            timer,
            (
              refl,
              runs,
              subst (λ (p : List (Vector3f Real)). n'.cur_path_idx + 1 < length p) (sym same)
                  inside,
              subst (λ (p : List (Vector3f Real)). length p < 2 ^ 64) (sym same) small,
            ),
          )
          | inr (last, before, at, stopped, e) ↦ inl stopped
        ],
      )

  -- Whatever calls of move_to and runs of the timer there are, with paths shorter than 2^64 points, none reads out of the
  -- path, and after them the component has no timer, or it has one and stands on a leg of its path.
  pub nav_steps-Sound :
      (n : NavigationComponent Real) (events : List (NavEvent Real))
      → Sound n
      → All Sized events
      → (n' : NavigationComponent Real) × (nav_steps n events ≡ some n') × Sound n'
  unfolding nav_steps
  nav_steps-Sound n [] sound sized = (n, refl, sound)
  nav_steps-Sound n (event ∷ events) sound (here, later) =
      let (n', run, sound') = nav_step-Sound n event sound here in
      let (n'', run', sound'') = nav_steps-Sound n' events sound' later in
      (n'', rw (run, run') refl, sound'')
