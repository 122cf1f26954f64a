-- ===== src/WheelTimer/Elapsed.antt =====
-- update: the frames follow the clock. A tick leaves the frame and the clock alone.
use archai_engine.Shared.{
  ℕ, zero, suc, ◌+◌, ◌-◌, ◌*◌, ◌≤◌, ◌<◌, ◌≡◌, refl, ◌∙◌, List, [], ◌∷◌, arith, Bool, Bool-cases,
  Option-cases, ◌==◌, leb, ltb, ◌%◌, inl, inr,
}
use archai_engine.WheelTimer.{
  WheelTimer, TimerTask, Firing, Call, update₂, sort_by, timeout_of, adds, dels, add_timer,
  del_timer, perform, after_callback, invoke, run_one, run_all, move_one, move_all, run_timers,
  move_timers, turn_wheel, tick_from, tick, update_loop, advance, init,
}
use archai_engine.WheelTimer.Turn.{turn_hand}
use archai_engine.WheelTimer.Play.{Event, calls, passes, play}

-- The frame, its length, and the milliseconds left over and in all.
record Times (w w' : WheelTimer) : Type 0 where
  frame : w'.cur_frame ≡ w.cur_frame
  step : w'.interval ≡ w.interval
  left : w'.left_ms ≡ w.left_ms
  since : w'.ms_since_start ≡ w.ms_since_start

Times-refl : (w : WheelTimer) → Times w w
Times-refl w = record { frame = refl; step = refl; left = refl; since = refl }

Times-trans : {u v w : WheelTimer} → Times u v → Times v w → Times u w
Times-trans k l = record {
  frame = l.frame ∙ k.frame;
  step = l.step ∙ k.step;
  left = l.left ∙ k.left;
  since = l.since ∙ k.since;
}

add_timer-Times :
    (w : WheelTimer) (ms cb : ℕ) (is_repeat : Bool) → Times w (add_timer w ms cb is_repeat).0
unfolding add_timer
add_timer-Times w ms cb is_repeat = ground arith

del_timer-Times : (w : WheelTimer) (id : ℕ) → Times w (del_timer w id)
unfolding del_timer
del_timer-Times w id = ground arith

perform-Times : (l : List Call) (w : WheelTimer) → Times w (perform l w)
unfolding perform
perform-Times [] w = Times-refl w
perform-Times (adds ms cb is_repeat ∷ l) w =
    Times-trans (add_timer-Times w ms cb is_repeat)
      (perform-Times l (add_timer w ms cb is_repeat).0)
perform-Times (dels id ∷ l) w =
    Times-trans (del_timer-Times w id) (perform-Times l (del_timer w id))

after_callback-Times : (w : WheelTimer) (p : ℕ) → Times w (after_callback w p)
unfolding after_callback
after_callback-Times w p = ground arith

move_one-Times : (w : WheelTimer) (p : ℕ) → Times w (move_one w p)
unfolding move_one
move_one-Times w p = ground arith

move_all-Times : (todo : List ℕ) (w : WheelTimer) → Times w (move_all todo w)
unfolding move_all
move_all-Times [] w = Times-refl w
move_all-Times (p ∷ todo) w = Times-trans (move_one-Times w p) (move_all-Times todo (move_one w p))

-- The clock stands at `since` ms, and the frames agree with it.
abbrev Elapsed : ℕ → ℕ → WheelTimer → Type 0
Elapsed step since w =
    (w.interval ≡ step) × (w.ms_since_start ≡ since) × (w.cur_frame * step + w.left_ms ≡ since)

-- What the calls of update report as passed, in all.
abbrev pub total : List Event → ℕ
total [] = 0
total (calls l ∷ events) = total events
total (passes duration ∷ events) = duration + total events

module _ (script : ℕ → WheelTimer → List Call) where
  invoke-Times : (w : WheelTimer) (task : TimerTask) → Times w (invoke script w task)
  unfolding invoke
  invoke-Times w task =
      let now : Firing = record {
        callback = task.callback;
        due = task.timeout_frame;
        frame = w.cur_frame;
      } in
      let k = perform-Times (script task.callback w) (record w { fired = now ∷ w.fired }) in
      record { frame = k.frame; step = k.step; left = k.left; since = k.since }

  run_one-Times : (w : WheelTimer) (p : ℕ) → Times w (run_one script w p)
  unfolding run_one
  run_one-Times w p = elim (Option-cases (w.tasks p)) [
    | inl e ↦ rw (e, run_one) (record { frame = refl; step = refl; left = refl; since = refl })
    | inr (task, e) ↦ elim (Bool-cases task.is_canceled) [
      | inl canceled ↦
          rw (e, run_one, canceled)
            (record { frame = refl; step = refl; left = refl; since = refl })
      | inr live ↦
          rw (e, run_one, live)
            (Times-trans (invoke-Times w task) (after_callback-Times (invoke script w task) p))
    ]
  ]

  run_all-Times : (todo : List ℕ) (w : WheelTimer) → Times w (run_all script todo w)
  unfolding run_all
  run_all-Times [] w = Times-refl w
  run_all-Times (p ∷ todo) w =
      Times-trans (run_one-Times w p) (run_all-Times todo (run_one script w p))

  run_timers-Times : (w : WheelTimer) (i s : ℕ) → Times w (run_timers script w i s)
  unfolding run_timers
  run_timers-Times w i s =
      let slot = sort_by (timeout_of w) (w.slots i s) in
      let k = run_all-Times slot (record w { slots = update₂ w.slots i s slot }) in
      record { frame = k.frame; step = k.step; left = k.left; since = k.since }

  move_timers-Times : (w : WheelTimer) (i s : ℕ) → Times w (move_timers w i s)
  unfolding move_timers
  move_timers-Times w i s =
      let k = move_all-Times (w.slots i s) w in
      record { frame = k.frame; step = k.step; left = k.left; since = k.since }

  turn_wheel-Times : (i : ℕ) (w : WheelTimer) → Times w (turn_wheel script i w)
  unfolding turn_wheel
  turn_wheel-Times i w =
      let s = (w.cur_slot_index i + 1) % w.max_slots in
      let w' = turn_hand i s w in
      let k = run_timers-Times w' i s in
      let l = move_timers-Times w' i s in
      elim (Bool-cases (ltb 0 i)) [
        | inl e ↦
            rw (turn_wheel, e)
              (record { frame = l.frame; step = l.step; left = l.left; since = l.since })
        | inr e ↦
            rw (turn_wheel, e)
              (record { frame = k.frame; step = k.step; left = k.left; since = k.since })
      ]

  tick_from-Times : (more i : ℕ) (w : WheelTimer) → Times w (tick_from script more i w)
  unfolding tick_from
  tick_from-Times zero i w = Times-refl w
  tick_from-Times (suc more) i w =
      elim (Bool-cases ((turn_wheel script i w).cur_slot_index i == 0)) [
        | inl e ↦
            rw (tick_from, e)
              (Times-trans (turn_wheel-Times i w)
                (tick_from-Times more (i + 1) (turn_wheel script i w)))
        | inr e ↦ rw (tick_from, e) (turn_wheel-Times i w)
      ]

  abbrev next : WheelTimer → WheelTimer
  next w = tick script (record w { left_ms = w.left_ms - w.interval; cur_frame = w.cur_frame + 1 })

  next-Elapsed :
      {step since : ℕ} (w : WheelTimer)
      → step ≤ w.left_ms
      → Elapsed step since w
      → Elapsed step since (next w) × ((next w).left_ms ≡ w.left_ms - step)
  unfolding tick
  next-Elapsed {step} {since} w h (same, clock, e) =
      let k =
        tick_from-Times 3 0
          (record w { left_ms = w.left_ms - w.interval; cur_frame = w.cur_frame + 1 }) in
      let e' : (w.cur_frame + 1) * step + (w.left_ms - step) ≡ since = omega arith in
      ((k.step ∙ same, k.since ∙ clock, rw (k.frame, k.left, same) e'), rw (k.left, same) refl)

  update_loop-Elapsed :
      {step since : ℕ} (fuel : ℕ) (w : WheelTimer)
      → 0 < step
      → w.left_ms ≤ fuel
      → Elapsed step since w
      → Elapsed step since (update_loop script fuel w)
        × ((update_loop script fuel w).left_ms < step)
  unfolding update_loop
  update_loop-Elapsed zero w p enough v = (v, omega arith)
  update_loop-Elapsed (suc fuel) w p enough v = elim (Bool-cases (leb w.interval w.left_ms)) [
    | inl more ↦
        let same = v.0 in
        let (kept, left) = next-Elapsed w (ground arith) v in
        rw (update_loop, more) (update_loop-Elapsed fuel (next w) p (omega arith) kept)
    | inr done ↦ let same = v.0 in rw (update_loop, done) (v, ground arith)
  ]

  advance-Elapsed :
      {step since : ℕ} (w : WheelTimer) (duration : ℕ)
      → 0 < step
      → Elapsed step since w
      → Elapsed step (since + duration) (advance script w duration)
        × ((advance script w duration).left_ms < step)
  unfolding advance
  advance-Elapsed w duration p (same, clock, e) =
      update_loop-Elapsed (w.left_ms + duration) _ p (omega arith) (same, omega arith, omega arith)

  play-Elapsed :
      {step : ℕ} (events : List Event) (since : ℕ) (w : WheelTimer)
      → 0 < step
      → Elapsed step since w
      → w.left_ms < step
      → Elapsed step (since + total events) (play script events w)
        × ((play script events w).left_ms < step)
  unfolding play
  play-Elapsed [] since w p v h = let same : since + 0 ≡ since = omega arith in (rw same v, h)
  play-Elapsed (calls l ∷ events) since w p (same, clock, e) h =
      let k = perform-Times l w in
      play-Elapsed events since (perform l w) p
        (k.step ∙ same, k.since ∙ clock, rw (k.frame, k.left) e) (rw k.left h)
  play-Elapsed (passes duration ∷ events) since w p v h =
      let (v', h') = advance-Elapsed w duration p v in
      let sum : since + (duration + total events) ≡ since + duration + total events = omega arith in
      rw sum (play-Elapsed events (since + duration) (advance script w duration) p v' h')

-- A timer with frames of `interval` ms, at least 1, is used in any way; the calls of update report
-- `total events` ms in all. Then that is what its clock shows, the frame it is in is the one of that
-- time, and less than a frame is left over: the loop of update has run as often as it must.
pub play-elapsed :
    (script : ℕ → WheelTimer → List Call) (interval n : ℕ) (events : List Event)
    → 0 < interval
    → ((play script events (init interval n)).ms_since_start ≡ total events)
      × ((play script events (init interval n)).cur_frame * interval
            + (play script events (init interval n)).left_ms
          ≡ total events)
      × ((play script events (init interval n)).left_ms < interval)
unfolding init
play-elapsed script interval n events p =
    let ((same, clock, e), h) =
      play-Elapsed script events 0 (init interval n) p (refl, refl, omega arith) p in
    let sum : 0 + total events ≡ total events = omega arith in (clock ∙ sum, e ∙ sum, h)
