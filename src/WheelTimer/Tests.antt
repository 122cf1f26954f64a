-- ===== src/WheelTimer/Tests.antt =====
-- Runs of the timer, and the theorems at them.
use archai_engine.Shared.{
  ℕ, ◌+◌, ◌*◌, ◌≤◌, ◌<◌, ◌≡◌, ◌↔◌, refl, true, false, none, some, List, [], ◌∷◌, inl, All,
  if◌then◌else◌, ◌==◌, arith,
}
use archai_engine.WheelTimer.{
  WheelTimer, TimerTask, Call, adds, dels, init, calculate_slot_index, add_timer, advance,
}
use archai_engine.WheelTimer.Slots.{calculate-none}
use archai_engine.WheelTimer.Store.{OnTime, In, Distinct}
use archai_engine.WheelTimer.Play.{Event, calls, passes, play, play-OnTime, play-waiting}
use archai_engine.WheelTimer.Elapsed.{total, play-elapsed}

-- Callback 7 deletes timer 0 and adds a timer; the others leave the timer alone.
abbrev script : ℕ → WheelTimer → List Call
script cb w = if cb == 7 then dels 0 ∷ adds 20 8 false ∷ [] else []

-- Four slots and frames of 10 ms: a repeating timer, one that deletes it, and one for 40 ms.
abbrev usage : List Event
usage =
    calls (adds 10 6 true ∷ adds 30 7 false ∷ adds 40 9 false ∷ [])
    ∷ passes 25
    ∷ calls (adds 170 5 false ∷ [])
    ∷ passes 80
    ∷ []

-- The callbacks that ran, newest first, with the frames of each: due, and run.
fired-play :
    (play script usage (init 10 4)).fired
    ≡ record { callback = 9; due = 4; frame = 8 }
      ∷ record { callback = 8; due = 5; frame = 5 }
      ∷ record { callback = 7; due = 3; frame = 3 }
      ∷ record { callback = 6; due = 2; frame = 2 }
      ∷ record { callback = 6; due = 1; frame = 1 }
      ∷ []
unfolding init play add_timer calculate_slot_index advance
fired-play = refl

dangling-play : (play script usage (init 10 4)).dangling ≡ false
unfolding init play add_timer calculate_slot_index advance
dangling-play = refl

play-OnTime_example :
    All (OnTime 4) (play script usage (init 10 4)).fired
    × ((play script usage (init 10 4)).failed ≡ false)
play-OnTime_example =
    play-OnTime script 10 4 usage (omega arith) (omega arith) (omega arith) dangling-play

play-elapsed_example :
    ((play script usage (init 10 4)).ms_since_start ≡ total usage)
    × ((play script usage (init 10 4)).cur_frame * 10 + (play script usage (init 10 4)).left_ms
        ≡ total usage)
    × ((play script usage (init 10 4)).left_ms < 10)
play-elapsed_example = play-elapsed script 10 4 usage (omega arith)

calculate-none_example : (calculate_slot_index (init 10 4) 64 ≡ none) ↔ (4 * (4 * 4) ≤ 64)
unfolding init
calculate-none_example = calculate-none (init 10 4) 64 (omega arith)

-- After 105 ms, timer 3 waits in the third wheel, 17 frames after frame 2.
task_waits : In 3 ((play script usage (init 10 4)).slots 2 1)
unfolding init play add_timer calculate_slot_index advance
task_waits = inl refl

play-waiting_example :
    ((task : TimerTask) × ((play script usage (init 10 4)).tasks 3 ≡ some task)
      × ((play script usage (init 10 4)).cur_frame < task.timeout_frame + 4))
    × Distinct ((play script usage (init 10 4)).slots 2 1)
    × ((j u : ℕ) → In 3 ((play script usage (init 10 4)).slots j u) → (j ≡ 2) × (u ≡ 1))
play-waiting_example =
    play-waiting script 10 4 usage (omega arith) (omega arith) (omega arith) 2 1 3 task_waits
