-- ===== src/QueueTimer/Tests.antt =====
-- A task for time 100, and an update at time 50.
use archai_engine.Shared.{ℕ, ◌<◌, false, ◌≡◌, refl, some, List, [], ◌∷◌, arith}
use archai_engine.Shared.Maps.{find, put}
use archai_engine.QueueTimer.{
  TimerTask, QueueTimer, TimerCall, new_timer, time_of, take_top, add_task, update,
}
use archai_engine.QueueTimer.Drop.{TimerUse, updates, count, timer_uses, HasRun, update-drops}

abbrev silent : ℕ → List TimerCall
silent cb = []

abbrev waiting : QueueTimer
waiting = add_task 0 new_timer 100 7

abbrev planned : TimerTask
planned = record { timestamp = 100; callback = 7; is_cancel = false }

abbrev uses : List TimerUse
uses = updates 5 100 ∷ updates 5 200 ∷ []

waiting-top : take_top (time_of waiting.tasks) waiting.task_queue ≡ some (1, [])
unfolding take_top add_task
waiting-top = refl

waiting-planned : find 1 waiting.tasks ≡ some planned
unfolding find put add_task
waiting-planned = refl

waiting-once : count 1 waiting.task_queue ≡ 1
unfolding count add_task
waiting-once = refl

waiting-known : 1 < waiting.next_task_id
unfolding add_task
waiting-known = omega arith

update-drops_example :
    (t' : QueueTimer) × (update silent 3 50 waiting ≡ some t')
    × (t'.fired ≡ waiting.fired)
    × (count 1 t'.task_queue ≡ 0)
    × HasRun 1 (count 1 waiting.fired) (timer_uses silent t' uses)
update-drops_example =
    update-drops silent 2 50 waiting 1 [] planned uses waiting-top waiting-planned (omega arith)
      waiting-once waiting-known
