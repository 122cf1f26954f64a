-- ===== src/QueueTimer.antt =====
-- util/queue_timer.h: the timer that keeps its tasks in a queue by the time they are due. A pointer to a task is
-- its id, since each is made with an id of its own; a task is deleted when it is no longer in `tasks`.
-- `now` is what GetTickCount returns. A callback is a number, and `script` says which calls of the timer
-- it makes. Of tasks that are due at the same time the one that was added first is at the top.
pub mod Drop
mod Tests
use archai_engine.Shared.{
  ℕ, zero, suc, ◌+◌, Bool, true, false, Option, none, some, List, [], ◌∷◌, ◌++◌, leb, if◌then◌else◌,
}
use archai_engine.Shared.Options.{◌>>=◌}
use archai_engine.Shared.Maps.{find, put, remove, elem, include, exclude}

pub record TimerTask : Type 0 where
  pub timestamp : ℕ
  pub callback : ℕ
  pub is_cancel : Bool

-- `fired` is the history of the tasks whose callbacks ran, newest first.
pub record QueueTimer : Type 0 where
  pub task_queue : List ℕ
  pub tasks : List (ℕ × TimerTask)
  pub task_map : List ℕ
  pub next_task_id : ℕ
  pub fired : List ℕ

abbrev pub new_timer : QueueTimer
new_timer = record { task_queue = []; tasks = []; task_map = []; next_task_id = 1; fired = [] }

pub data TimerCall : Type 0 where
  adds : ℕ → ℕ → TimerCall
  cancels : ℕ → TimerCall

abbrev pub time_of : List (ℕ × TimerTask) → ℕ → ℕ
time_of tasks tid = elim (find tid tasks) [ none ↦ 0 | some task ↦ task.timestamp ]

-- `top` and `pop` of the priority_queue, by CMP.
pub take_top : (ℕ → ℕ) → List ℕ → Option (ℕ × List ℕ)
take_top time [] = none
take_top time (a ∷ l) = elim (take_top time l) [
  | none ↦ some (a, [])
  | some (b, rest) ↦ if leb (time a) (time b) then some (a, l) else some (b, a ∷ rest)
]

pub add_task : ℕ → QueueTimer → ℕ → ℕ → QueueTimer
add_task now t delay_ms cb =
    let tid = t.next_task_id in
    record t {
      next_task_id = tid + 1;
      tasks =
          put tid (record { timestamp = now + delay_ms; callback = cb; is_cancel = false }) t.tasks;
      task_queue = t.task_queue ++ (tid ∷ []);
      task_map = include tid t.task_map;
    }

-- Of a deleted task nothing is known.
pub cancel_task : QueueTimer → ℕ → QueueTimer
cancel_task t tid = elim (find tid t.tasks) [
  | none ↦ t
  | some task ↦
      if elem tid t.task_map
      then record t { tasks = put tid (record task { is_cancel = true }) t.tasks }
      else t
]

pub timer_call : ℕ → QueueTimer → TimerCall → QueueTimer
unfolding add_task cancel_task
timer_call now t (adds delay_ms cb) = add_task now t delay_ms cb
timer_call now t (cancels tid) = cancel_task t tid

pub timer_calls : ℕ → QueueTimer → List TimerCall → QueueTimer
unfolding timer_call
timer_calls now t [] = t
timer_calls now t (c ∷ calls) = timer_calls now (timer_call now t c) calls

module _ (script : ℕ → List TimerCall) where
  -- The loop of update; `none` is a loop that is not over when the fuel is, or a deleted task in the queue.
  unfoldable pub update : ℕ → ℕ → QueueTimer → Option QueueTimer
  unfolding take_top timer_calls
  update zero now t = elim t.task_queue [ [] ↦ some t | ◌∷◌ a l ↦ none ]
  update (suc fuel) now t = elim (take_top (time_of t.tasks) t.task_queue) [
    | none ↦ some t
    | some (tid, rest) ↦ do
      task ← find tid t.tasks
      let popped = record t { task_queue = rest }
      let deleted = record popped { task_map = exclude tid t.task_map; tasks = remove tid t.tasks }
      let ran = record popped { fired = tid ∷ t.fired }
      let later = update fuel now (timer_calls now ran (script task.callback))
      if leb task.timestamp now
          then (if task.is_cancel then some deleted else later)
          else some popped
  ]
