-- ===== src/WheelTimer.antt =====
-- wheel_timer.h and wheel_timer.cpp: the hierarchical timer. A pointer to a TimerTask is an address
-- in the store `tasks`; a deleted task is no longer in it. A callback is a number, and `script` says
-- which calls of the timer it makes, given the timer that it finds. The interval is at least 1: for 0
-- the code divides by it, and so is the number of slots. Frames and milliseconds do not reach the width
-- of their types here, and ids, of type int in the code, have no bound: fewer than 2^31 timers are added.
-- The difference of two frames wraps as in the code.
pub mod Slots
pub mod Store
pub mod Push
pub mod Steps
pub mod Turn
pub mod Higher
pub mod Tick
pub mod Steady
pub mod Play
pub mod Elapsed
mod Tests
use archai_engine.Shared.{
  ℕ, zero, suc, ◌+◌, ◌-◌, ◌*◌, ◌/◌, ◌%◌, ◌^◌, max, Bool, true, false, ◌&&◌, Option, none, some,
  List, [], ◌∷◌, ◌++◌, ◌==◌, ltb, leb, if◌then◌else◌,
}

pub record TimerTask : Type 0 where
  pub interval : ℕ
  pub timeout_ms : ℕ
  pub timeout_frame : ℕ
  pub callback : ℕ
  pub is_repeat : Bool
  pub is_canceled : Bool

-- A callback that ran: when its task was due, and in which frame it ran.
pub record Firing : Type 0 where
  pub callback : ℕ
  pub due : ℕ
  pub frame : ℕ

-- The wheels and their slots are functions of the index. `fired` is the history of the callbacks that
-- ran, newest first. `dangling` records a write to a deleted task by its id; `failed`, a deleted task
-- in a slot or a failed assert.
pub record WheelTimer : Type 0 where
  pub cur_frame : ℕ
  pub interval : ℕ
  pub max_slots : ℕ
  pub next_timer_id : ℕ
  pub cur_slot_index : ℕ → ℕ
  pub slots : ℕ → ℕ → List ℕ
  pub tasks : ℕ → Option TimerTask
  pub next_address : ℕ
  pub id_2_timer_task : ℕ → Option ℕ
  pub left_ms : ℕ
  pub ms_since_start : ℕ
  pub fired : List Firing
  pub dangling : Bool
  pub failed : Bool

abbrev pub wheel_count : ℕ
wheel_count = 3

abbrev pub update {ℓ} : {A : Type ℓ} → (ℕ → A) → ℕ → A → ℕ → A
update f i a j = if j == i then a else f j

abbrev pub update₂ {ℓ} : {A : Type ℓ} → (ℕ → ℕ → A) → ℕ → ℕ → A → ℕ → ℕ → A
update₂ f i s a j t = if j == i && t == s then a else f j t

pub init : ℕ → ℕ → WheelTimer
init interval max_slots = record {
  cur_frame = 0;
  interval = interval;
  max_slots = max_slots;
  next_timer_id = 0;
  cur_slot_index = λ i. 0;
  slots = λ i s. [];
  tasks = λ p. none;
  next_address = 0;
  id_2_timer_task = λ id. none;
  left_ms = 0;
  ms_since_start = 0;
  fired = [];
  dangling = false;
  failed = false;
}

-- The loop of calculate_slot_index at wheel `i`, with as many wheels above it as the first argument
-- says: the wheel, and `slot_count` there.
pub find_wheel : ℕ → ℕ → ℕ → ℕ → ℕ × ℕ
find_wheel zero max_slots i slot_count = (i, slot_count)
find_wheel (suc above) max_slots i slot_count =
    let next = find_wheel above max_slots (i + 1) (slot_count / max_slots) in
    if leb max_slots slot_count then next else (i, slot_count)

-- The wheel and the slot, or `none` where the code returns false.
pub calculate_slot_index : WheelTimer → ℕ → Option (ℕ × ℕ)
unfolding find_wheel
calculate_slot_index w frame_count =
    let (i, slot_count) = find_wheel (wheel_count - 1) w.max_slots 0 frame_count in
    if leb w.max_slots slot_count
    then none
    else some (i, (w.cur_slot_index i + slot_count) % w.max_slots)

abbrev pub push_back : ℕ → ℕ → ℕ → WheelTimer → WheelTimer
push_back i s p w = record w { slots = update₂ w.slots i s (w.slots i s ++ p ∷ []) }

abbrev pub delay_frames : WheelTimer → ℕ → ℕ
delay_frames w ms = max (ms / w.interval) 1

abbrev pub new_task : WheelTimer → ℕ → ℕ → Bool → TimerTask
new_task w ms cb is_repeat = record {
  interval = ms;
  timeout_ms = w.cur_frame * w.interval + ms;
  timeout_frame = w.cur_frame + delay_frames w ms;
  callback = cb;
  is_repeat = is_repeat;
  is_canceled = false;
}

-- `id_2_timer_task_.insert`, which changes nothing where the id is there; then the assert fails.
insert_id : ℕ → WheelTimer → WheelTimer
insert_id p w = elim (w.id_2_timer_task w.next_timer_id) [
  | none ↦ record w { id_2_timer_task = update w.id_2_timer_task w.next_timer_id (some p) }
  | some q ↦ record w { failed = true }
]

-- The result is the id, or `none` for -1.
pub add_timer : WheelTimer → ℕ → ℕ → Bool → WheelTimer × Option ℕ
unfolding insert_id
add_timer w ms cb is_repeat = elim (calculate_slot_index w (delay_frames w ms)) [
  | none ↦ (w, none)
  | some (i, s) ↦
      let p = w.next_address in
      let added : WheelTimer = record (push_back i s p w) {
        tasks = update w.tasks p (some (new_task w ms cb is_repeat));
        next_address = p + 1;
      } in
      (record (insert_id p added) { next_timer_id = w.next_timer_id + 1 }, some w.next_timer_id)
]

-- `task->is_canceled = true`
cancel : WheelTimer → ℕ → WheelTimer
cancel w p = elim (w.tasks p) [
  | none ↦ record w { dangling = true }
  | some task ↦ record w { tasks = update w.tasks p (some (record task { is_canceled = true })) }
]

pub del_timer : WheelTimer → ℕ → WheelTimer
unfolding cancel
del_timer w id = elim (w.id_2_timer_task id) [
  | none ↦ w
  | some p ↦ cancel (record w { id_2_timer_task = update w.id_2_timer_task id none }) p
]

-- `timeout_frame - cur_frame` of size_t.
abbrev pub frames_left : WheelTimer → TimerTask → ℕ
frames_left w task = (task.timeout_frame + 2 ^ 64 - w.cur_frame) % 2 ^ 64

pub place : WheelTimer → ℕ → ℕ → WheelTimer
place w p delay = elim (calculate_slot_index w delay) [
  | none ↦ record w { failed = true }
  | some (i, s) ↦ push_back i s p w
]

pub move_one : WheelTimer → ℕ → WheelTimer
unfolding place
move_one w p = elim (w.tasks p) [
  | none ↦ record w { failed = true }
  | some task ↦ place w p (frames_left w task)
]

pub move_all : List ℕ → WheelTimer → WheelTimer
unfolding move_one
move_all [] w = w
move_all (p ∷ todo) w = move_all todo (move_one w p)

abbrev pub clear : ℕ → ℕ → WheelTimer → WheelTimer
clear i s w = record w { slots = update₂ w.slots i s [] }

pub move_timers : WheelTimer → ℕ → ℕ → WheelTimer
unfolding move_all
move_timers w i s = clear i s (move_all (w.slots i s) w)

-- std::sort by timeout_ms. Tasks of one timeout may come in any order; here they keep theirs.
pub timeout_of : WheelTimer → ℕ → ℕ
timeout_of w p = elim (w.tasks p) [ none ↦ 0 | some task ↦ task.timeout_ms ]

pub insert_by : (ℕ → ℕ) → ℕ → List ℕ → List ℕ
insert_by key p [] = p ∷ []
insert_by key p (q ∷ l) = if leb (key p) (key q) then p ∷ q ∷ l else q ∷ insert_by key p l

pub sort_by : (ℕ → ℕ) → List ℕ → List ℕ
unfolding insert_by
sort_by key [] = []
sort_by key (p ∷ l) = insert_by key p (sort_by key l)

-- What a callback can do with the timer.
pub data Call : Type 0 where
  adds : ℕ → ℕ → Bool → Call
  dels : ℕ → Call

pub perform : List Call → WheelTimer → WheelTimer
unfolding add_timer del_timer
perform [] w = w
perform (adds ms cb is_repeat ∷ calls) w = perform calls (add_timer w ms cb is_repeat).0
perform (dels id ∷ calls) w = perform calls (del_timer w id)

-- After the callback: a repeating task is placed again, any other is deleted.
pub finish : WheelTimer → ℕ → TimerTask → WheelTimer
finish w p task =
    let delay = delay_frames w task.interval in
    let again : WheelTimer = elim (calculate_slot_index w delay) [
      | none ↦ record w { failed = true }
      | some (i, s) ↦ record (push_back i s p w) {
        tasks = update w.tasks p (
            some (record task {
              timeout_frame = w.cur_frame + delay;
              timeout_ms = w.cur_frame * w.interval + task.interval;
            }));
      }
    ] in
    if task.is_repeat then again else record w { tasks = update w.tasks p none }

-- The task is read again after the callback, which may have cancelled it.
pub after_callback : WheelTimer → ℕ → WheelTimer
unfolding finish
after_callback w p = elim (w.tasks p) [
  | none ↦ record w { failed = true }
  | some task ↦ finish w p task
]

module _ (script : ℕ → WheelTimer → List Call) where
  pub invoke : WheelTimer → TimerTask → WheelTimer
  unfolding perform
  invoke w task =
      let now : Firing = record {
        callback = task.callback;
        due = task.timeout_frame;
        frame = w.cur_frame;
      } in
      perform (script task.callback w) (record w { fired = now ∷ w.fired })

  pub run_one : WheelTimer → ℕ → WheelTimer
  unfolding invoke after_callback
  run_one w p = elim (w.tasks p) [
    | none ↦ record w { failed = true }
    | some task ↦
        if task.is_canceled
        then record w { tasks = update w.tasks p none }
        else after_callback (invoke w task) p
  ]

  pub run_all : List ℕ → WheelTimer → WheelTimer
  unfolding run_one
  run_all [] w = w
  run_all (p ∷ todo) w = run_all todo (run_one w p)

  pub run_timers : WheelTimer → ℕ → ℕ → WheelTimer
  unfolding run_all timeout_of sort_by
  run_timers w i s =
      let slot = sort_by (timeout_of w) (w.slots i s) in
      clear i s (run_all slot (record w { slots = update₂ w.slots i s slot }))

  -- One round of the loop of tick: wheel `i` turns, and the slot under its hand is worked off.
  pub turn_wheel : ℕ → WheelTimer → WheelTimer
  unfolding run_timers move_timers
  turn_wheel i w =
      let s = (w.cur_slot_index i + 1) % w.max_slots in
      let turned = record w { cur_slot_index = update w.cur_slot_index i s } in
      if ltb 0 i then move_timers turned i s else run_timers turned i s

  -- The loop of tick at wheel `i`, over the wheels that are left.
  pub tick_from : ℕ → ℕ → WheelTimer → WheelTimer
  unfolding turn_wheel
  tick_from zero i w = w
  tick_from (suc more) i w =
      let w' = turn_wheel i w in
      let next = tick_from more (i + 1) w' in if w'.cur_slot_index i == 0 then next else w'

  pub tick : WheelTimer → WheelTimer
  unfolding tick_from
  tick w = tick_from wheel_count 0 w

  -- `while (left_ms_ >= interval_)`
  pub update_loop : ℕ → WheelTimer → WheelTimer
  unfolding tick
  update_loop zero w = w
  update_loop (suc fuel) w =
      let more =
        update_loop fuel
          (tick (record w { left_ms = w.left_ms - w.interval; cur_frame = w.cur_frame + 1 })) in
      if leb w.interval w.left_ms then more else w

  -- `duration` is the time since the last call, in milliseconds. Each round takes `interval` of it, so
  -- for an interval of at least 1 as many rounds as milliseconds are enough.
  pub advance : WheelTimer → ℕ → WheelTimer
  unfolding update_loop
  advance w duration =
      let left = w.left_ms + duration in
      update_loop left (record w { left_ms = left; ms_since_start = w.ms_since_start + duration })
