-- ===== src/WheelTimer/Steps.antt =====
-- What the calls and the two loops of a tick do to the invariant.
use archai_engine.Shared.{
  ℕ, ◌+◌, ◌-◌, ◌*◌, ◌%◌, ◌^◌, ◌≤◌, ◌<◌, ◌≡◌, ◌⊎◌, inl, inr, refl, ◌∙◌, Bool, true, some, none, List,
  [], ◌∷◌, arith, Bool-cases, Option-cases, Option,
}
use native.Mathlib.Decide.{ℕ_discrete, dec_lt}
use archai_engine.WheelTimer.{
  WheelTimer, TimerTask, Firing, Call, adds, dels, update, update₂, delay_frames, new_task,
  add_timer, insert_id, del_timer, place, move_one, frames_left, perform, finish, after_callback,
  invoke, run_one,
}
use archai_engine.WheelTimer.Slots.{calculate-PlacedAt, calculate-none}
use archai_engine.WheelTimer.Store.{In, Loop, Free, Retasks, Loop-retask}
use archai_engine.WheelTimer.Push.{Others, Loop-push, Loop-drop, Loop-pop}

update-Others : (w : WheelTimer) (p : ℕ) (x : Option TimerTask) → Others w (update w.tasks p x) p
update-Others w p x q ne = ground arith

ids-new :
    (w : WheelTimer)
    → ((id : ℕ) → w.next_timer_id ≤ id → w.id_2_timer_task id ≡ none)
    → (q : ℕ) → w.next_timer_id + 1 ≤ q
    → update w.id_2_timer_task w.next_timer_id (some w.next_address) q ≡ none
ids-new w fresh q more = rw (fresh q (omega arith)) (ground arith)

ids-gone :
    (w : WheelTimer) (id q : ℕ)
    → w.id_2_timer_task q ≡ none
    → update w.id_2_timer_task id none q ≡ none
ids-gone w id q e = ground arith

cancel_Retasks :
    (w : WheelTimer) (p : ℕ) (task : TimerTask)
    → w.tasks p ≡ some task
    → Retasks w (update w.tasks p (some (record task { is_canceled = true })))
cancel_Retasks w p task e q task' e' = elim (ℕ_discrete q p) [
  | yes same ↦ (record task { is_canceled = true }, ground arith, ground arith, ground arith)
  | no ne ↦ (task', ground arith, refl, refl)
]

module _ {hi hs : ℕ} {P : ℕ → Type 0} {b c : ℕ} where
  Free-fresh :
      (w : WheelTimer) (todo : List ℕ)
      → Loop hi hs P b c w todo
      → Free (update₂ w.slots hi hs []) w.next_address × (¬ In w.next_address todo)
  Free-fresh w todo l = (
    (λ j u h. absurd (omega (arith, (l.inv.standing j u w.next_address h).1))),
    (λ h. absurd (omega (arith, (l.pending.standing w.next_address h).1))),
  )

  add_timer-Loop :
      (w : WheelTimer) (todo : List ℕ) (ms cb : ℕ) (is_repeat : Bool)
      → Loop hi hs P b c w todo
      → Loop hi hs P b c (add_timer w ms cb is_repeat).0 todo
  unfolding add_timer insert_id
  add_timer-Loop w todo ms cb is_repeat l =
      elim (dec_lt (delay_frames w ms) (w.max_slots * (w.max_slots * w.max_slots))) [
        | no long ↦
            rw
              (
                (calculate-none w (delay_frames w ms) l.inv.clock.positive).1 (omega arith),
                add_timer,
              )
              l
        | yes fits ↦
            let d = delay_frames w ms in
            let ((i, s), (e, placed, _)) =
              calculate-PlacedAt b c w l.inv.clock d (w.cur_frame + d) refl fits
                (inl (omega arith)) in
            let (free, apart) = Free-fresh w todo l in
            rw (e, add_timer, insert_id, l.inv.fresh w.next_timer_id (omega arith))
              (Loop-push w i s w.next_address _ _ (w.next_address + 1) (w.next_timer_id + 1)
                (update-Others w w.next_address _) (omega arith)
                (λ q more. ids-new w l.inv.fresh q more) l (new_task w ms cb is_repeat) free apart
                (omega arith) (ground arith) placed fits)
      ]

  del_timer-Loop :
      (w : WheelTimer) (todo : List ℕ) (id : ℕ)
      → Loop hi hs P b c w todo
      → Loop hi hs P b c (del_timer w id) todo
  unfolding del_timer
  del_timer-Loop w todo id l = elim (Option-cases (w.id_2_timer_task id)) [
    | inl e ↦ rw (e, del_timer) l
    | inr (p, e) ↦ elim (Option-cases (w.tasks p)) [
      | inl dead ↦
          rw (e, del_timer, dead)
            (Loop-retask w w.tasks _ true w.fired (λ q task h. (task, h, refl, refl))
              (ids-gone w id) l.inv.log l)
      | inr (task, live) ↦
          rw (e, del_timer, live)
            (Loop-retask w _ _ w.dangling w.fired (cancel_Retasks w p task live) (ids-gone w id)
              l.inv.log l)
    ]
  ]

  pub perform-Loop :
      (calls : List Call) (w : WheelTimer) (todo : List ℕ)
      → Loop hi hs P b c w todo
      → Loop hi hs P b c (perform calls w) todo
  unfolding perform
  perform-Loop [] w todo l = l
  perform-Loop (adds ms cb is_repeat ∷ calls) w todo l =
      perform-Loop calls (add_timer w ms cb is_repeat).0 todo
        (add_timer-Loop w todo ms cb is_repeat l)
  perform-Loop (dels id ∷ calls) w todo l =
      perform-Loop calls (del_timer w id) todo (del_timer-Loop w todo id l)

-- What the loops leave alone: the frame, the size and the hands of the wheels.
pub record Keeps (w w' : WheelTimer) : Type 0 where
  pub frame : w'.cur_frame ≡ w.cur_frame
  pub size : w'.max_slots ≡ w.max_slots
  pub hands : w'.cur_slot_index ≡ w.cur_slot_index

pub Keeps-refl : (w : WheelTimer) → Keeps w w
Keeps-refl w = record { frame = refl; size = refl; hands = refl }

pub Keeps-trans : {u v w : WheelTimer} → Keeps u v → Keeps v w → Keeps u w
Keeps-trans k l = record {
  frame = l.frame ∙ k.frame;
  size = l.size ∙ k.size;
  hands = l.hands ∙ k.hands;
}

add_timer-Keeps :
    (w : WheelTimer) (ms cb : ℕ) (is_repeat : Bool) → Keeps w (add_timer w ms cb is_repeat).0
unfolding add_timer
add_timer-Keeps w ms cb is_repeat = ground arith

del_timer-Keeps : (w : WheelTimer) (id : ℕ) → Keeps w (del_timer w id)
unfolding del_timer
del_timer-Keeps w id = ground arith

pub perform-Keeps : (calls : List Call) (w : WheelTimer) → Keeps w (perform calls w)
unfolding perform
perform-Keeps [] w = Keeps-refl w
perform-Keeps (adds ms cb is_repeat ∷ calls) w =
    Keeps-trans (add_timer-Keeps w ms cb is_repeat)
      (perform-Keeps calls (add_timer w ms cb is_repeat).0)
perform-Keeps (dels id ∷ calls) w =
    Keeps-trans (del_timer-Keeps w id) (perform-Keeps calls (del_timer w id))

after_callback-Keeps : (w : WheelTimer) (p : ℕ) → Keeps w (after_callback w p)
unfolding after_callback
after_callback-Keeps w p = ground arith

pub move_one-Keeps : (w : WheelTimer) (p : ℕ) → Keeps w (move_one w p)
unfolding move_one
move_one-Keeps w p = ground arith

-- Task `p` is given a new due frame, `d` frames from now, and placed; it stands in no slot.
place_again :
    {hi hs : ℕ} {P : ℕ → Type 0} {b c : ℕ} (w : WheelTimer) (p : ℕ) (todo : List ℕ)
    (task : TimerTask)
    → Loop hi hs P b c w todo
    → Free (update₂ w.slots hi hs []) p
    → ¬ In p todo
    → p < w.next_address
    → delay_frames w task.interval < w.max_slots * (w.max_slots * w.max_slots)
    → task.is_repeat ≡ true
    → Loop hi hs P b c (finish w p task) todo
unfolding finish
place_again {b = b} {c} w p todo task l free apart lt fits again =
    let d = delay_frames w task.interval in
    let ((i, s), (e, placed, _)) =
      calculate-PlacedAt b c w l.inv.clock d (w.cur_frame + d) refl fits (inl (omega arith)) in
    rw (again, e)
      (Loop-push w i s p _ w.id_2_timer_task w.next_address w.next_timer_id (update-Others w p _)
        (omega arith) l.inv.fresh l
        (record task {
          timeout_frame = w.cur_frame + d;
          timeout_ms = w.cur_frame * w.interval + task.interval;
        })
        free apart lt (ground arith) placed fits)

finish-Loop :
    {hi hs : ℕ} {P : ℕ → Type 0} {b c : ℕ} (w : WheelTimer) (p : ℕ) (todo : List ℕ)
    → Loop hi hs P b c w (p ∷ todo)
    → Loop hi hs P b c (after_callback w p) todo
unfolding after_callback
finish-Loop w p todo l =
    let (rest, free, apart, (_, lt, task, e, _, fits)) = Loop-pop w p todo l in
    elim (Bool-cases task.is_repeat) [
      | inl again ↦ rw (e, after_callback) (place_again w p todo task rest free apart lt fits again)
      | inr once ↦
          rw (e, after_callback, once)
            (Loop-drop w p (update w.tasks p none) (update-Others w p none) rest free apart)
    ]

-- The tasks that a tick finds in the slot under the first hand.
abbrev pub Due : ℕ → ℕ → ℕ → Type 0
Due now n t = (now ≡ t) ⊎ ((now ≡ t + n) × (t % n ≡ 0))

module _ (script : ℕ → WheelTimer → List Call) where
  invoke-Loop :
      {hi hs b c : ℕ} (w : WheelTimer) (todo : List ℕ) (task : TimerTask)
      → Due w.cur_frame w.max_slots task.timeout_frame
      → Loop hi hs (Due w.cur_frame w.max_slots) b c w todo
      → Loop hi hs (Due w.cur_frame w.max_slots) b c (invoke script w task) todo
  unfolding invoke
  invoke-Loop w todo task due l = perform-Loop (script task.callback w) _ todo (
      Loop-retask w w.tasks w.id_2_timer_task w.dangling _ (λ q t h. (t, h, refl, refl)) (λ q h. h)
        (due, l.inv.log) l)

  invoke-Keeps : (w : WheelTimer) (task : TimerTask) → Keeps w (invoke script w task)
  unfolding invoke
  invoke-Keeps w task =
      let now : Firing = record {
        callback = task.callback;
        due = task.timeout_frame;
        frame = w.cur_frame;
      } in
      let k = perform-Keeps (script task.callback w) (record w { fired = now ∷ w.fired }) in
      record { frame = k.frame; size = k.size; hands = k.hands }

  pub run_one-Loop :
      {hi hs b c : ℕ} (w : WheelTimer) (p : ℕ) (todo : List ℕ)
      → Loop hi hs (Due w.cur_frame w.max_slots) b c w (p ∷ todo)
      → Loop hi hs (Due w.cur_frame w.max_slots) b c (run_one script w p) todo
  unfolding run_one
  run_one-Loop w p todo l =
      let (rest, free, apart, (_, lt, task, e, due, fits)) = Loop-pop w p todo l in
      elim (Bool-cases task.is_canceled) [
        | inl canceled ↦
            rw (e, run_one, canceled)
              (Loop-drop w p (update w.tasks p none) (update-Others w p none) rest free apart)
        | inr live ↦
            rw (e, run_one, live)
              (finish-Loop (invoke script w task) p todo (invoke-Loop w (p ∷ todo) task due l))
      ]

  pub run_one-Keeps : (w : WheelTimer) (p : ℕ) → Keeps w (run_one script w p)
  unfolding run_one
  run_one-Keeps w p = elim (Option-cases (w.tasks p)) [
    | inl e ↦ rw (e, run_one) (record { frame = refl; size = refl; hands = refl })
    | inr (task, e) ↦ elim (Bool-cases task.is_canceled) [
      | inl canceled ↦
          rw (e, run_one, canceled) (record { frame = refl; size = refl; hands = refl })
      | inr live ↦
          rw (e, run_one, live)
            (Keeps-trans (invoke-Keeps w task) (after_callback-Keeps (invoke script w task) p))
    ]
  ]

-- The tasks that a tick finds in the slot under a higher hand.
abbrev pub Movable : ℕ → ℕ → ℕ → Type 0
Movable now n t = (now ≤ t) × (t < now + n * (n * n))

frames_left-sub :
    (w : WheelTimer) (task : TimerTask)
    → w.max_slots * (w.max_slots * w.max_slots) ≤ 2 ^ 64
    → Movable w.cur_frame w.max_slots task.timeout_frame
    → frames_left w task ≡ task.timeout_frame - w.cur_frame
frames_left-sub w task small m = omega arith

pub move_one-Loop :
    {hi hs b c : ℕ} (w : WheelTimer) (p : ℕ) (todo : List ℕ)
    → w.cur_frame % w.max_slots ≡ 0
    → Loop hi hs (Movable w.cur_frame w.max_slots) b c w (p ∷ todo)
    → Loop hi hs (Movable w.cur_frame w.max_slots) b c (move_one w p) todo
unfolding move_one
move_one-Loop {b = b} {c} w p todo whole l =
    let (rest, free, apart, (_, lt, task, e, m, fits)) = Loop-pop w p todo l in
    let left = frames_left-sub w task l.inv.clock.small m in
    let t = task.timeout_frame in
    let late : (0 < t - w.cur_frame) ⊎ (t % w.max_slots ≡ 0) = elim (dec_lt w.cur_frame t) [
      | yes later ↦ inl (omega arith)
      | no now ↦ let same : t ≡ w.cur_frame = omega arith in inr (rw same whole)
    ] in
    let ((i, s), (found, placed, _)) =
      calculate-PlacedAt b c w l.inv.clock (t - w.cur_frame) t (omega arith) (omega arith) late in
    rw (e, move_one, left, place, found)
      (Loop-push w i s p w.tasks w.id_2_timer_task w.next_address w.next_timer_id (λ q ne. refl)
        (omega arith) rest.inv.fresh rest task free apart lt e placed fits)
