-- ===== src/QueueTimer/Drop.antt =====
-- A task at the top of the queue that is not yet due.
use archai_engine.Shared.{
  ℕ, zero, suc, ◌+◌, ◌<◌, ◌≡◌, refl, ◌∙◌, true, false, Option, none, some, List, [], ◌∷◌, ◌++◌, leb,
  ◌==◌, if◌then◌else◌, arith, Bool-cases, Option-cases, inl, inr,
}
use archai_engine.Shared.Options.{◌>>=◌}
use archai_engine.Shared.Maps.{find, elem}
use archai_engine.QueueTimer.{
  TimerTask, QueueTimer, TimerCall, adds, cancels, time_of, take_top, add_task, cancel_task,
  timer_call, timer_calls, update,
}

-- How often a number is in a list.
unfoldable pub count : ℕ → List ℕ → ℕ
count x [] = 0
count x (a ∷ l) = (if a == x then 1 else 0) + count x l

count-append : (x : ℕ) (l m : List ℕ) → count x (l ++ m) ≡ count x l + count x m
unfolding count
count-append x [] m = omega arith
count-append x (a ∷ l) m = omega (arith, count-append x l m)

abbrev counted : ℕ → Option (ℕ × List ℕ) → ℕ
counted x none = 0
counted x (some (a, rest)) = count x (a ∷ rest)

counted-take_top : (time : ℕ → ℕ) (l : List ℕ) (x : ℕ) → counted x (take_top time l) ≡ count x l
unfolding take_top count
counted-take_top time [] x = refl
counted-take_top time (a ∷ l) x =
    let rest = counted-take_top time l x in
    elim (Option-cases (take_top time l)) [
      | inl e ↦ let empty : 0 ≡ count x l = rw e at rest in rw e (omega arith)
      | inr ((b, others), e) ↦
          let same : count x (b ∷ others) ≡ count x l = rw e at rest in
          elim (Bool-cases (leb (time a) (time b))) [
            | inl first ↦ rw (e, first) refl
            | inr after ↦ rw (e, after) (omega arith)
          ]
    ]

-- A task that is in no queue, and whose id is given to no other.
pub record Gone (tid runs : ℕ) (t : QueueTimer) : Type 0 where
  out : count tid t.task_queue ≡ 0
  known : tid < t.next_task_id
  before : count tid t.fired ≡ runs

add_task-Gone :
    (now : ℕ) (t : QueueTimer) (tid runs delay_ms cb : ℕ)
    → Gone tid runs t
    → Gone tid runs (add_task now t delay_ms cb)
unfolding add_task count
add_task-Gone now t tid runs delay_ms cb gone =
    let other : (t.next_task_id == tid) ≡ false = ground (arith, gone.known) in
    record {
      out = count-append tid t.task_queue (t.next_task_id ∷ []) ∙ rw (other, gone.out) refl;
      known = omega (arith, gone.known);
      before = gone.before;
    }

cancel_task-Gone :
    (t : QueueTimer) (tid runs other : ℕ) → Gone tid runs t → Gone tid runs (cancel_task t other)
unfolding cancel_task
cancel_task-Gone t tid runs other gone = elim (Option-cases (find other t.tasks)) [
  | inl e ↦ rw (e, cancel_task) gone
  | inr (task, e) ↦ elim (Bool-cases (elem other t.task_map)) [
    | inl c ↦
        rw (e, c, cancel_task) (record { out = gone.out; known = gone.known; before = gone.before })
    | inr c ↦ rw (e, c, cancel_task) gone
  ]
]

timer_calls-Gone :
    (now : ℕ) (t : QueueTimer) (tid runs : ℕ) (calls : List TimerCall)
    → Gone tid runs t
    → Gone tid runs (timer_calls now t calls)
unfolding timer_calls timer_call
timer_calls-Gone now t tid runs [] gone = gone
timer_calls-Gone now t tid runs (adds delay_ms cb ∷ calls) gone =
    timer_calls-Gone now (add_task now t delay_ms cb) tid runs calls
      (add_task-Gone now t tid runs delay_ms cb gone)
timer_calls-Gone now t tid runs (cancels other ∷ calls) gone =
    timer_calls-Gone now (cancel_task t other) tid runs calls
      (cancel_task-Gone t tid runs other gone)

-- A call of the timer, or an update with fuel for the callbacks that it runs.
pub data TimerUse : Type 0 where
  updates : ℕ → ℕ → TimerUse
  calls : ℕ → TimerCall → TimerUse

-- The callback of the task has run so often, where the uses come to an end.
abbrev pub HasRun : ℕ → ℕ → Option QueueTimer → Type 0
HasRun tid runs none = Unit
HasRun tid runs (some t) = count tid t.fired ≡ runs

module _ (script : ℕ → List TimerCall) where
  unfoldable pub timer_use : QueueTimer → TimerUse → Option QueueTimer
  unfolding update timer_call
  timer_use t (updates fuel now) = update script fuel now t
  timer_use t (calls now c) = some (timer_call now t c)

  unfoldable pub timer_uses : QueueTimer → List TimerUse → Option QueueTimer
  unfolding timer_use
  timer_uses t [] = some t
  timer_uses t (u ∷ uses) = do t' ← timer_use t u; timer_uses t' uses

  abbrev Kept : ℕ → ℕ → Option QueueTimer → Type 0
  Kept tid runs none = Unit
  Kept tid runs (some t) = Gone tid runs t

  idle-Kept :
      (queue : List ℕ) (now : ℕ) (t : QueueTimer) (tid runs : ℕ)
      → t.task_queue ≡ queue
      → Gone tid runs t
      → Kept tid runs (update script zero now t)
  unfolding update
  idle-Kept [] now t tid runs e gone = rw (e, update) gone
  idle-Kept (a ∷ l) now t tid runs e gone = rw (e, update) tt

  update-Kept :
      (fuel now : ℕ) (t : QueueTimer) (tid runs : ℕ)
      → Gone tid runs t
      → Kept tid runs (update script fuel now t)
  unfolding update count
  update-Kept zero now t tid runs gone = idle-Kept t.task_queue now t tid runs refl gone
  update-Kept (suc fuel) now t tid runs gone =
      let counts = counted-take_top (time_of t.tasks) t.task_queue tid in
      elim (Option-cases (take_top (time_of t.tasks) t.task_queue)) [
        | inl e ↦ rw (e, update) gone
        | inr ((top, rest), e) ↦ elim (Option-cases (find top t.tasks)) [
          | inl f ↦ rw (e, f, update) tt
          | inr (task, f) ↦
              let none_here : count tid (top ∷ rest) ≡ 0 = (rw e at counts) ∙ gone.out in
              let other : (top == tid) ≡ false = ground (arith, none_here) in
              let out' : count tid rest ≡ 0 = omega (arith, rw other at none_here) in
              let ran : QueueTimer = record t { task_queue = rest; fired = top ∷ t.fired } in
              let ran_gone : Gone tid runs ran = record {
                out = out';
                known = gone.known;
                before = rw other (omega (arith, gone.before));
              } in
              elim (Bool-cases (leb task.timestamp now)) [
                | inr c ↦
                    rw (e, f, c, update)
                      (record { out = out'; known = gone.known; before = gone.before })
                | inl c ↦ elim (Bool-cases task.is_cancel) [
                  | inl d ↦
                      rw (e, f, c, d, update)
                        (record { out = out'; known = gone.known; before = gone.before })
                  | inr d ↦
                      rw (e, f, c, d, update)
                        (update-Kept fuel now (timer_calls now ran (script task.callback)) tid runs
                          (timer_calls-Gone now ran tid runs (script task.callback) ran_gone))
                ]
              ]
        ]
      ]

  timer_uses-Kept :
      (t : QueueTimer) (uses : List TimerUse) (tid runs : ℕ)
      → Gone tid runs t
      → Kept tid runs (timer_uses t uses)
  unfolding timer_uses timer_use
  timer_uses-Kept t [] tid runs gone = gone
  timer_uses-Kept t (updates fuel now ∷ uses) tid runs gone =
      let kept = update-Kept fuel now t tid runs gone in
      elim (Option-cases (update script fuel now t)) [
        | inl e ↦ rw e tt
        | inr (t', e) ↦ rw e (timer_uses-Kept t' uses tid runs (rw e at kept))
      ]
  timer_uses-Kept t (calls now c ∷ uses) tid runs gone =
      timer_uses-Kept (timer_call now t c) uses tid runs
        (timer_calls-Gone now t tid runs (c ∷ []) gone)

  Kept-HasRun : (tid runs : ℕ) (o : Option QueueTimer) → Kept tid runs o → HasRun tid runs o
  Kept-HasRun tid runs none kept = tt
  Kept-HasRun tid runs (some t) kept = kept.before

  -- The task at the top of the queue stands there once, and is not yet due. Then update returns and runs no
  -- callback, but the task is no longer in the queue: whatever calls of the timer and updates follow, until one of them
  -- fails or does not end, its callback is not run, also when its time has come.
  pub update-drops :
      (fuel now : ℕ) (t : QueueTimer) (top : ℕ) (rest : List ℕ) (task : TimerTask)
      (uses : List TimerUse)
      → take_top (time_of t.tasks) t.task_queue ≡ some (top, rest)
      → find top t.tasks ≡ some task
      → now < task.timestamp
      → count top t.task_queue ≡ 1
      → top < t.next_task_id
      → (t' : QueueTimer) × (update script (suc fuel) now t ≡ some t')
        × (t'.fired ≡ t.fired)
        × (count top t'.task_queue ≡ 0)
        × HasRun top (count top t.fired) (timer_uses t' uses)
  unfolding update count
  update-drops fuel now t top rest task uses at is early once known =
      let counts = counted-take_top (time_of t.tasks) t.task_queue top in
      let same : (top == top) ≡ true = ground arith in
      let all : count top (top ∷ rest) ≡ count top t.task_queue = rw at at counts in
      let out : count top rest ≡ 0 = omega (arith, rw same at all) in
      let late : leb task.timestamp now ≡ false = ground arith in
      let t' : QueueTimer = record t { task_queue = rest } in
      (
        t',
        rw (at, is, late, update) refl,
        refl,
        out,
        Kept-HasRun top (count top t.fired) (timer_uses t' uses) (
            timer_uses-Kept t' uses top (count top t.fired)
              (record { out = out; known = known; before = refl })),
      )
