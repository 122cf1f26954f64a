-- ===== src/WheelTimer/Tick.antt =====
-- A tick, and the time that passes: the invariant is kept, so every callback runs on time.
use archai_engine.Shared.{ℕ, ◌+◌, ◌*◌, ◌%◌, ◌≡◌, sym, List, [], ◌∷◌, arith}
use mathlib.Core.Path.{subst, fun_ext}
use archai_engine.WheelTimer.{
  WheelTimer, Call, update₂, clear, timeout_of, sort_by, move_one, run_one, move_all, move_timers,
  run_all, run_timers, turn_wheel,
}
use archai_engine.WheelTimer.Store.{Inv, Loop}
use archai_engine.WheelTimer.Steps.{
  Due, Movable, Keeps, Keeps-refl, Keeps-trans, run_one-Loop, run_one-Keeps, move_one-Loop,
  move_one-Keeps,
}
use archai_engine.WheelTimer.Turn.{
  In-sort_by, Distinct-sort_by, next_frame, first_hand, turn_hand, first-Loop,
}
use archai_engine.WheelTimer.Higher.{hand_after, second-Loop, third-Loop}

update_twice :
    (i s : ℕ) (f : ℕ → ℕ → List ℕ) (l x : List ℕ)
    → update₂ (update₂ f i s l) i s x ≡ update₂ f i s x
update_twice i s f l x = fun_ext (λ j. fun_ext (λ u. ground arith))

module _ {i s : ℕ} {P : ℕ → Type 0} {b c : ℕ} where
  Loop-sort :
      (w : WheelTimer) (key : ℕ → ℕ) (todo l : List ℕ)
      → Loop i s P b c w todo
      → Loop i s P b c (record w { slots = update₂ w.slots i s l }) (sort_by key todo)
  Loop-sort w key todo l v = record {
    loc = v.loc;
    inv = rw (update_twice i s w.slots l []) (record {
      clock = record {
        positive = v.inv.clock.positive;
        small = v.inv.clock.small;
        hand0 = v.inv.clock.hand0;
        hand1 = v.inv.clock.hand1;
        hand2 = v.inv.clock.hand2;
        turned1 = v.inv.clock.turned1;
        turned2 = v.inv.clock.turned2;
      };
      standing = v.inv.standing;
      distinct = v.inv.distinct;
      log = v.inv.log;
      sound = v.inv.sound;
      fresh = v.inv.fresh;
    });
    pending = record {
      standing = λ p h. v.pending.standing p (In-sort_by key p todo h);
      distinct = Distinct-sort_by key todo v.pending.distinct;
    };
    hand = v.hand;
  }

  Loop-clear :
      (w : WheelTimer)
      → Loop i s P b c w []
      → (loc : ℕ → ℕ × ℕ) × Inv loc b c (clear i s w) (clear i s w).slots
  Loop-clear w v = (
    v.loc,
    record {
      clock = record {
        positive = v.inv.clock.positive;
        small = v.inv.clock.small;
        hand0 = v.inv.clock.hand0;
        hand1 = v.inv.clock.hand1;
        hand2 = v.inv.clock.hand2;
        turned1 = v.inv.clock.turned1;
        turned2 = v.inv.clock.turned2;
      };
      standing = v.inv.standing;
      distinct = v.inv.distinct;
      log = v.inv.log;
      sound = v.inv.sound;
      fresh = v.inv.fresh;
    },
  )

module _ {i s b c : ℕ} where
  -- The statement about due frames, at another timer with the same frame and size.
  Loop-at :
      (Q : ℕ → ℕ → ℕ → Type 0) (u w : WheelTimer) (todo : List ℕ)
      → Keeps u w
      → Loop i s (Q u.cur_frame u.max_slots) b c w todo
      → Loop i s (Q w.cur_frame w.max_slots) b c w todo
  Loop-at Q u w todo k l =
      subst (λ (now : ℕ). Loop i s (Q now w.max_slots) b c w todo) (sym k.frame)
        (subst (λ (n : ℕ). Loop i s (Q u.cur_frame n) b c w todo) (sym k.size) l)

  move_all-Loop :
      (todo : List ℕ) (w : WheelTimer)
      → w.cur_frame % w.max_slots ≡ 0
      → Loop i s (Movable w.cur_frame w.max_slots) b c w todo
      → (Keeps w (move_all todo w))
        × Loop i s
            (Movable (move_all todo w).cur_frame (move_all todo w).max_slots)
            b
            c
            (move_all todo w)
            []
  unfolding move_all
  move_all-Loop [] w whole l = (Keeps-refl w, l)
  move_all-Loop (p ∷ todo) w whole l =
      let k = move_one-Keeps w p in
      let (k', l') =
        move_all-Loop todo (move_one w p) (rw (k.frame, k.size) whole)
          (Loop-at Movable w (move_one w p) todo k (move_one-Loop w p todo whole l)) in
      (Keeps-trans k k', l')

  module _ (script : ℕ → WheelTimer → List Call) where
    run_all-Loop :
        (todo : List ℕ) (w : WheelTimer)
        → Loop i s (Due w.cur_frame w.max_slots) b c w todo
        → (Keeps w (run_all script todo w))
          × Loop i s
              (Due (run_all script todo w).cur_frame (run_all script todo w).max_slots)
              b
              c
              (run_all script todo w)
              []
    unfolding run_all
    run_all-Loop [] w l = (Keeps-refl w, l)
    run_all-Loop (p ∷ todo) w l =
        let k = run_one-Keeps script w p in
        let (k', l') =
          run_all-Loop todo (run_one script w p)
            (Loop-at Due w (run_one script w p) todo k (run_one-Loop script w p todo l)) in
        (Keeps-trans k k', l')

-- The loops of run_timers and move_timers, whole.
abbrev pub Turned : ℕ → ℕ → WheelTimer → WheelTimer → Type 0
Turned b c w w' = Keeps w w' × (loc : ℕ → ℕ × ℕ) × Inv loc b c w' w'.slots

module _ {i s b c : ℕ} (w : WheelTimer) where
  open w use {max_slots as n, cur_frame as now}

  run_timers-Turned :
      (script : ℕ → WheelTimer → List Call)
      → Loop i s (Due now n) b c w (w.slots i s)
      → Turned b c w (run_timers script w i s)
  unfolding run_timers
  run_timers-Turned script l =
      let sorted = sort_by (timeout_of w) (w.slots i s) in
      let start : WheelTimer = record w { slots = update₂ w.slots i s sorted } in
      let (k, done) =
        run_all-Loop script sorted start (Loop-sort w (timeout_of w) (w.slots i s) sorted l) in
      let (loc, inv) = Loop-clear (run_all script sorted start) done in
      (record { frame = k.frame; size = k.size; hands = k.hands }, loc, inv)

  move_timers-Turned :
      now % n ≡ 0 → Loop i s (Movable now n) b c w (w.slots i s) → Turned b c w (move_timers w i s)
  unfolding move_timers
  move_timers-Turned whole l =
      let (k, done) = move_all-Loop (w.slots i s) w whole l in
      let (loc, inv) = Loop-clear (move_all (w.slots i s) w) done in
      (record { frame = k.frame; size = k.size; hands = k.hands }, loc, inv)

module _ (script : ℕ → WheelTimer → List Call) where
  -- One wheel turns.
  pub turn_first :
      {loc : ℕ → ℕ × ℕ} {b c : ℕ} (w : WheelTimer)
      → Inv loc b c w w.slots
      → Turned b c (first_hand w) (turn_wheel script 0 (next_frame w))
  unfolding turn_wheel
  turn_first w v = run_timers-Turned (first_hand w) script (first-Loop w v)

  pub turn_second :
      {loc : ℕ → ℕ × ℕ} {b c : ℕ} (w : WheelTimer) (v : Inv loc b c w w.slots)
      → w.cur_frame ≡ (b + 1) * w.max_slots
      → w.cur_frame % w.max_slots ≡ 0
      → Turned (b + 1) c (turn_hand 1 (hand_after w v 1) w) (turn_wheel script 1 w)
  unfolding turn_wheel
  turn_second w v turn whole =
      move_timers-Turned (turn_hand 1 (hand_after w v 1) w) whole (second-Loop w v turn)

  pub turn_third :
      {loc : ℕ → ℕ × ℕ} {b c : ℕ} (w : WheelTimer) (v : Inv loc b c w w.slots)
      → w.cur_frame ≡ (c + 1) * (w.max_slots * w.max_slots)
      → w.cur_frame % w.max_slots ≡ 0
      → Turned b (c + 1) (turn_hand 2 (hand_after w v 2) w) (turn_wheel script 2 w)
  unfolding turn_wheel
  turn_third w v turn whole =
      move_timers-Turned (turn_hand 2 (hand_after w v 2) w) whole (third-Loop w v turn)
