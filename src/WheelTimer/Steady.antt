-- ===== src/WheelTimer/Steady.antt =====
-- A whole tick, and the time that passes: between two ticks the timer is in a steady state.
use archai_engine.Shared.{
  ℕ, zero, suc, ◌+◌, ◌-◌, ◌*◌, ◌/◌, ◌%◌, ◌<◌, ◌≡◌, ◌≢◌, ap, ◌∙◌, List, arith, Bool-cases, ◌==◌, inl,
  inr, leb,
}
use native.Mathlib.Nat.{div-add-mod}
use archai_engine.WheelTimer.{WheelTimer, Call, turn_wheel, tick_from, tick, update_loop, advance}
use archai_engine.WheelTimer.Store.{Inv}
use archai_engine.WheelTimer.Turn.{next_frame}
use archai_engine.WheelTimer.Tick.{turn_first, turn_second, turn_third}

-- Between two ticks the wheels have turned as often as the frame says.
abbrev pub IsSteady : ℕ → WheelTimer → Type 0
IsSteady n w =
    (w.max_slots ≡ n)
    × (loc : ℕ → ℕ × ℕ) × Inv loc (w.cur_frame / w.max_slots)
        (w.cur_frame / w.max_slots / w.max_slots) w w.slots

quotient_same : (x n : ℕ) → 0 < n → (x + 1) % n ≢ 0 → (x + 1) / n ≡ x / n
quotient_same x n p h = grind arith

quotient_next : (x n : ℕ) → 0 < n → (x + 1) % n ≡ 0 → (x + 1) / n ≡ x / n + 1
quotient_next x n p h = grind arith

whole_turn : (x n : ℕ) → x % n ≡ 0 → x ≡ x / n * n
whole_turn x n h = omega (arith, div-add-mod x n)

pub Steady_at :
    {loc : ℕ → ℕ × ℕ} {n b c : ℕ} (w : WheelTimer)
    → w.max_slots ≡ n
    → Inv loc b c w w.slots
    → w.cur_frame / w.max_slots ≡ b
    → w.cur_frame / w.max_slots / w.max_slots ≡ c
    → IsSteady n w
Steady_at {loc} w size v h k = (size, loc, rw (k, h) v)

module _ (script : ℕ → WheelTimer → List Call) {loc : ℕ → ℕ × ℕ} {n b c : ℕ} where
  tick_third :
      (w : WheelTimer)
      → w.max_slots ≡ n
      → Inv loc b c w w.slots
      → w.cur_frame ≡ (c + 1) * (w.max_slots * w.max_slots)
      → w.cur_frame % w.max_slots ≡ 0
      → w.cur_frame / w.max_slots ≡ b
      → b / w.max_slots ≡ c + 1
      → IsSteady n (tick_from script 1 2 w)
  unfolding tick_from
  tick_third w size v turn whole h k =
      let (keeps, loc, v') = turn_third script w v turn whole in
      let w' = turn_wheel script 2 w in
      let done : IsSteady n w' =
        Steady_at w' (keeps.size ∙ size) v' (rw (keeps.frame, keeps.size) h)
          (rw (keeps.frame, keeps.size, h) k) in
      elim (Bool-cases (w'.cur_slot_index 2 == 0)) [
        | inl e ↦ rw (tick_from, e) done
        | inr e ↦ rw (tick_from, e) done
      ]

square : (f b c n : ℕ) → f ≡ (b + 1) * n → b + 1 ≡ (c + 1) * n → f ≡ (c + 1) * (n * n)
square f b c n h k =
    let same : (c + 1) * n * n ≡ (c + 1) * (n * n) = omega arith in
    h ∙ ap (λ (x : ℕ). x * n) k ∙ same

module _ (script : ℕ → WheelTimer → List Call) {loc : ℕ → ℕ × ℕ} {n b c : ℕ} where
  tick_second :
      (w : WheelTimer)
      → w.max_slots ≡ n
      → Inv loc b c w w.slots
      → w.cur_frame ≡ (b + 1) * w.max_slots
      → w.cur_frame % w.max_slots ≡ 0
      → w.cur_frame / w.max_slots ≡ b + 1
      → b / w.max_slots ≡ c
      → IsSteady n (tick_from script 2 1 w)
  unfolding tick_from
  tick_second w size v turn whole h k =
      let (keeps, loc, v') = turn_second script w v turn whole in
      let w' = turn_wheel script 1 w in
      let h' : w'.cur_frame / w'.max_slots ≡ b + 1 = rw (keeps.frame, keeps.size) h in
      let k' : b / w'.max_slots ≡ c = rw keeps.size k in
      let hand = v'.clock.hand1 in
      elim (Bool-cases (w'.cur_slot_index 1 == 0)) [
        | inl e ↦
            let over : (b + 1) % w'.max_slots ≡ 0 = ground arith in
            let next : (b + 1) / w'.max_slots ≡ c + 1 =
              quotient_next b w'.max_slots v'.clock.positive over ∙ ap (λ (x : ℕ). x + 1) k' in
            let turn' : w'.cur_frame ≡ (b + 1) * w'.max_slots = rw (keeps.frame, keeps.size) turn in
            rw (tick_from, e)
              (tick_third script w' (keeps.size ∙ size) v'
                (square w'.cur_frame b c w'.max_slots turn'
                  (whole_turn (b + 1) w'.max_slots over ∙ ap (λ (x : ℕ). x * w'.max_slots) next))
                (rw (keeps.frame, keeps.size) whole) h' next)
        | inr e ↦
            let more : (b + 1) % w'.max_slots ≢ 0 = ground arith in
            rw (tick_from, e)
              (Steady_at w' (keeps.size ∙ size) v' h'
                (rw h' (quotient_same b w'.max_slots v'.clock.positive more ∙ k')))
      ]

module _ {n : ℕ} where
  Steady_clock :
      (w : WheelTimer) (left since : ℕ)
      → IsSteady n w
      → IsSteady n (record w { left_ms = left; ms_since_start = since })
  Steady_clock w left since (size, loc, v) = (
    size,
    loc,
    record {
      clock = record {
        positive = v.clock.positive;
        small = v.clock.small;
        hand0 = v.clock.hand0;
        hand1 = v.clock.hand1;
        hand2 = v.clock.hand2;
        turned1 = v.clock.turned1;
        turned2 = v.clock.turned2;
      };
      standing = v.standing;
      distinct = v.distinct;
      log = v.log;
      sound = v.sound;
      fresh = v.fresh;
    },
  )

module _ (script : ℕ → WheelTimer → List Call) {n : ℕ} where
  tick-Steady : (w : WheelTimer) → IsSteady n w → IsSteady n (tick script (next_frame w))
  unfolding tick tick_from
  tick-Steady w (size, loc, v) =
      let b = w.cur_frame / w.max_slots in
      let (keeps, loc, v') = turn_first script w v in
      let w' = turn_wheel script 0 (next_frame w) in
      let frame : w'.cur_frame ≡ w.cur_frame + 1 = keeps.frame in
      let keep : w'.max_slots ≡ w.max_slots = keeps.size in
      let hand = v'.clock.hand0 in
      let k : b / w'.max_slots ≡ b / w.max_slots = ap (λ (x : ℕ). b / x) keep in
      elim (Bool-cases (w'.cur_slot_index 0 == 0)) [
        | inl e ↦
            let over : w'.cur_frame % w'.max_slots ≡ 0 = ground arith in
            let next : w'.cur_frame / w'.max_slots ≡ b + 1 =
              rw (frame, keep)
                (quotient_next w.cur_frame w.max_slots v.clock.positive
                  (rw (frame, keep) at over)) in
            rw (tick_from, e)
              (tick_second script w' (keep ∙ size) v'
                (whole_turn w'.cur_frame w'.max_slots over ∙ ap (λ (x : ℕ). x * w'.max_slots) next)
                over next k)
        | inr e ↦
            let more : w'.cur_frame % w'.max_slots ≢ 0 = ground arith in
            let same : w'.cur_frame / w'.max_slots ≡ b =
              rw (frame, keep)
                (quotient_same w.cur_frame w.max_slots v.clock.positive
                  (rw (frame, keep) at more)) in
            rw (tick_from, e) (Steady_at w' (keep ∙ size) v' same (rw same k))
      ]

  update_loop-Steady :
      (fuel : ℕ) (w : WheelTimer) → IsSteady n w → IsSteady n (update_loop script fuel w)
  unfolding update_loop
  update_loop-Steady zero w v = v
  update_loop-Steady (suc fuel) w v = elim (Bool-cases (leb w.interval w.left_ms)) [
    | inl e ↦
        let w' : WheelTimer = record w { left_ms = w.left_ms - w.interval } in
        rw (update_loop, e)
          (update_loop-Steady fuel (tick script (next_frame w'))
            (tick-Steady w' (Steady_clock w _ _ v)))
    | inr e ↦ rw (update_loop, e) v
  ]

  pub advance-Steady :
      (w : WheelTimer) (duration : ℕ) → IsSteady n w → IsSteady n (advance script w duration)
  unfolding advance
  advance-Steady w duration v = update_loop-Steady (w.left_ms + duration) _ (Steady_clock w _ _ v)
