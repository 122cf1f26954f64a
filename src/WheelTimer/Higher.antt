-- ===== src/WheelTimer/Higher.antt =====
-- The second and the third wheel turn: what stands under the hand then may move down.
use archai_engine.Shared.{
  ℕ, zero, suc, ◌+◌, ◌*◌, ◌%◌, ◌<◌, ◌≡◌, ◌≢◌, refl, sym, ap, ◌∙◌, arith, ◌==◌, ◌&&◌, false,
}
use native.Mathlib.Decide.{ℕ_discrete}
use native.Mathlib.Nat.{mod-add-mod}
use archai_engine.WheelTimer.{WheelTimer}
use archai_engine.WheelTimer.Slots.{Placed, window_eq}
use archai_engine.WheelTimer.Store.{Inv, Loop}
use archai_engine.WheelTimer.Steps.{Movable}
use archai_engine.WheelTimer.Turn.{turn_hand, In-rest, Distinct-rest, Standing-map}

module _ (now b c n t : ℕ) (p : 0 < n) where
  keep_second :
      (j s : ℕ) → (j ≡ 1 → s ≢ (b + 1) % n) → Placed now b c n t j s → Placed now (b + 1) c n t j s
  keep_second zero s ne h = h
  keep_second (suc zero) s ne (q, e, lo, hi, le, room) = elim (ℕ_discrete q (b + 1)) [
    | yes same ↦ absurd (ne refl (e ∙ ap (λ (x : ℕ). x % n) same))
    | no other ↦ (q, e, omega arith, omega arith, le, room)
  ]
  keep_second (suc (suc zero)) s ne h = h
  keep_second (suc (suc (suc j))) s ne h = h

  keep_third :
      (j s : ℕ) → (j ≡ 2 → s ≢ (c + 1) % n) → Placed now b c n t j s → Placed now b (c + 1) n t j s
  keep_third zero s ne h = h
  keep_third (suc zero) s ne h = h
  keep_third (suc (suc zero)) s ne (q, e, lo, hi, le, room) = elim (ℕ_discrete q (c + 1)) [
    | yes same ↦ absurd (ne refl (e ∙ ap (λ (x : ℕ). x % n) same))
    | no other ↦ (q, e, omega arith, omega arith, le, room)
  ]
  keep_third (suc (suc (suc j))) s ne h = h

  move_second : now ≡ (b + 1) * n → Placed now b c n t 1 ((b + 1) % n) → Movable now n t
  move_second turn (q, e, lo, hi, le, room) =
      let same : q ≡ b + 1 = window_eq b q n p lo hi (sym e) in (rw (turn, ← same) le, room)

  move_third : now ≡ (c + 1) * (n * n) → Placed now b c n t 2 ((c + 1) % n) → Movable now n t
  move_third turn (q, e, lo, hi, le, room) =
      let same : q ≡ c + 1 = window_eq c q n p lo hi (sym e) in (rw (turn, ← same) le, room)

module _ {loc : ℕ → ℕ × ℕ} {b c : ℕ} (w : WheelTimer) (v : Inv loc b c w w.slots) where
  open w use {max_slots as n, cur_frame as now}

  abbrev pub hand_after : ℕ → ℕ
  hand_after i = (w.cur_slot_index i + 1) % n

  hand1-mod : hand_after 1 ≡ (b + 1) % n
  hand1-mod = ground (arith, mod-add-mod b n 1, v.clock.hand1)

  hand2-mod : hand_after 2 ≡ (c + 1) % n
  hand2-mod = ground (arith, mod-add-mod c n 1, v.clock.hand2)

  -- From a slot that is not the one worked off.
  elsewhere : (i s j u : ℕ) → (j == i && u == s) ≡ false → j ≡ i → u ≢ s
  elsewhere i s j u e same = ground arith

  pub second-Loop :
      now ≡ (b + 1) * n
      → Loop 1
          (hand_after 1)
          (Movable now n)
          (b + 1)
          c
          (turn_hand 1 (hand_after 1) w)
          (w.slots 1 (hand_after 1))
  second-Loop turn = record {
    loc = loc;
    inv = record {
      clock = record {
        positive = v.clock.positive;
        small = v.clock.small;
        hand0 = v.clock.hand0;
        hand1 = hand1-mod;
        hand2 = v.clock.hand2;
        turned1 = omega arith;
        turned2 = v.clock.turned2;
      };
      standing = λ j u p h.
          let (old, e) = In-rest w.slots 1 (hand_after 1) j u p h in
          Standing-map w now (turn_hand 1 (hand_after 1) w).cur_slot_index loc _ _ (j, u) p
            (λ t.
              keep_second now b c n t v.clock.positive j u
                (rw (← hand1-mod) (elsewhere 1 (hand_after 1) j u e)))
            (v.standing j u p old);
      distinct = λ j u. Distinct-rest w.slots 1 (hand_after 1) j u (v.distinct j u);
      log = v.log;
      sound = v.sound;
      fresh = v.fresh;
    };
    pending = record {
      standing = λ p h.
          Standing-map w now (turn_hand 1 (hand_after 1) w).cur_slot_index loc _ _ (1, hand_after 1)
            p (λ t a. move_second now b c n t v.clock.positive turn (rw hand1-mod at a))
            (v.standing 1 (hand_after 1) p h);
      distinct = v.distinct 1 (hand_after 1);
    };
    hand = refl;
  }

  pub third-Loop :
      now ≡ (c + 1) * (n * n)
      → Loop 2
          (hand_after 2)
          (Movable now n)
          b
          (c + 1)
          (turn_hand 2 (hand_after 2) w)
          (w.slots 2 (hand_after 2))
  third-Loop turn = record {
    loc = loc;
    inv = record {
      clock = record {
        positive = v.clock.positive;
        small = v.clock.small;
        hand0 = v.clock.hand0;
        hand1 = v.clock.hand1;
        hand2 = hand2-mod;
        turned1 = v.clock.turned1;
        turned2 = omega arith;
      };
      standing = λ j u p h.
          let (old, e) = In-rest w.slots 2 (hand_after 2) j u p h in
          Standing-map w now (turn_hand 2 (hand_after 2) w).cur_slot_index loc _ _ (j, u) p
            (λ t.
              keep_third now b c n t v.clock.positive j u
                (rw (← hand2-mod) (elsewhere 2 (hand_after 2) j u e)))
            (v.standing j u p old);
      distinct = λ j u. Distinct-rest w.slots 2 (hand_after 2) j u (v.distinct j u);
      log = v.log;
      sound = v.sound;
      fresh = v.fresh;
    };
    pending = record {
      standing = λ p h.
          Standing-map w now (turn_hand 2 (hand_after 2) w).cur_slot_index loc _ _ (2, hand_after 2)
            p (λ t a. move_third now b c n t v.clock.positive turn (rw hand2-mod at a))
            (v.standing 2 (hand_after 2) p h);
      distinct = v.distinct 2 (hand_after 2);
    };
    hand = refl;
  }
