-- ===== src/WheelTimer/Play.antt =====
-- A timer in use: calls of it, and calls of update, in any order. Every callback runs on time.
use archai_engine.Shared.{
  ℕ, zero, suc, ◌+◌, ◌*◌, ◌/◌, ◌^◌, ◌≤◌, ◌<◌, ◌≡◌, refl, sym, ap, ◌∙◌, List, [], ◌∷◌, arith, Bool,
  Bool-cases, ◌==◌, ◌&&◌, false, true, inl, inr, some, All,
}
use archai_engine.WheelTimer.{
  WheelTimer, TimerTask, Call, adds, dels, update₂, add_timer, del_timer, perform,
  calculate_slot_index, advance, init,
}
use archai_engine.WheelTimer.Store.{In, Distinct, OnTime, Inv, Loop}
use archai_engine.WheelTimer.Steps.{perform-Loop, perform-Keeps}
use archai_engine.WheelTimer.Slots.{Placed, lt_div_mul, scale}
use archai_engine.WheelTimer.Turn.{In-rest, Distinct-rest}
use archai_engine.WheelTimer.Steady.{IsSteady, Steady_at, advance-Steady}

-- What the owner of a timer does: it calls it, or it calls update after so many milliseconds.
pub data Event : Type 0 where
  calls : List Call → Event
  passes : ℕ → Event

unfoldable pub play : (ℕ → WheelTimer → List Call) → List Event → WheelTimer → WheelTimer
unfolding perform advance
play script [] w = w
play script (calls l ∷ events) w = play script events (perform l w)
play script (passes duration ∷ events) w = play script events (advance script w duration)

-- There are three wheels: nothing is put beyond them.
add_timer-beyond :
    (w : WheelTimer) (ms cb u : ℕ) (is_repeat : Bool)
    → (add_timer w ms cb is_repeat).0.slots 3 u ≡ w.slots 3 u
unfolding add_timer calculate_slot_index
add_timer-beyond w ms cb u is_repeat = ground arith

del_timer-beyond : (w : WheelTimer) (id u : ℕ) → (del_timer w id).slots 3 u ≡ w.slots 3 u
unfolding del_timer
del_timer-beyond w id u = ground arith

perform-beyond : (l : List Call) (w : WheelTimer) (u : ℕ) → (perform l w).slots 3 u ≡ w.slots 3 u
unfolding perform
perform-beyond [] w u = refl
perform-beyond (adds ms cb is_repeat ∷ l) w u =
    perform-beyond l (add_timer w ms cb is_repeat).0 u ∙ add_timer-beyond w ms cb u is_repeat
perform-beyond (dels id ∷ l) w u = perform-beyond l (del_timer w id) u ∙ del_timer-beyond w id u

no_members : (l : List ℕ) → ((p : ℕ) → ¬ In p l) → l ≡ []
no_members [] h = refl
no_members (p ∷ l) h = absurd (h p (inl refl))

module _ {loc : ℕ → ℕ × ℕ} {b c : ℕ} (w : WheelTimer) where
  beyond : Inv loc b c w w.slots → (u : ℕ) → w.slots 3 u ≡ []
  beyond v u = no_members (w.slots 3 u) (λ p h. (v.standing 3 u p h).4)

  -- Outside a tick nothing is being worked off: the hole is beyond the wheels.
  idle : Inv loc b c w w.slots → Loop 3 (w.cur_slot_index 3) (λ t. Unit {0}) b c w []
  idle v = record {
    loc = loc;
    inv = record {
      clock = v.clock;
      standing = λ j u p h. v.standing j u p (In-rest w.slots 3 (w.cur_slot_index 3) j u p h).0;
      distinct = λ j u. Distinct-rest w.slots 3 (w.cur_slot_index 3) j u (v.distinct j u);
      log = v.log;
      sound = v.sound;
      fresh = v.fresh;
    };
    pending = record { standing = λ p h. absurd h; distinct = tt };
    hand = refl;
  }

busy :
    {b c : ℕ} (w : WheelTimer)
    → Loop 3 (w.cur_slot_index 3) (λ t. Unit {0}) b c w []
    → ((u : ℕ) → w.slots 3 u ≡ [])
    → (loc : ℕ → ℕ × ℕ) × Inv loc b c w w.slots
busy w l none_there = (
  l.loc,
  record {
    clock = l.inv.clock;
    standing = λ j u p h. l.inv.standing j u p (In-full j u p h);
    distinct = λ j u. elim (Bool-cases (j == 3 && u == w.cur_slot_index 3)) [
      | inl e ↦ let here : w.slots j u ≡ [] = empty j u e in rw here tt
      | inr e ↦ rw e at (l.inv.distinct j u)
    ];
    log = l.inv.log;
    sound = l.inv.sound;
    fresh = l.inv.fresh;
  },
)
  where
    empty : (j u : ℕ) → (j == 3 && u == w.cur_slot_index 3) ≡ true → w.slots j u ≡ []
    empty j u e = let same : j ≡ 3 = ground arith in rw same (none_there u)

    In-full :
        (j u p : ℕ) → In p (w.slots j u) → In p (update₂ w.slots 3 (w.cur_slot_index 3) [] j u)
    In-full j u p h = elim (Bool-cases (j == 3 && u == w.cur_slot_index 3)) [
      | inl e ↦ absurd (rw (empty j u e) at h)
      | inr e ↦ rw e h
    ]

perform-Steady : {n : ℕ} (l : List Call) (w : WheelTimer) → IsSteady n w → IsSteady n (perform l w)
perform-Steady l w (size, loc, v) =
    let k = perform-Keeps l w in
    let hand = ap (λ (f : ℕ → ℕ). f 3) k.hands in
    let loop : Loop 3 ((perform l w).cur_slot_index 3) (λ t. Unit {0}) (w.cur_frame / w.max_slots)
        (w.cur_frame / w.max_slots / w.max_slots) (perform l w) [] =
      rw hand (perform-Loop l w [] (idle w v)) in
    let (loc', v') = busy (perform l w) loop (λ u. perform-beyond l w u ∙ beyond w v u) in
    Steady_at (perform l w) (k.size ∙ size) v' (rw (k.frame, k.size) refl)
      (rw (k.frame, k.size) refl)

init-Steady : (interval n : ℕ) → 0 < n → n * (n * n) ≤ 2 ^ 64 → IsSteady n (init interval n)
unfolding init
init-Steady interval n p small = (
  refl,
  (λ q. (0, 0)),
  record {
    clock = record {
      positive = p;
      small = small;
      hand0 = omega arith;
      hand1 = ground arith;
      hand2 = ground arith;
      turned1 = ground arith;
      turned2 = ground arith;
    };
    standing = λ i s q h. absurd h;
    distinct = λ i s. tt;
    log = tt;
    sound = refl;
    fresh = λ id h. refl;
  },
)

play-Steady :
    (script : ℕ → WheelTimer → List Call) {n : ℕ} (events : List Event) (w : WheelTimer)
    → IsSteady n w
    → IsSteady n (play script events w)
unfolding play
play-Steady script [] w v = v
play-Steady script (calls l ∷ events) w v =
    play-Steady script events (perform l w) (perform-Steady l w v)
play-Steady script (passes duration ∷ events) w v =
    play-Steady script events (advance script w duration) (advance-Steady script w duration v)

-- A timer with frames of `interval` ms and `n` slots, n at least 1 and n^3 at most 2^64, is used in any
-- way in which del_timer does not write into a deleted task, which it does when it is given the id of a timer that
-- has fired: timers are added and deleted, also by the callbacks, and update is called after any delays.
-- Then every callback that ran did so in the frame in which its task was due, or `n` frames later,
-- which only befalls a task due in a multiple of `n`. No assert failed, also not that of add_timer, so
-- that no id was given twice, and no deleted task was found in a slot. Ids have no bound here.
pub play-OnTime :
    (script : ℕ → WheelTimer → List Call) (interval n : ℕ) (events : List Event)
    → 0 < interval
    → 0 < n
    → n * (n * n) ≤ 2 ^ 64
    → (play script events (init interval n)).dangling ≡ false
    → All (OnTime n) (play script events (init interval n)).fired
      × ((play script events (init interval n)).failed ≡ false)
play-OnTime script interval n events step p small defined =
    let (size, loc, v) =
      play-Steady script events (init interval n) (init-Steady interval n p small) in
    (rw size at v.log, v.sound)

-- A task that stands in a slot of some wheel is not overdue by `n` frames.
waiting : (now n t i s : ℕ) → 0 < n → Placed now (now / n) (now / n / n) n t i s → now < t + n
waiting now n t zero s p (e, lo, hi, late) = lo
waiting now n t (suc zero) s p (q, e, lo, hi, le, room) =
    omega (arith, lt_div_mul now n p, scale (now / n + 1) q n (omega arith))
waiting now n t (suc (suc zero)) s p (q, e, lo, hi, le, room) = omega (
  arith,
  lt_div_mul now n p,
  scale (now / n + 1) ((now / n / n + 1) * n) n (omega (arith, lt_div_mul (now / n) n p)),
  scale ((now / n / n + 1) * n) (q * n) n (scale (now / n / n + 1) q n (omega arith)),
)
waiting now n t (suc (suc (suc i))) s p h = absurd h

-- A timer with frames of `interval` ms and `n` slots, n at least 1 and n^3 at most 2^64, is used in any
-- way, as in play-OnTime. Then each task in a slot is alive, it stands in that slot alone and once, and
-- the frame is less than `n` frames after the one in which it is due.
pub play-waiting :
    (script : ℕ → WheelTimer → List Call) (interval n : ℕ) (events : List Event)
    → 0 < interval
    → (pos : 0 < n) → n * (n * n) ≤ 2 ^ 64
    → (i s p : ℕ) → In p ((play script events (init interval n)).slots i s)
    → ((task : TimerTask) × ((play script events (init interval n)).tasks p ≡ some task)
        × ((play script events (init interval n)).cur_frame < task.timeout_frame + n))
      × Distinct ((play script events (init interval n)).slots i s)
      × ((j u : ℕ) → In p ((play script events (init interval n)).slots j u) → (j ≡ i) × (u ≡ s))
play-waiting script interval n events step pos small i s p h =
    let w = play script events (init interval n) in
    let (size, loc, v) =
      play-Steady script events (init interval n) (init-Steady interval n pos small) in
    let (here, _, task, e, placed, _) = v.standing i s p h in
    let soon = waiting w.cur_frame w.max_slots task.timeout_frame i s v.clock.positive placed in
    (
      (task, e, rw size at soon),
      v.distinct i s,
      (λ j u h'.
          let there = (v.standing j u p h').0 in
          let same : ◌≡◌ {A = ℕ × ℕ} (j, u) (i, s) = sym there ∙ here in
          (ap (λ (x : ℕ × ℕ). x.0) same, ap (λ (x : ℕ × ℕ). x.1) same)),
    )
