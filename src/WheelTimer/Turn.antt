-- ===== src/WheelTimer/Turn.antt =====
-- One wheel turns: what stands under its hand then, and what the loop over that slot leaves.
use archai_engine.Shared.{
  ℕ, zero, suc, ◌+◌, ◌%◌, ◌<◌, ◌≡◌, ◌≢◌, ◌⊎◌, inl, inr, refl, sym, ap, ◌∙◌, false, List, [], ◌∷◌,
  arith, Bool-cases, ◌==◌, ◌&&◌, leb,
}
use native.Mathlib.Decide.{ℕ_discrete, dec_lt}
use native.Mathlib.Nat.{mod-add-mod}
use archai_engine.WheelTimer.{WheelTimer, update, update₂, insert_by, sort_by}
use archai_engine.WheelTimer.Slots.{Placed, window, window_eq}
use archai_engine.WheelTimer.Store.{In, Distinct, Standing, Inv, Loop}
use archai_engine.WheelTimer.Steps.{Due}

-- Sorting a slot keeps its tasks.
In-insert_by : (key : ℕ → ℕ) (q p : ℕ) (l : List ℕ) → In q (insert_by key p l) → (q ≡ p) ⊎ In q l
unfolding insert_by
In-insert_by key q p [] h = h
In-insert_by key q p (r ∷ l) h = elim (Bool-cases (leb (key p) (key r))) [
  | inl e ↦ rw (e, insert_by) at h
  | inr e ↦
      let h' : (q ≡ r) ⊎ In q (insert_by key p l) = rw (e, insert_by) at h in
      elim h' [
        | inl same ↦ inr (inl same)
        | inr more ↦ elim (In-insert_by key q p l more) [
          | inl same ↦ inl same
          | inr old ↦ inr (inr old)
        ]
      ]
]

pub In-sort_by : (key : ℕ → ℕ) (q : ℕ) (l : List ℕ) → In q (sort_by key l) → In q l
unfolding sort_by
In-sort_by key q [] h = h
In-sort_by key q (p ∷ l) h = elim (In-insert_by key q p (sort_by key l) h) [
  | inl same ↦ inl same
  | inr more ↦ inr (In-sort_by key q l more)
]

Distinct-insert_by :
    (key : ℕ → ℕ) (p : ℕ) (l : List ℕ) → ¬ In p l → Distinct l → Distinct (insert_by key p l)
unfolding insert_by
Distinct-insert_by key p [] h d = (h, tt)
Distinct-insert_by key p (r ∷ l) h d = elim (Bool-cases (leb (key p) (key r))) [
  | inl e ↦ rw (e, insert_by) (h, d)
  | inr e ↦
      rw (e, insert_by)
        (
          (λ a. elim (In-insert_by key r p l a) [
            | inl same ↦ h (inl (sym same))
            | inr more ↦ d.0 more
          ]),
          Distinct-insert_by key p l (λ a. h (inr a)) d.1,
        )
]

pub Distinct-sort_by : (key : ℕ → ℕ) (l : List ℕ) → Distinct l → Distinct (sort_by key l)
unfolding sort_by
Distinct-sort_by key [] d = tt
Distinct-sort_by key (p ∷ l) (fresh, d) =
    Distinct-insert_by key p (sort_by key l) (λ a. fresh (In-sort_by key p l a))
      (Distinct-sort_by key l d)

abbrev pub turn_hand : ℕ → ℕ → WheelTimer → WheelTimer
turn_hand i s w = record w { cur_slot_index = update w.cur_slot_index i s }

-- The next frame, with the first hand on its slot.
abbrev pub next_frame : WheelTimer → WheelTimer
next_frame w = record w { cur_frame = w.cur_frame + 1 }

abbrev pub first_hand : WheelTimer → WheelTimer
first_hand w = turn_hand 0 ((w.cur_slot_index 0 + 1) % w.max_slots) (next_frame w)

wrap : (t n : ℕ) → (t + n) % n ≡ t % n
wrap t n = grind arith

module _ (now n t : ℕ) (p : 0 < n) where
  -- The first wheel when a frame passes: a task elsewhere stays placed, one under the hand is due.
  keep_first :
      (b c s : ℕ) → s ≢ (now + 1) % n → Placed now b c n t 0 s → Placed (now + 1) b c n t 0 s
  keep_first b c s ne (e, lo, hi, late) = (
    e,
    (elim (dec_lt (now + 1) (t + n)) [
      | yes h ↦ h
      | no h ↦
          let same : now + 1 ≡ t + n = omega arith in
          absurd (ne (e ∙ sym (ap (λ (x : ℕ). x % n) same ∙ wrap t n)))
    ]),
    omega arith,
    (elim (ℕ_discrete t (now + 1)) [
      | yes same ↦ absurd (ne (e ∙ ap (λ (x : ℕ). x % n) same))
      | no other ↦ ground arith
    ]),
  )

  Due-first : (b c : ℕ) → Placed now b c n t 0 ((now + 1) % n) → Due (now + 1) n t
  Due-first b c (e, lo, hi, inl later) = inl (sym (window_eq now t n p later hi (sym e)))
  Due-first b c (e, lo, hi, inr whole) = elim (dec_lt now t) [
    | yes later ↦ inl (sym (window_eq now t n p later hi (sym e)))
    | no over ↦ elim (dec_lt (now + 1) (t + n)) [
      | yes soon ↦ absurd (window t (now + 1) n (omega arith) soon (sym e))
      | no last ↦ inr (omega arith, whole)
    ]
  ]

  keep_others : (b c i s : ℕ) → Placed now b c n t (suc i) s → Placed (now + 1) b c n t (suc i) s
  keep_others b c zero s (q, e, lo, hi, le, room) = (q, e, lo, hi, le, omega arith)
  keep_others b c (suc zero) s (q, e, lo, hi, le, room) = (q, e, lo, hi, le, omega arith)
  keep_others b c (suc (suc i)) s h = absurd h

abbrev pub Map : (ℕ → Type 0) → (ℕ → Type 0) → Type 0
Map P Q = (t : ℕ) → P t → Q t

-- A frame passes and hands turn: that moves no task.
pub Standing-map :
    (w : WheelTimer) (frame : ℕ) (hands : ℕ → ℕ) (loc : ℕ → ℕ × ℕ) (P Q : ℕ → Type 0) (at : ℕ × ℕ)
    (p : ℕ)
    → Map P Q
    → Standing loc w P at p
    → Standing loc (record w { cur_frame = frame; cur_slot_index = hands }) Q at p
Standing-map w frame hands loc P Q at p m (l, lt, task, e, h, fits) =
    (l, lt, task, e, m task.timeout_frame h, fits)

-- The slots but for the one that is worked off.
pub In-rest :
    (sl : ℕ → ℕ → List ℕ) (i s j u p : ℕ)
    → In p (update₂ sl i s [] j u)
    → In p (sl j u) × ((j == i && u == s) ≡ false)
In-rest sl i s j u p h = elim (Bool-cases (j == i && u == s)) [
  | inl e ↦ absurd (rw e at h)
  | inr e ↦ (rw e at h, e)
]

pub Distinct-rest :
    (sl : ℕ → ℕ → List ℕ) (i s j u : ℕ) → Distinct (sl j u) → Distinct (update₂ sl i s [] j u)
Distinct-rest sl i s j u d = elim (Bool-cases (j == i && u == s)) [
  | inl e ↦ rw e tt
  | inr e ↦ rw e d
]

module _ {loc : ℕ → ℕ × ℕ} {b c : ℕ} (w : WheelTimer) (v : Inv loc b c w w.slots) where
  open w use {max_slots as n, cur_frame as now}

  abbrev s0 : ℕ
  s0 = (w.cur_slot_index 0 + 1) % n

  s0-mod : s0 ≡ (now + 1) % n
  s0-mod = ground (arith, mod-add-mod now n 1, v.clock.hand0)

  stands_first :
      (j u p : ℕ)
      → In p (update₂ w.slots 0 s0 [] j u)
      → Standing loc (first_hand w) (λ t. Placed (now + 1) b c n t j u) (j, u) p
  stands_first zero u p h =
      let (old, e) = In-rest w.slots 0 s0 0 u p h in
      let apart : u ≢ (now + 1) % n = rw (← s0-mod) (ground arith) in
      Standing-map w (now + 1) (first_hand w).cur_slot_index loc _ _ (zero, u) p
        (λ t. keep_first now n t v.clock.positive b c u apart) (v.standing zero u p old)
  stands_first (suc j) u p h =
      Standing-map w (now + 1) (first_hand w).cur_slot_index loc _ _ (suc j, u) p
        (λ t. keep_others now n t v.clock.positive b c j u)
        (v.standing (suc j) u p (In-rest w.slots 0 s0 (suc j) u p h).0)

  pub first-Loop : Loop 0 s0 (Due (now + 1) n) b c (first_hand w) (w.slots 0 s0)
  first-Loop = record {
    loc = loc;
    inv = record {
      clock = record {
        positive = v.clock.positive;
        small = v.clock.small;
        hand0 = s0-mod;
        hand1 = v.clock.hand1;
        hand2 = v.clock.hand2;
        turned1 = omega (arith, v.clock.turned1);
        turned2 = omega (arith, v.clock.turned2);
      };
      standing = stands_first;
      distinct = λ j u. Distinct-rest w.slots 0 s0 j u (v.distinct j u);
      log = v.log;
      sound = v.sound;
      fresh = v.fresh;
    };
    pending = record {
      standing = λ p h.
          Standing-map w (now + 1) (first_hand w).cur_slot_index loc _ _ (0, s0) p
            (λ t a. Due-first now n t v.clock.positive b c (rw s0-mod at a)) (v.standing 0 s0 p h);
      distinct = v.distinct 0 s0;
    };
    hand = refl;
  }
