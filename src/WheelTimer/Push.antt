-- ===== src/WheelTimer/Push.antt =====
-- The steps on the store: a task is taken off the slot that is worked off, placed in a slot, deleted.
use archai_engine.Shared.{
  none, ℕ, ◌*◌, ◌≤◌, ◌<◌, ◌≡◌, ◌≢◌, ◌⊎◌, inl, inr, refl, sym, ◌∙◌, true, false, some, List, [], ◌∷◌,
  ◌++◌, arith, Bool-cases, Option, ◌==◌, ◌&&◌,
}
use archai_engine.WheelTimer.{WheelTimer, TimerTask, update, update₂, delay_frames}
use archai_engine.WheelTimer.Slots.{Placed}
use archai_engine.WheelTimer.Store.{In, In-snoc, Distinct, Distinct-snoc, Standing, Loop, Free}

-- A store in which `f` has a new task at `p`, and the others as before.
abbrev pub Others : WheelTimer → (ℕ → Option TimerTask) → ℕ → Type 0
Others w f p = (q : ℕ) → q ≢ p → f q ≡ w.tasks q

module _ (w : WheelTimer) (i s p : ℕ) (f : ℕ → Option TimerTask) (ids : ℕ → Option ℕ) (next id : ℕ)
    (others : Others w f p) (more : w.next_address ≤ next)
    (unused : (q : ℕ) → id ≤ q → ids q ≡ none) where
  abbrev pushed : WheelTimer
  pushed = record w {
    slots = update₂ w.slots i s (w.slots i s ++ p ∷ []);
    tasks = f;
    next_address = next;
    next_timer_id = id;
    id_2_timer_task = ids;
  }

  -- Where a pointer of the new slots comes from.
  In-pushed :
      (hi hs j u q : ℕ)
      → In q (update₂ pushed.slots hi hs [] j u)
      → ((q ≡ p) × (j ≡ i) × (u ≡ s)) ⊎ In q (update₂ w.slots hi hs [] j u)
  In-pushed hi hs j u q h = elim (Bool-cases (j == hi && u == hs)) [
    | inl e ↦ absurd (rw e at h)
    | inr e ↦ elim (Bool-cases (j == i && u == s)) [
      | inl e' ↦
          let here : (j ≡ i) × (u ≡ s) = ground arith in
          elim (In-snoc q p (w.slots i s) (rw (e, e') at h)) [
            | inl old ↦ inr (rw (e, here.0, here.1) old)
            | inr same ↦ inl (same, here.0, here.1)
          ]
      | inr e' ↦ inr (rw e (rw (e, e') at h))
    ]
  ]

  Distinct-pushed :
      (hi hs j u : ℕ)
      → Free (update₂ w.slots hi hs []) p
      → ((j u : ℕ) → Distinct (update₂ w.slots hi hs [] j u))
      → Distinct (update₂ pushed.slots hi hs [] j u)
  Distinct-pushed hi hs j u free d = elim (Bool-cases (j == hi && u == hs)) [
    | inl e ↦ rw e tt
    | inr e ↦ elim (Bool-cases (j == i && u == s)) [
      | inl e' ↦
          let here : (j ≡ i) × (u ≡ s) = ground arith in
          let shown : (i == hi && s == hs) ≡ false = ground arith in
          rw (e, e')
            (Distinct-snoc p (w.slots i s) (λ a. free i s (rw shown a)) (rw shown at (d i s)))
      | inr e' ↦ rw (e, e') (rw e at (d j u))
    ]
  ]

  Standing-others :
      (loc : ℕ → ℕ × ℕ) (P : ℕ → Type 0) (at : ℕ × ℕ) (q : ℕ)
      → q ≢ p
      → Standing loc w P at q
      → Standing (update loc p (i, s)) pushed P at q
  Standing-others loc P at q ne (l, lt, task, e, h, fits) =
      (ground arith, omega arith, task, others q ne ∙ e, h, fits)

  -- The task that `f` has at `p` is placed in slot `s` of wheel `i`.
  pub Loop-push :
      {hi hs : ℕ} {P : ℕ → Type 0} {b c : ℕ} {todo : List ℕ} (l : Loop hi hs P b c w todo)
      (task : TimerTask)
      → Free (update₂ w.slots hi hs []) p
      → ¬ In p todo
      → p < next
      → f p ≡ some task
      → Placed w.cur_frame b c w.max_slots task.timeout_frame i s
      → delay_frames w task.interval < w.max_slots * (w.max_slots * w.max_slots)
      → Loop hi hs P b c pushed todo
  Loop-push {hi} {hs} {P} {b} {c} {todo} l task free apart lt e placed fits = record {
    loc = update l.loc p (i, s);
    inv = record {
      clock = record {
        positive = l.inv.clock.positive;
        small = l.inv.clock.small;
        hand0 = l.inv.clock.hand0;
        hand1 = l.inv.clock.hand1;
        hand2 = l.inv.clock.hand2;
        turned1 = l.inv.clock.turned1;
        turned2 = l.inv.clock.turned2;
      };
      standing = λ j u q h. stands j u q (In-pushed hi hs j u q h);
      distinct = λ j u. Distinct-pushed hi hs j u free l.inv.distinct;
      log = l.inv.log;
      sound = l.inv.sound;
      fresh = unused;
    };
    pending = record {
      standing = λ q h.
          Standing-others l.loc P (hi, hs) q (λ same. apart (rw same at h))
            (l.pending.standing q h);
      distinct = l.pending.distinct;
    };
    hand = l.hand;
  }
    where
      stands :
          (j u q : ℕ)
          → ((q ≡ p) × (j ≡ i) × (u ≡ s)) ⊎ In q (update₂ w.slots hi hs [] j u)
          → Standing
              (update l.loc p (i, s))
              pushed
              (λ t. Placed w.cur_frame b c w.max_slots t j u)
              (j, u)
              q
      stands j u q (inl (same, ej, eu)) =
          rw (same, ej, eu) (ground arith, lt, task, e, placed, fits)
      stands j u q (inr h) =
          Standing-others l.loc (λ t. Placed w.cur_frame b c w.max_slots t j u) (j, u) q
            (λ same. free j u (rw same at h)) (l.inv.standing j u q h)

-- A task that stands in no slot is changed or deleted.
pub Loop-drop :
    (w : WheelTimer) (p : ℕ) (f : ℕ → Option TimerTask)
    → Others w f p
    → {hi hs : ℕ} {P : ℕ → Type 0} {b c : ℕ} {todo : List ℕ} → Loop hi hs P b c w todo
    → Free (update₂ w.slots hi hs []) p
    → ¬ In p todo
    → Loop hi hs P b c (record w { tasks = f }) todo
Loop-drop w p f others l free apart = record {
  loc = l.loc;
  inv = record {
    clock = record {
      positive = l.inv.clock.positive;
      small = l.inv.clock.small;
      hand0 = l.inv.clock.hand0;
      hand1 = l.inv.clock.hand1;
      hand2 = l.inv.clock.hand2;
      turned1 = l.inv.clock.turned1;
      turned2 = l.inv.clock.turned2;
    };
    standing =
        λ j u q h. kept _ (j, u) q (λ same. free j u (rw same at h)) (l.inv.standing j u q h);
    distinct = l.inv.distinct;
    log = l.inv.log;
    sound = l.inv.sound;
    fresh = l.inv.fresh;
  };
  pending = record {
    standing = λ q h. kept _ _ q (λ same. apart (rw same at h)) (l.pending.standing q h);
    distinct = l.pending.distinct;
  };
  hand = l.hand;
}
  where
    kept :
        (P : ℕ → Type 0) (at : ℕ × ℕ) (q : ℕ)
        → q ≢ p
        → Standing l.loc w P at q
        → Standing l.loc (record w { tasks = f }) P at q
    kept P at q ne (e, lt, task, t, h, fits) = (e, lt, task, others q ne ∙ t, h, fits)

-- The first of the tasks to be worked off stands nowhere else.
pub Loop-pop :
    {hi hs : ℕ} {P : ℕ → Type 0} {b c : ℕ} (w : WheelTimer) (p : ℕ) (todo : List ℕ)
    (l : Loop hi hs P b c w (p ∷ todo))
    → Loop hi hs P b c w todo
      × Free (update₂ w.slots hi hs []) p
      × (¬ In p todo)
      × Standing l.loc w P (hi, hs) p
Loop-pop {hi} {hs} w p todo l = (
  record {
    loc = l.loc;
    inv = l.inv;
    pending = record {
      standing = λ q h. l.pending.standing q (inr h);
      distinct = l.pending.distinct.1;
    };
    hand = l.hand;
  },
  (λ j u h.
      let away : l.loc p ≡ (j, u) = (l.inv.standing j u p h).0 in
      let here : l.loc p ≡ (hi, hs) = (l.pending.standing p (inl refl)).0 in
      let same : ◌≡◌ {A = ℕ × ℕ} (hi, hs) (j, u) = sym here ∙ away in
      let hole : (j == hi && u == hs) ≡ true = ground arith in rw hole at h),
  l.pending.distinct.0,
  l.pending.standing p (inl refl),
)
