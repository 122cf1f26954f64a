-- ===== src/WheelTimer/Store.antt =====
-- The invariant of the timer: where the tasks stand, and that each stands in one place only.
use archai_engine.Shared.{
  ◌≤◌, none, ℕ, ◌+◌, ◌*◌, ◌%◌, ◌<◌, ◌≡◌, ◌⊎◌, inl, inr, sym, Bool, false, some, List, [], ◌∷◌, ◌++◌,
  All, Option,
}
use mathlib.Core.Path.{subst}
use archai_engine.WheelTimer.{WheelTimer, TimerTask, Firing, update₂, delay_frames}
use archai_engine.WheelTimer.Slots.{Clock, Placed}

abbrev pub In : ℕ → List ℕ → Type 0
In p [] = ⊥
In p (q ∷ l) = (p ≡ q) ⊎ In p l

abbrev pub Distinct : List ℕ → Type 0
Distinct [] = Unit {0}
Distinct (p ∷ l) = ¬ In p l × Distinct l

pub In-snoc : (q p : ℕ) (l : List ℕ) → In q (l ++ p ∷ []) → In q l ⊎ (q ≡ p)
In-snoc q p [] (inl e) = inr e
In-snoc q p [] (inr h) = elim h [ ]
In-snoc q p (r ∷ l) (inl e) = inl (inl e)
In-snoc q p (r ∷ l) (inr h) = elim (In-snoc q p l h) [ inl a ↦ inl (inr a) | inr e ↦ inr e ]

pub Distinct-snoc : (p : ℕ) (l : List ℕ) → ¬ In p l → Distinct l → Distinct (l ++ p ∷ [])
Distinct-snoc p [] h d = ((λ a. a), tt)
Distinct-snoc p (r ∷ l) h (fresh, d) = (
  (λ a. elim (In-snoc r p l a) [ inl b ↦ fresh b | inr e ↦ h (inl (sym e)) ]),
  Distinct-snoc p l (λ a. h (inr a)) d,
)

-- When a callback ran: in the frame in which its task was due, or `n` frames later, which only befalls
-- a task that is due in a multiple of `n`.
abbrev pub OnTime : ℕ → Firing → Type 0
OnTime n f = (f.frame ≡ f.due) ⊎ ((f.frame ≡ f.due + n) × (f.due % n ≡ 0))

-- Task `p` is alive, its slot is `(i, s)`, and its due frame meets `P`.
abbrev pub Standing : (ℕ → ℕ × ℕ) → WheelTimer → (ℕ → Type 0) → ℕ × ℕ → ℕ → Type 0
Standing loc w P at p =
    (loc p ≡ at)
    × (p < w.next_address)
    × (task : TimerTask) × (w.tasks p ≡ some task)
    × P task.timeout_frame
    × (delay_frames w task.interval < w.max_slots * (w.max_slots * w.max_slots))

-- `sl` are the slots that the invariant speaks of: those of the timer, or all but one that is being
-- worked off.
pub record Inv (loc : ℕ → ℕ × ℕ) (b c : ℕ) (w : WheelTimer) (sl : ℕ → ℕ → List ℕ) : Type 0 where
  pub clock : Clock b c w
  pub standing :
      (i s p : ℕ)
      → In p (sl i s)
      → Standing loc w (λ t. Placed w.cur_frame b c w.max_slots t i s) (i, s) p
  pub distinct : (i s : ℕ) → Distinct (sl i s)
  pub log : All (OnTime w.max_slots) w.fired
  pub sound : w.failed ≡ false
  pub fresh : (id : ℕ) → w.next_timer_id ≤ id → w.id_2_timer_task id ≡ none

-- The tasks of slot `at` that are still to be worked off.
pub record Pending (loc : ℕ → ℕ × ℕ) (P : ℕ → Type 0) (w : WheelTimer) (at : ℕ × ℕ) (todo : List ℕ)
    : Type 0 where
  pub standing : (p : ℕ) → In p todo → Standing loc w P at p
  pub distinct : Distinct todo

-- The state in the middle of a loop over slot `s` of wheel `i`, which is under the hand.
pub record Loop (i s : ℕ) (P : ℕ → Type 0) (b c : ℕ) (w : WheelTimer) (todo : List ℕ) : Type 0 where
  pub loc : ℕ → ℕ × ℕ
  pub inv : Inv loc b c w (update₂ w.slots i s [])
  pub pending : Pending loc P w (i, s) todo
  pub hand : s ≡ w.cur_slot_index i

-- Task `p` stands in no slot of `sl`.
abbrev pub Free : (ℕ → ℕ → List ℕ) → ℕ → Type 0
Free sl p = (j u : ℕ) → ¬ In p (sl j u)

-- Changes of tasks that keep their due frames and intervals.
abbrev pub Retasks : WheelTimer → (ℕ → Option TimerTask) → Type 0
Retasks w f =
    (q : ℕ) (task : TimerTask)
    → w.tasks q ≡ some task
    → (task' : TimerTask) × (f q ≡ some task')
      × (task'.timeout_frame ≡ task.timeout_frame)
      × (task'.interval ≡ task.interval)

module _ (w : WheelTimer) (f : ℕ → Option TimerTask) (ids : ℕ → Option ℕ) (dangling : Bool)
    (fired : List Firing) (keep : Retasks w f)
    (no_new : (id : ℕ) → w.id_2_timer_task id ≡ none → ids id ≡ none) where
  abbrev retasked : WheelTimer
  retasked = record w { tasks = f; id_2_timer_task = ids; dangling = dangling; fired = fired }

  Standing-retask :
      (loc : ℕ → ℕ × ℕ) (P : ℕ → Type 0) (at : ℕ × ℕ) (p : ℕ)
      → Standing loc w P at p
      → Standing loc retasked P at p
  Standing-retask loc P at p (l, lt, task, e, h, fits) =
      let (task', e', t, v) = keep p task e in (l, lt, task', e', subst P (sym t) h, rw v fits)

  pub Loop-retask :
      {i s : ℕ} {P : ℕ → Type 0} {b c : ℕ} {todo : List ℕ}
      → All (OnTime w.max_slots) fired
      → Loop i s P b c w todo
      → Loop i s P b c retasked todo
  Loop-retask log l = record {
    loc = l.loc;
    inv = record {
      clock = record {
        positive = l.inv.clock.positive;
        small = l.inv.clock.small;
        hand0 = l.inv.clock.hand0;
        hand1 = l.inv.clock.hand1;
        hand2 = l.inv.clock.hand2;
        turned1 = l.inv.clock.turned1;
        turned2 = l.inv.clock.turned2;
      };
      standing = λ j u p h. Standing-retask l.loc _ (j, u) p (l.inv.standing j u p h);
      distinct = l.inv.distinct;
      log = log;
      sound = l.inv.sound;
      fresh = λ id h. no_new id (l.inv.fresh id h);
    };
    pending = record {
      standing = λ p h. Standing-retask l.loc _ _ p (l.pending.standing p h);
      distinct = l.pending.distinct;
    };
    hand = l.hand;
  }
