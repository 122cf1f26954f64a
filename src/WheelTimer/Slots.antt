-- ===== src/WheelTimer/Slots.antt =====
-- Where calculate_slot_index puts a task: the arithmetic of the wheels.
use archai_engine.Shared.{
  ℕ, zero, suc, ◌+◌, ◌*◌, ◌/◌, ◌%◌, ◌^◌, ◌≤◌, ◌<◌, ◌≡◌, ◌≢◌, ◌⊎◌, ◌↔◌, inl, inr, refl, none, some,
  arith,
}
use native.Mathlib.Decide.{dec_lt}
use native.Mathlib.Nat.{mod-add-mod, div-add-mod}
use archai_engine.WheelTimer.{WheelTimer, calculate_slot_index}

module _ (w : WheelTimer) (d : ℕ) where
  open w use {max_slots as n, cur_slot_index as cur}

  slot_first : d < n → calculate_slot_index w d ≡ some (0, (cur 0 + d) % n)
  unfolding calculate_slot_index
  slot_first h = ground arith

  slot_second : n ≤ d → d / n < n → calculate_slot_index w d ≡ some (1, (cur 1 + d / n) % n)
  unfolding calculate_slot_index
  slot_second h k = ground arith

  slot_third :
      n ≤ d
      → n ≤ d / n
      → d / n / n < n
      → calculate_slot_index w d ≡ some (2, (cur 2 + d / n / n) % n)
  unfolding calculate_slot_index
  slot_third h k l = ground arith

  slot_none : n ≤ d → n ≤ d / n → n ≤ d / n / n → calculate_slot_index w d ≡ none
  unfolding calculate_slot_index
  slot_none h k l = ground arith

-- No number comes twice among `n` that follow one another, modulo `n`.
pub window : (a b n : ℕ) → a < b → b < a + n → a % n ≢ b % n
window a b n h k e = grind arith

pub window_eq : (a b n : ℕ) → 0 < n → a < b → b < a + n → b % n ≡ (a + 1) % n → b ≡ a + 1
window_eq a b n p h k e = grind arith

div_mul_le : (d n : ℕ) → d / n * n ≤ d
div_mul_le d n = omega (arith, div-add-mod d n)

pub lt_div_mul : (d n : ℕ) → 0 < n → d < (d / n + 1) * n
lt_div_mul d n p = omega (arith, div-add-mod d n)

pub scale : (x y n : ℕ) → x ≤ y → x * n ≤ y * n
scale x y n h = grind arith

div_div_mul_le : (d n : ℕ) → d / n / n * (n * n) ≤ d
div_div_mul_le d n =
    omega (arith, div_mul_le d n, scale (d / n / n * n) (d / n) n (div_mul_le (d / n) n))

quotient_pos : (d n : ℕ) → 0 < n → n ≤ d → 0 < d / n
quotient_pos d n p h = grind arith

not_hand : (hand x d n : ℕ) → hand ≡ x % n → 0 < d → d < n → (hand + d) % n ≢ hand
not_hand hand x d n e p h f =
    window x (x + d) n (omega arith) (omega arith) (ground (arith, mod-add-mod x n d))

-- A delay fits the three wheels when it is below `n * (n * n)`.
pub div_div_lt : (d n : ℕ) → d < n * (n * n) → d / n / n < n
div_div_lt d n h = elim (dec_lt (d / n / n) n) [
  | yes small ↦ small
  | no large ↦ absurd (omega (arith, div_div_mul_le d n, scale n (d / n / n) (n * n) (omega arith)))
]

pub lt_of_div_div : (d n : ℕ) → 0 < n → d / n / n < n → d < n * (n * n)
lt_of_div_div d n p h = omega (
  arith,
  lt_div_mul d n p,
  scale (d / n + 1) (n * n) n
      (omega (arith, lt_div_mul (d / n) n p, scale (d / n / n + 1) n n (omega arith))),
)

-- The hands of the wheels in frame `cur_frame`. The second wheel has turned `b` times in all, and the
-- third one `c` times; in the middle of a tick they may still have to turn.
pub record Clock (b c : ℕ) (w : WheelTimer) : Type 0 where
  pub positive : 0 < w.max_slots
  pub small : w.max_slots * (w.max_slots * w.max_slots) ≤ 2 ^ 64
  pub hand0 : w.cur_slot_index 0 ≡ w.cur_frame % w.max_slots
  pub hand1 : w.cur_slot_index 1 ≡ b % w.max_slots
  pub hand2 : w.cur_slot_index 2 ≡ c % w.max_slots
  pub turned1 : b * w.max_slots ≤ w.cur_frame
  pub turned2 : c * (w.max_slots * w.max_slots) ≤ w.cur_frame

-- A task that is due in frame `t` may stand in slot `s` of wheel `i`. In the first wheel the slot is
-- that of frame `t`; only a task due in a multiple of `n` may be overdue. In the other wheels the hand
-- comes to the slot in frame `t` or earlier.
abbrev pub Placed : ℕ → ℕ → ℕ → ℕ → ℕ → ℕ → ℕ → Type 0
Placed now b c n t zero s = (s ≡ t % n) × (now < t + n) × (t < now + n) × ((now < t) ⊎ (t % n ≡ 0))
Placed now b c n t (suc zero) s =
    (q : ℕ) × (s ≡ q % n) × (b < q) × (q < b + n) × (q * n ≤ t) × (t < now + n * (n * n))
Placed now b c n t (suc (suc zero)) s =
    (q : ℕ) × (s ≡ q % n) × (c < q) × (q < c + n) × (q * (n * n) ≤ t) × (t < now + n * (n * n))
Placed now b c n t (suc (suc (suc i))) s = ⊥

-- A delay that fits is placed, and not under the hand, unless it is a delay of 0.
abbrev pub PlacedAt : ℕ → ℕ → WheelTimer → ℕ → ℕ → ℕ × ℕ → Type 0
PlacedAt b c w d t (i, s) =
    (calculate_slot_index w d ≡ some (i, s))
    × Placed w.cur_frame b c w.max_slots t i s
    × ((s ≢ w.cur_slot_index i) ⊎ ((i ≡ 0) × (d ≡ 0)))

module _ (b c : ℕ) (w : WheelTimer) (k : Clock b c w) (d t : ℕ) (e : t ≡ w.cur_frame + d)
    (room : d < w.max_slots * (w.max_slots * w.max_slots))
    (late : (0 < d) ⊎ (t % w.max_slots ≡ 0)) where
  open w use {max_slots as n, cur_slot_index as cur, cur_frame as now}

  placed_first : d < n → PlacedAt b c w d t (0, (cur 0 + d) % n)
  placed_first h = (
    slot_first w d h,
    (
      ground (arith, mod-add-mod now n d, k.hand0),
      omega (arith, k.positive),
      omega arith,
      ground arith,
    ),
    (elim (dec_lt 0 d) [
      | yes more ↦ inl (not_hand (cur 0) now d n k.hand0 more h)
      | no same ↦ inr (refl, omega arith)
    ]),
  )

  placed_second : n ≤ d → d / n < n → PlacedAt b c w d t (1, (cur 1 + d / n) % n)
  placed_second h l = (
    slot_second w d h l,
    (
      b + d / n,
      ground (arith, mod-add-mod b n (d / n), k.hand1),
      omega (arith, quotient_pos d n k.positive h),
      omega arith,
      omega (arith, div_mul_le d n, k.turned1),
      omega arith,
    ),
    inl (not_hand (cur 1) b (d / n) n k.hand1 (quotient_pos d n k.positive h) l),
  )

  placed_third : n ≤ d → n ≤ d / n → PlacedAt b c w d t (2, (cur 2 + d / n / n) % n)
  placed_third h l = (
    slot_third w d h l (div_div_lt d n room),
    (
      c + d / n / n,
      ground (arith, mod-add-mod c n (d / n / n), k.hand2),
      omega (arith, quotient_pos (d / n) n k.positive l),
      omega (arith, div_div_lt d n room),
      omega (arith, div_div_mul_le d n, k.turned2),
      omega arith,
    ),
    inl (
        not_hand (cur 2) c (d / n / n) n k.hand2 (quotient_pos (d / n) n k.positive l)
          (div_div_lt d n room)),
  )

  -- The place of a task that is due `d` frames from now.
  pub calculate-PlacedAt : (at : ℕ × ℕ) × PlacedAt b c w d t at
  calculate-PlacedAt = elim (dec_lt d n) [
    | yes first ↦ ((0, (cur 0 + d) % n), placed_first first)
    | no more ↦ elim (dec_lt (d / n) n) [
      | yes second ↦ ((1, (cur 1 + d / n) % n), placed_second (omega arith) second)
      | no third ↦ ((2, (cur 2 + d / n / n) % n), placed_third (omega arith) (omega arith))
    ]
  ]

calculate-some :
    (w : WheelTimer) (d : ℕ)
    → d / w.max_slots / w.max_slots < w.max_slots
    → (at : ℕ × ℕ) × (calculate_slot_index w d ≡ some at)
calculate-some w d h = elim (dec_lt d w.max_slots) [
  | yes first ↦ (_, slot_first w d first)
  | no more ↦ elim (dec_lt (d / w.max_slots) w.max_slots) [
    | yes second ↦ (_, slot_second w d (omega arith) second)
    | no third ↦ (_, slot_third w d (omega arith) (omega arith) h)
  ]
]

quotient_le : (d n : ℕ) → 0 < n → d / n ≤ d
quotient_le d n p = omega arith

-- The code finds no slot for the delays of max_slots^3 frames and more, and for no others.
pub calculate-none :
    (w : WheelTimer) (d : ℕ)
    → 0 < w.max_slots
    → (calculate_slot_index w d ≡ none) ↔ (w.max_slots * (w.max_slots * w.max_slots) ≤ d)
calculate-none w d p = (
  (λ e. elim (dec_lt d (w.max_slots * (w.max_slots * w.max_slots))) [
    | yes fits ↦ let (at, f) = calculate-some w d (div_div_lt d w.max_slots fits) in cc
    | no long ↦ omega arith
  ]),
  (λ long. elim (dec_lt (d / w.max_slots / w.max_slots) w.max_slots) [
    | yes fits ↦ absurd (omega (arith, lt_of_div_div d w.max_slots p fits))
    | no far ↦
        let a = quotient_le (d / w.max_slots) w.max_slots p in
        let b = quotient_le d w.max_slots p in
        slot_none w d (omega arith) (omega arith) (omega arith)
  ]),
)
