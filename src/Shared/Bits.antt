-- ===== src/Shared/Bits.antt =====
-- Masks as arithmetic. A byte is checked at every value; wider words go digit by digit.
use Prim.Native.Nat.{
  ℕ, zero, suc, ◌+◌, ◌*◌, ◌/◌, ◌%◌, ◌≤◌, ◌<◌, max, bit_and, bit_or, digits, bit_or-bitwise,
}
use mathlib.Core.Path.{◌≡◌, refl}
use mathlib.Core.Bool.{Bool, true, ◌&&◌}
use native.Mathlib.Omega.{arith}
use archai_engine.Shared.Tests.{◌==◌, ==_iff}

holds_below : ℕ → (ℕ → Bool) → Bool
holds_below zero p = true
holds_below (suc n) p = p n && holds_below n p

holds_below_sound : (n : ℕ) (p : ℕ → Bool) (x : ℕ) → holds_below n p ≡ true → x < n → p x ≡ true
unfolding holds_below
holds_below_sound zero p x h lt = absurd (omega arith)
holds_below_sound (suc n) p x h lt = ground (arith, holds_below_sound n p x)

low_table : holds_below 256 (λ b. bit_and b 0x7f == b % 128) ≡ true
unfolding holds_below
low_table = refl

-- The low seven bits of a byte.
pub bit_and_low : (b : ℕ) → b < 256 → bit_and b 0x7f ≡ b % 128
bit_and_low b h = (==_iff _ _).0 (holds_below_sound 256 _ b low_table h)

top_table : holds_below 256 (λ b. bit_and b 0x80 == b / 128 * 128) ≡ true
unfolding holds_below
top_table = refl

-- The top bit of a byte.
pub bit_and_top : (b : ℕ) → b < 256 → bit_and b 0x80 ≡ b / 128 * 128
bit_and_top b h = (==_iff _ _).0 (holds_below_sound 256 _ b top_table h)

-- `bit_or` recurs on a count of digits; any count that the first number does not exceed will do.
abbrev or_digits : ℕ → ℕ → ℕ → ℕ
or_digits = digits (λ b. b) max

or_digits_enough : (n m a b : ℕ) → a ≤ n → a ≤ m → or_digits n a b ≡ or_digits m a b
or_digits_enough zero zero zero b p q = refl
or_digits_enough zero (suc m) zero b p q = refl
or_digits_enough (suc n) zero zero b p q = refl
or_digits_enough (suc n) (suc m) zero b p q = refl
or_digits_enough zero m (suc a) b p q = absurd (omega arith)
or_digits_enough (suc n) zero (suc a) b p q = absurd (omega arith)
or_digits_enough (suc n) (suc m) (suc a) b p q =
    omega (arith, or_digits_enough n m (suc a / 2) (b / 2) (omega arith) (omega arith))

-- The lowest digit apart from the rest.
or_lowest : (a b : ℕ) → bit_or a b ≡ bit_or (a / 2) (b / 2) * 2 + max (a % 2) (b % 2)
or_lowest zero b = omega (arith, bit_or-bitwise 0 b, bit_or-bitwise 0 (b / 2))
or_lowest (suc a) b = omega (
  arith,
  bit_or-bitwise (suc a) b,
  bit_or-bitwise (suc a / 2) (b / 2),
  or_digits_enough a (suc a / 2) (suc a / 2) (b / 2) (omega arith) (omega arith),
)

or_even : (a b : ℕ) → b % 2 ≡ 0 → bit_or a b ≡ bit_or (a / 2) (b / 2) * 2 + a % 2
or_even a b h = omega (arith, or_lowest a b)

or_odd : (a b : ℕ) → b % 2 ≡ 1 → bit_or a b ≡ bit_or (a / 2) (b / 2) * 2 + 1
or_odd a b h = omega (arith, or_lowest a b)

-- Setting all bits from the seventh on keeps the low seven bits, and sets the eighth.
pub bit_or_high : (v : ℕ) → bit_or v 0xffff_ff80 % 256 ≡ v % 128 + 128
bit_or_high v = omega (
  arith,
  or_even v 0xffff_ff80 refl,
  or_even (v / 2) 0x7fff_ffc0 refl,
  or_even (v / 2 / 2) 0x3fff_ffe0 refl,
  or_even (v / 2 / 2 / 2) 0x1fff_fff0 refl,
  or_even (v / 2 / 2 / 2 / 2) 0x0fff_fff8 refl,
  or_even (v / 2 / 2 / 2 / 2 / 2) 0x07ff_fffc refl,
  or_even (v / 2 / 2 / 2 / 2 / 2 / 2) 0x03ff_fffe refl,
  or_odd (v / 2 / 2 / 2 / 2 / 2 / 2 / 2) 0x01ff_ffff refl,
)
