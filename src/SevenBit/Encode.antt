-- ===== src/SevenBit/Encode.antt =====
-- What `write_7bit_encoded_int` puts into its array.
use archai_engine.Shared.{
  ℕ, zero, suc, ◌/◌, ◌%◌, ◌^◌, ◌≤◌, ◌<◌, ◌≡◌, some, List, [], ◌∷◌, length, arith,
}
use native.Mathlib.Decide.{dec_lt}
use archai_engine.Shared.Bits.{bit_or_high}
use archai_engine.SevenBit.{IsU32, max_len_size, continued_byte, write_loop, write_7bit_encoded_int}

-- The top bit is set on every byte but the last.
abbrev pub IsCode : List ℕ → Type 0
IsCode [] = ⊥
IsCode (c ∷ []) = c < 128
IsCode (c ∷ d ∷ bytes) = (128 ≤ c) × (c < 256) × IsCode (d ∷ bytes)

IsCode-cons : (c : ℕ) (bytes : List ℕ) → 128 ≤ c → c < 256 → IsCode bytes → IsCode (c ∷ bytes)
IsCode-cons c [] lo hi h = absurd h
IsCode-cons c (d ∷ bytes) lo hi h = (lo, hi, h)

-- The result of the loop: it fits the room, is a code, and is made of bytes.
abbrev pub IsWritten : ℕ → ℕ → Type 0
IsWritten room value =
    (bs : List ℕ) × (write_loop room value ≡ some bs)
    × IsCode bs
    × (1 ≤ length bs)
    × (length bs ≤ room)

last-IsWritten : (room value : ℕ) → value < 128 → IsWritten (suc room) value
unfolding write_loop
last-IsWritten room value h =
    (value % 256 ∷ [], ground arith, omega arith, omega arith, omega arith)

more-IsWritten :
    (room value : ℕ) → 127 < value → IsWritten room (value / 128) → IsWritten (suc room) value
unfolding write_loop
more-IsWritten room value more (bs, e, code, lo, hi) = (
  continued_byte value ∷ bs,
  rw e (ground arith),
  IsCode-cons (continued_byte value) bs (omega (arith, bit_or_high value))
      (omega (arith, bit_or_high value)) code,
  omega arith,
  omega arith,
)

write_loop-IsWritten : (room value : ℕ) → value < 128 ^ suc room → IsWritten (suc room) value
write_loop-IsWritten zero value h = last-IsWritten zero value (omega arith)
write_loop-IsWritten (suc room) value h = elim (dec_lt 127 value) [
  | yes more ↦
      more-IsWritten (suc room) value more (write_loop-IsWritten room (value / 128) (omega arith))
  | no last ↦ last-IsWritten (suc room) value (omega arith)
]

-- Every uint32_t has a code, which fits the array: no byte is written outside `bytes[5]`.
-- Only the last byte of the code has its top bit clear.
pub write_7bit_total :
    (value : ℕ)
    → IsU32 value
    → (bs : List ℕ) × (write_7bit_encoded_int value ≡ some bs)
      × IsCode bs
      × (1 ≤ length bs)
      × (length bs ≤ max_len_size)
unfolding write_7bit_encoded_int
write_7bit_total value h = write_loop-IsWritten 4 value (omega arith)
