-- ===== src/SevenBit/RoundTrip.antt =====
-- `read_7bit_encoded_int` on what `write_7bit_encoded_int` wrote, and on codes from elsewhere.
use archai_engine.Shared.{
  ℕ, zero, suc, ◌+◌, ◌*◌, ◌/◌, ◌%◌, ◌^◌, ◌≤◌, ◌<◌, ◌≡◌, some, List, [], ◌∷◌, ◌++◌, length, ap,
  bit_or, arith, ◌⊎◌, inl, inr, Option-cases,
}
use archai_engine.Shared.Bits.{bit_and_low, bit_and_top, bit_or_high}
use archai_engine.SevenBit.{
  IsU32, continued_byte, max_len_size, write_loop, write_7bit_encoded_int, read_loop,
  read_7bit_encoded_int,
}
use archai_engine.SevenBit.Encode.{IsCode}
use native.Mathlib.Decide.{dec_lt}
use native.Mathlib.Nat.{div-add-mod}
use native.Mathlib.Numerals.{towards_suc}

-- One round on a last byte, and on a byte that others follow.
read_last :
    (c i s value : ℕ) (bytes : List ℕ)
    → c < 128
    → s < 32
    → read_loop (c ∷ bytes) i s value ≡ some ((value + c * 2 ^ s % 2 ^ 32) % 2 ^ 32, i + 1)
unfolding read_loop
read_last c i s value bytes hc hs = ground (arith, bit_and_low c, bit_and_top c)

read_more :
    (c i s value : ℕ) (bytes : List ℕ)
    → 128 ≤ c
    → c < 256
    → s < 32
    → read_loop (c ∷ bytes) i s value
      ≡ read_loop bytes (i + 1) (s + 7) ((value + c % 128 * 2 ^ s % 2 ^ 32) % 2 ^ 32)
unfolding read_loop
read_more c i s value bytes lo hi hs = ground (arith, bit_and_low c, bit_and_top c)

read_continued :
    (v i s value : ℕ) (bytes : List ℕ)
    → s < 32
    → IsU32 (value + v % 128 * 2 ^ s)
    → read_loop (continued_byte v ∷ bytes) i s value
      ≡ read_loop bytes (i + 1) (s + 7) (value + v % 128 * 2 ^ s)
read_continued v i s value bytes hs fits =
    let e : bit_or v 0xffff_ff80 % 256 ≡ v % 128 + 128 = bit_or_high v in
    let g : (v % 128 + 128) % 128 ≡ v % 128 = omega arith in
    rw (e, read_more (v % 128 + 128) i s value bytes (omega arith) (omega arith) hs, g)
      (ground arith)

pow_seven_more : (s : ℕ) → 2 ^ (s + 7) ≡ 128 * 2 ^ s
pow_seven_more s = simp towards_suc (omega arith)

-- The low seven bits of `v` and the rest, all shifted by `s`.
split_low : (v s : ℕ) → v * 2 ^ s ≡ v % 128 * 2 ^ s + v / 128 * 2 ^ (s + 7)
split_low v s = omega (
  arith,
  ap (λ (t : ℕ). t * 2 ^ s) (div-add-mod v 128),
  ap (λ (t : ℕ). v / 128 * t) (pow_seven_more s),
)

-- What the writer's loop can have written.
abbrev Wrote : ℕ → ℕ → List ℕ → Type 0
Wrote room v bs =
    ((v < 128) × (bs ≡ v ∷ []))
    ⊎ ((tail : List ℕ) × (127 < v)
        × (write_loop room (v / 128) ≡ some tail)
        × (bs ≡ continued_byte v ∷ tail))

write_loop-Wrote : (room v : ℕ) (bs : List ℕ) → write_loop (suc room) v ≡ some bs → Wrote room v bs
unfolding write_loop
write_loop-Wrote room v bs w = elim (Option-cases (write_loop room (v / 128))) [
  | inl e ↦ inl (ground arith, ground arith)
  | inr (tail, e) ↦ elim (dec_lt 127 v) [
    | yes more ↦ inr (tail, more, e, ground arith)
    | no last ↦ inl (omega arith, ground arith)
  ]
]

-- The reader, `i` bytes in, adds what the writer has still to write.
read-write_loop :
    (room v i s value : ℕ) (bs rest : List ℕ)
    → write_loop room v ≡ some bs
    → s + 7 * room ≤ 35
    → IsU32 (value + v * 2 ^ s)
    → read_loop (bs ++ rest) i s value ≡ some (value + v * 2 ^ s, i + length bs)
read-write_loop zero v i s value bs rest w hs fits = unfold write_loop in cc
read-write_loop (suc room) v i s value bs rest w hs fits = elim (write_loop-Wrote room v bs w) [
  | inl (small, e) ↦ rw (e, read_last v i s value rest small (omega arith)) (ground arith)
  | inr (tail, big, wt, e) ↦
      rw (e, read_continued v i s value (tail ++ rest) (omega arith) (omega (arith, split_low v s)))
        (ground (
          arith,
          split_low v s,
          read-write_loop room (v / 128) (i + 1) (s + 7) (value + v % 128 * 2 ^ s) tail rest wt,
        ))
]

-- `read_7bit_encoded_int` gives back the uint32_t that was written, and the count of bytes that it
-- took, whatever follows in the array.
pub read-write_7bit :
    (value : ℕ) (bs rest : List ℕ)
    → IsU32 value
    → write_7bit_encoded_int value ≡ some bs
    → read_7bit_encoded_int (bs ++ rest) ≡ some (value, length bs)
unfolding write_7bit_encoded_int read_7bit_encoded_int
read-write_7bit value bs rest h w = ground (arith, read-write_loop 5 value 0 0 0 bs rest w)

-- The number that a code stands for: its low seven bits first.
abbrev pub code_value : List ℕ → ℕ
code_value [] = 0
code_value (c ∷ bs) = c % 128 + 128 * code_value bs

-- The part of the sum that a byte `c` and the value `r` of the bytes behind it make, shifted by `s`.
shift_group : (c r s : ℕ) → (c % 128 + 128 * r) * 2 ^ s ≡ c % 128 * 2 ^ s + r * 2 ^ (s + 7)
shift_group c r s = omega (arith, ap (λ (t : ℕ). r * t) (pow_seven_more s))

read_loop-IsCode :
    (bs rest : List ℕ) (i s value : ℕ)
    → IsCode bs
    → s + 7 * length bs ≤ 35
    → read_loop (bs ++ rest) i s value
      ≡ some ((value + code_value bs * 2 ^ s) % 2 ^ 32, i + length bs)
read_loop-IsCode [] rest i s value code hs = absurd code
read_loop-IsCode (c ∷ []) rest i s value code hs =
    rw (read_last c i s value rest code (omega arith)) (ground (arith, shift_group c 0 s))
read_loop-IsCode (c ∷ d ∷ bs) rest i s value (lo, hi, code) hs =
    let value' = (value + c % 128 * 2 ^ s % 2 ^ 32) % 2 ^ 32 in
    rw
      (
        read_more c i s value (d ∷ bs ++ rest) lo hi (omega arith),
        read_loop-IsCode (d ∷ bs) rest (i + 1) (s + 7) value' code (omega arith),
      )
      (ground (arith, shift_group c (code_value (d ∷ bs)) s))

-- On every code of at most five bytes, also one that the writer would not write, the reader stays
-- inside the array and below a shift of 32: it reads the whole code, and gives its value mod 2^32.
pub read_7bit-code_value :
    (bs rest : List ℕ)
    → IsCode bs
    → length bs ≤ max_len_size
    → read_7bit_encoded_int (bs ++ rest) ≡ some (code_value bs % 2 ^ 32, length bs)
unfolding read_7bit_encoded_int
read_7bit-code_value bs rest code h =
    rw (read_loop-IsCode bs rest 0 0 0 code (omega arith)) (ground arith)
