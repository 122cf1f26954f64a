-- ===== src/SevenBit.antt =====
-- bit_utils.cpp: the 7-bit encoding of a uint32_t. A `char` is its bit pattern, a number below 256;
-- a char array is a list. `none` is an access outside the array, or a shift by 32 or more.
pub mod Encode
pub mod RoundTrip
mod Tests
use archai_engine.Shared.{
  ℕ, zero, suc, ◌+◌, ◌*◌, ◌/◌, ◌%◌, ◌^◌, ◌<◌, bit_and, bit_or, Option, none, some, List, [], ◌∷◌,
  ◌==◌, ltb, leb, if◌then◌else◌,
}
use mathlib.Core.Option

-- The room of `char bytes[5]`.
abbrev pub max_len_size : ℕ
max_len_size = 5

abbrev pub IsU32 : ℕ → Type 0
IsU32 v = v < 2 ^ 32

-- `(char)(value | ~0x7F)`
abbrev pub continued_byte : ℕ → ℕ
continued_byte value = bit_or value 0xffff_ff80 % 256

-- The loop, over the room that is left in the array; the result is the bytes written, `bytes[0..i)`.
unfoldable pub write_loop : ℕ → ℕ → Option (List ℕ)
write_loop zero value = none
write_loop (suc room) value =
    let rest = write_loop room (value / 2 ^ 7) in
    if ltb 0x7f value
    then Option.map (◌∷◌ (continued_byte value)) rest
    else some ((value % 256) ∷ [])

unfoldable pub write_7bit_encoded_int : ℕ → Option (List ℕ)
write_7bit_encoded_int value = write_loop max_len_size value

-- The loop at byte `i`, with the shift `s` and the sum `value` so far; the list is the array from
-- `i` on. The result is the value and the count of bytes read, `*out_pos`.
unfoldable pub read_loop : List ℕ → ℕ → ℕ → ℕ → Option (ℕ × ℕ)
read_loop [] i s value = none
read_loop (c ∷ bytes) i s value =
    let x = bit_and c 0x7f * 2 ^ s % 2 ^ 32 in
    let value' = (value + x) % 2 ^ 32 in
    let more = read_loop bytes (i + 1) (s + 7) value' in
    if leb 32 s then none else if bit_and c 0x80 == 0 then some (value', i + 1) else more

unfoldable pub read_7bit_encoded_int : List ℕ → Option (ℕ × ℕ)
read_7bit_encoded_int bytes = read_loop bytes 0 0 0
