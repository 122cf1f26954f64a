-- ===== src/SevenBit/Tests.antt =====
-- Runs of the 7-bit encoding, and the theorems at concrete inputs.
use archai_engine.Shared.{ℕ, ◌≤◌, ◌≡◌, refl, none, some, List, [], ◌∷◌, arith, length}
use archai_engine.SevenBit.{
  max_len_size, write_loop, write_7bit_encoded_int, read_loop, read_7bit_encoded_int,
}
use archai_engine.SevenBit.Encode.{IsCode, write_7bit_total}
use archai_engine.SevenBit.RoundTrip.{read-write_7bit, read_7bit-code_value}

write_300 : write_7bit_encoded_int 300 ≡ some (0xac ∷ 0x02 ∷ [])
unfolding write_7bit_encoded_int write_loop
write_300 = refl

write_max : write_7bit_encoded_int 0xffff_ffff ≡ some (0xff ∷ 0xff ∷ 0xff ∷ 0xff ∷ 0x0f ∷ [])
unfolding write_7bit_encoded_int write_loop
write_max = refl

-- Five continued bytes run out of the array.
read_runaway : read_7bit_encoded_int (0x80 ∷ 0x80 ∷ 0x80 ∷ 0x80 ∷ 0x80 ∷ []) ≡ none
unfolding read_7bit_encoded_int read_loop
read_runaway = refl

write_7bit_total_example :
    (bs : List ℕ) × (write_7bit_encoded_int 300 ≡ some bs)
    × IsCode bs
    × (1 ≤ length bs)
    × (length bs ≤ max_len_size)
write_7bit_total_example = write_7bit_total 300 (omega arith)

read-write_7bit_example : read_7bit_encoded_int (0xac ∷ 0x02 ∷ 9 ∷ []) ≡ some (300, 2)
read-write_7bit_example = read-write_7bit 300 (0xac ∷ 0x02 ∷ []) (9 ∷ []) (omega arith) write_300

read_7bit-code_value_example : read_7bit_encoded_int (0x80 ∷ 0x01 ∷ 7 ∷ []) ≡ some (128, 2)
read_7bit-code_value_example =
    read_7bit-code_value (0x80 ∷ 0x01 ∷ []) (7 ∷ []) (omega arith) (omega arith)
