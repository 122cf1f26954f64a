-- ===== src/BitStream/Tests.antt =====
-- Runs of the streams, and the theorem at one.
use archai_engine.Shared.{ℕ, ◌≡◌, refl, some, List, [], ◌∷◌, take, arith}
use archai_engine.BitStream.{OutputBitStream, write}
use archai_engine.BitStream.Growth.{contents, Ok, write-contents}
use archai_engine.BitStream.RoundTrip.{write_strings, read_strings, read-write_strings}

abbrev memory : ℕ → ℕ
memory at = 205

abbrev words : List (List ℕ)
words = (104 ∷ 105 ∷ []) ∷ [] ∷ (33 ∷ []) ∷ []

-- A stream that has a byte, and a byte after its position.
abbrev started : OutputBitStream
started = record { buffer = 9 ∷ 8 ∷ []; pos = 1 }

read-write_strings_example :
    (o' : OutputBitStream) × (write_strings memory started words ≡ some o')
    × (take 1 (contents o') ≡ contents started)
    × (read_strings 3 (record { buffer = contents o'; pos = 1 })
        ≡ some (words, record { buffer = contents o'; pos = o'.pos }))
read-write_strings_example =
    read-write_strings memory words started (omega arith)
      (omega arith, (omega arith, (omega arith, tt)))

written-bytes :
    write_strings memory started words
    ≡ some (record {
      buffer = 9 ∷ 2 ∷ 0 ∷ 104 ∷ 105 ∷ 0 ∷ 0 ∷ 1 ∷ 0 ∷ 33 ∷ 205 ∷ 205 ∷ 205 ∷ 205 ∷ 205 ∷ 205 ∷ [];
      pos = 10;
    })
unfolding write_strings
written-bytes = refl

write-contents_example :
    (contents (write memory started (1 ∷ 2 ∷ 3 ∷ [])) ≡ 9 ∷ 1 ∷ 2 ∷ 3 ∷ [])
    × Ok (write memory started (1 ∷ 2 ∷ 3 ∷ []))
write-contents_example = write-contents memory started (1 ∷ 2 ∷ 3 ∷ []) (omega arith)
