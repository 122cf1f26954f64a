-- ===== src/BitStream/RoundTrip.antt =====
-- What is written is read: strings come back, one after the other.
use archai_engine.Shared.{
  ℕ, zero, suc, ◌+◌, ◌*◌, ◌/◌, ◌%◌, ◌<◌, ◌≡◌, refl, sym, ap, ◌∙◌, Option, none, some, List, [], ◌∷◌,
  ◌++◌, ltb, arith, length, take, length-append, take-append_self, drop-append_self, append_assoc,
  append-nil, false, length-take, All,
}
use archai_engine.BitStream.{
  OutputBitStream, InputBitStream, write, write_short, write_string, read, short_value, read_short,
  read_string,
}
use archai_engine.BitStream.Growth.{contents, Ok, write-contents}

-- The bytes of a string in a stream.
abbrev encode : List ℕ → List ℕ
encode s = length s % 256 ∷ length s / 256 % 256 ∷ s

abbrev encode_all : List (List ℕ) → List ℕ
encode_all [] = []
encode_all (s ∷ strings) = encode s ++ encode_all strings

write_string-contents :
    (memory : ℕ → ℕ) (o : OutputBitStream) (s : List ℕ)
    → Ok o
    → length s < 65536
    → (o' : OutputBitStream) × (write_string memory o s ≡ some o')
      × (contents o' ≡ contents o ++ encode s)
      × Ok o'
unfolding write_string write_short
write_string-contents memory o s ok h =
    let sizes = length s % 256 ∷ length s / 256 % 256 ∷ [] in
    let (e, ok') = write-contents memory o sizes ok in
    let (e', ok'') = write-contents memory (write memory o sizes) s ok' in
    (
      write memory (write memory o sizes) s,
      ground arith,
      e' ∙ ap (λ (l : List ℕ). l ++ s) e ∙ append_assoc (contents o) sizes s,
      ok'',
    )

read_here :
    (pre bytes rest : List ℕ)
    → read (record { buffer = pre ++ (bytes ++ rest); pos = length pre }) (length bytes)
      ≡ some (bytes, record { buffer = pre ++ (bytes ++ rest); pos = length pre + length bytes })
unfolding read
read_here pre bytes rest =
    let a = length-append pre (bytes ++ rest) in
    let b = length-append bytes rest in
    let fits : ltb (length (pre ++ (bytes ++ rest))) (length pre + length bytes) ≡ false =
      ground arith in
    rw
      (
        read,
        fits,
        drop-append_self (length pre) pre (bytes ++ rest) refl,
        take-append_self (length bytes) bytes rest refl,
      )
      refl

short_bytes : (n : ℕ) → n < 65536 → n % 256 + n / 256 % 256 * 256 ≡ n
short_bytes n h = omega arith

read_string-encode :
    (pre s rest : List ℕ)
    → length s < 65536
    → read_string (record { buffer = pre ++ (encode s ++ rest); pos = length pre })
      ≡ some
          (s, record { buffer = pre ++ (encode s ++ rest); pos = length pre + length (encode s) })
unfolding read_string read_short short_value
read_string-encode pre s rest h =
    let sizes = length s % 256 ∷ length s / 256 % 256 ∷ [] in
    let whole = pre ++ (encode s ++ rest) in
    let first = read_here pre sizes (s ++ rest) in
    let size = length-append pre sizes in
    let second : read (record { buffer = whole; pos = length pre + 2 }) (length s)
        ≡ some (s, record { buffer = whole; pos = length pre + 2 + length s }) =
      rw (append_assoc pre sizes (s ++ rest), size) at (read_here (pre ++ sizes) s rest) in
    let sum : length pre + 2 + length s ≡ length pre + length (encode s) = omega arith in
    rw (read_string, read_short, first, short_value, short_bytes (length s) h, ← sum) second

-- Strings one after the other.
unfoldable pub write_strings : (ℕ → ℕ) → OutputBitStream → List (List ℕ) → Option OutputBitStream
unfolding write_string
write_strings memory o [] = some o
write_strings memory o (s ∷ strings) = elim (write_string memory o s) [
  | none ↦ none
  | some o' ↦ write_strings memory o' strings
]

pub read_strings : ℕ → InputBitStream → Option (List (List ℕ) × InputBitStream)
unfolding read_string
read_strings zero i = some ([], i)
read_strings (suc n) i = elim (read_string i) [
  | none ↦ none
  | some (s, i') ↦ elim (read_strings n i') [
    | none ↦ none
    | some (strings, i'') ↦ some (s ∷ strings, i'')
  ]
]

abbrev pub Short : List ℕ → Type 0
Short s = length s < 65536

pub write_string-Short :
    (memory : ℕ → ℕ) (o : OutputBitStream) (s : List ℕ)
    → Short s
    → (o' : OutputBitStream) × (write_string memory o s ≡ some o')
unfolding write_string
write_string-Short memory o s h = (write memory (write_short memory o (length s)) s, ground arith)

write_strings-contents :
    (memory : ℕ → ℕ) (strings : List (List ℕ)) (o : OutputBitStream)
    → Ok o
    → All Short strings
    → (o' : OutputBitStream) × (write_strings memory o strings ≡ some o')
      × (contents o' ≡ contents o ++ encode_all strings)
      × Ok o'
unfolding write_strings
write_strings-contents memory [] o ok h = (o, refl, sym (append-nil (contents o)), ok)
write_strings-contents memory (s ∷ strings) o ok (h, hs) =
    let (o', e, c, ok') = write_string-contents memory o s ok h in
    let (o'', e', c', ok'') = write_strings-contents memory strings o' ok' hs in
    (
      o'',
      rw (write_strings, e) e',
      c'
          ∙ ap (λ (l : List ℕ). l ++ encode_all strings) c
          ∙ append_assoc (contents o) (encode s) (encode_all strings),
      ok'',
    )

read_strings-encode :
    (strings : List (List ℕ)) (pre : List ℕ)
    → All Short strings
    → read_strings
        (length strings)
        (record { buffer = pre ++ encode_all strings; pos = length pre })
      ≡ some (
        strings,
        record {
          buffer = pre ++ encode_all strings;
          pos = length pre + length (encode_all strings);
        },
      )
unfolding read_strings
read_strings-encode [] pre h = let same : length pre + 0 ≡ length pre = omega arith in rw same refl
read_strings-encode (s ∷ strings) pre (h, hs) =
    let first = read_string-encode pre s (encode_all strings) h in
    let size = length-append pre (encode s) in
    let more =
      rw (append_assoc pre (encode s) (encode_all strings), size) at
        (read_strings-encode strings (pre ++ encode s) hs) in
    let len = length-append (encode s) (encode_all strings) in
    let sum : length pre + length (encode s ++ encode_all strings)
        ≡ length pre + length (encode s) + length (encode_all strings) =
      omega arith in
    rw (read_strings, first, more, sum) refl

-- Strings of fewer than 65536 bytes each are written one after the other to a stream whose position is
-- within its buffer, whatever bytes realloc adds. No write fails, what stood before the position stays,
-- and reading as many strings from there, in a stream over the bytes up to the new position, gives the
-- strings and ends at the end.
pub read-write_strings :
    (memory : ℕ → ℕ) (strings : List (List ℕ)) (o : OutputBitStream)
    → Ok o
    → All Short strings
    → (o' : OutputBitStream) × (write_strings memory o strings ≡ some o')
      × (take o.pos (contents o') ≡ contents o)
      × (read_strings (length strings) (record { buffer = contents o'; pos = o.pos })
          ≡ some (strings, record { buffer = contents o'; pos = o'.pos }))
read-write_strings memory strings o ok h =
    let (o', e, c, ok') = write_strings-contents memory strings o ok h in
    let here = length-take o.pos o.buffer in
    let there = length-take o'.pos o'.buffer in
    let whole = length-append (contents o) (encode_all strings) in
    let start : length (contents o) ≡ o.pos = omega arith in
    let same = ap length c in
    let end_at : o.pos + length (encode_all strings) ≡ o'.pos = omega arith in
    (
      o',
      e,
      rw c (take-append_self o.pos (contents o) (encode_all strings) (sym start)),
      rw (← c, start, end_at) at (read_strings-encode strings (contents o) h),
    )
