-- ===== src/BitStream.antt =====
-- bit_stream.h and bit_stream.cpp: the streams that values are written to and read from. A buffer is
-- the list of its bytes, so that m_capacity is its length; bytes that realloc adds are given by a
-- function of their address. Numbers are little-endian. `none` is a StreamException or a failed assert.
pub mod Growth
pub mod RoundTrip
pub mod Numbers
mod Tests
use archai_engine.Shared.Options.{◌>>=◌}
use archai_engine.Shared.{
  ℕ, zero, suc, ◌+◌, ◌-◌, ◌*◌, ◌/◌, ◌%◌, max, Option, none, some, List, [], ◌∷◌, ◌++◌, ltb,
  if◌then◌else◌, length, take, drop,
}

pub record OutputBitStream : Type 0 where
  pub buffer : List ℕ
  pub pos : ℕ

abbrev pub empty : OutputBitStream
empty = record { buffer = []; pos = 0 }

abbrev pub fresh : (ℕ → ℕ) → ℕ → ℕ → List ℕ
fresh memory at zero = []
fresh memory at (suc n) = memory at ∷ fresh memory (at + 1) n

-- The bytes of a number in memory, and the number that they stand for.
pub bytes_of : ℕ → ℕ → List ℕ
bytes_of zero n = []
bytes_of (suc k) n = n % 256 ∷ bytes_of k (n / 256)

pub value_of : List ℕ → ℕ
value_of [] = 0
value_of (b ∷ bytes) = b + 256 * value_of bytes

module _ (memory : ℕ → ℕ) where
  abbrev pub realloc_buffer : List ℕ → ℕ → List ℕ
  realloc_buffer buffer n = buffer ++ fresh memory (length buffer) (n - length buffer)

  -- `write(const void* data, size_t bytes)`
  pub write : OutputBitStream → List ℕ → OutputBitStream
  write o bytes =
      let end = o.pos + length bytes in
      let grown = realloc_buffer o.buffer (max end (length o.buffer * 2)) in
      let buffer = if ltb (length o.buffer) end then grown else o.buffer in
      record { buffer = take o.pos buffer ++ (bytes ++ drop end buffer); pos = end }

  -- `write((unsigned short)n)`
  pub write_short : OutputBitStream → ℕ → OutputBitStream
  unfolding write
  write_short o n = write o (n % 256 ∷ n / 256 % 256 ∷ [])

  -- `write(T data)` of an arithmetic type of `k` bytes.
  unfoldable pub write_number : ℕ → OutputBitStream → ℕ → OutputBitStream
  unfolding write bytes_of
  write_number k o n = write o (bytes_of k n)

  -- `write(const std::string& str)`
  pub write_string : OutputBitStream → List ℕ → Option OutputBitStream
  unfolding write_short
  write_string o str =
      if ltb (length str) 65536 then some (write (write_short o (length str)) str) else none

abbrev pub seekp : OutputBitStream → ℕ → OutputBitStream
seekp o pos = record o { pos = pos }

pub record InputBitStream : Type 0 where
  pub buffer : List ℕ
  pub pos : ℕ

-- `read(void* dest, size_t bytes)`, check_overflow included.
pub read : InputBitStream → ℕ → Option (List ℕ × InputBitStream)
read i bytes =
    if ltb (length i.buffer) (i.pos + bytes)
    then none
    else some (take bytes (drop i.pos i.buffer), record i { pos = i.pos + bytes })

-- `read<uint16_t>()`
pub short_value : List ℕ → ℕ
short_value [] = 0
short_value (lo ∷ []) = lo
short_value (lo ∷ hi ∷ bytes) = lo + hi * 256

pub read_short : InputBitStream → Option (ℕ × InputBitStream)
unfolding read short_value
read_short i = elim (read i 2) [ none ↦ none | some (bytes, i') ↦ some (short_value bytes, i') ]

-- `read<T>()` of an arithmetic type of `k` bytes.
pub read_number : ℕ → InputBitStream → Option (ℕ × InputBitStream)
unfolding read value_of
read_number k i = do (bytes, i') ← read i k; some (value_of bytes, i')

pub read_string : InputBitStream → Option (List ℕ × InputBitStream)
unfolding read_short
read_string i = elim (read_short i) [ none ↦ none | some (n, i') ↦ read i' n ]
