-- ===== src/BitStream/Growth.antt =====
-- What a write leaves in the buffer, also where realloc makes it grow.
use archai_engine.Shared.{
  ℕ, zero, suc, ◌+◌, ◌-◌, ◌*◌, ◌≤◌, ◌≡◌, refl, sym, ap, max, List, [], ◌∷◌, ◌++◌, ltb, arith,
  length, take, drop, length-append, take-append_self, append_assoc, Bool-cases, inl, inr,
  length-take,
}
use archai_engine.BitStream.{OutputBitStream, fresh, write}

-- The bytes before the position.
abbrev pub contents : OutputBitStream → List ℕ
contents o = take o.pos o.buffer

abbrev pub Ok : OutputBitStream → Type 0
Ok o = o.pos ≤ length o.buffer

length-fresh : (memory : ℕ → ℕ) (at n : ℕ) → length (fresh memory at n) ≡ n
length-fresh memory at zero = refl
length-fresh memory at (suc n) = ap suc (length-fresh memory (at + 1) n)

take-append_left : (n : ℕ) (xs ys : List ℕ) → n ≤ length xs → take n (xs ++ ys) ≡ take n xs
take-append_left zero xs ys h = refl
take-append_left (suc n) [] ys h = absurd (omega arith)
take-append_left (suc n) (x ∷ xs) ys h = ap (◌∷◌ x) (take-append_left n xs ys (omega arith))

module _ (memory : ℕ → ℕ) (o : OutputBitStream) (bytes : List ℕ) (ok : Ok o) where
  abbrev end : ℕ
  end = o.pos + length bytes

  -- The buffer that write copies into.
  abbrev Room : List ℕ → Type 0
  Room b =
      (end ≤ length b)
      × (take o.pos b ≡ contents o)
      × (write memory o bytes
          ≡ record { buffer = take o.pos b ++ (bytes ++ drop end b); pos = end })

  write-Room : (b : List ℕ) × Room b
  unfolding write
  write-Room = elim (Bool-cases (ltb (length o.buffer) end)) [
    | inl e ↦
        let n = max end (length o.buffer * 2) in
        let more = fresh memory (length o.buffer) (n - length o.buffer) in
        let size = length-append o.buffer more in
        let added = length-fresh memory (length o.buffer) (n - length o.buffer) in
        (
          o.buffer ++ more,
          (omega arith, take-append_left o.pos o.buffer more ok, rw (write, e) refl),
        )
    | inr e ↦ (o.buffer, (ground arith, refl, rw (write, e) refl))
  ]

  -- Bytes are written to a stream whose position is within its buffer, whatever bytes realloc adds.
  -- Then they stand behind the contents, the bytes before the position, which stay as they were, and
  -- the new position is within the buffer again, also where the buffer had to grow.
  pub write-contents :
      (contents (write memory o bytes) ≡ contents o ++ bytes) × Ok (write memory o bytes)
  write-contents =
      let (b, (room, same, e)) = write-Room in
      let size = length-take o.pos b in
      let front = length-append (take o.pos b) bytes in
      let whole = length-append (take o.pos b) (bytes ++ drop end b) in
      let back = length-append bytes (drop end b) in
      let split : take o.pos b ++ (bytes ++ drop end b) ≡ (take o.pos b ++ bytes) ++ drop end b =
        sym (append_assoc (take o.pos b) bytes (drop end b)) in
      (
        rw (e, split, ← same)
            (take-append_self end (take o.pos b ++ bytes) (drop end b) (omega arith)),
        rw e (omega arith),
      )
