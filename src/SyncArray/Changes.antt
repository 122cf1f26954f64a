-- ===== src/SyncArray/Changes.antt =====
-- One change of an array: what it adds to the log, and that a copy that reads this makes it too.
use archai_engine.Shared.{
  ℕ, ◌%◌, ◌^◌, ◌<◌, ◌≡◌, sym, Option, some, List, [], ◌++◌, arith, length, append-nil,
  length-append,
}
use mathlib.Core.Path.{fun_ext}
use archai_engine.Shared.Options.{◌>>=◌}
use archai_engine.BitStream.{OutputBitStream, InputBitStream, bytes_of, write_number, read_number}
use archai_engine.BitStream.Growth.{Ok}
use archai_engine.BitStream.Numbers.{
  Adds, Adds-then, Reads, Reads-bind, write_number-Adds, read_number-Reads, length-bytes_of,
}
use archai_engine.SyncArray.{
  Serial, SyncArray, insert, erase, push_back, pop_back, resize, assign, mark_dirty, apply_one,
}

-- What is asked of the values: what `put` writes, `get` reads, whatever follows; and a value's delta is
-- the whole value, as for numbers. SkillInfo, the only type of which the code has such an array, is none
-- of these: its delta is a flag and the fields that changed, and nothing in the code reads it.
pub record IsPlain {A : Type 0} (s : Serial A) : Type 0 where
  pub back :
      (o o' : OutputBitStream) (a : A)
      → Ok o
      → s.put o a ≡ some o'
      → (bytes : List ℕ) × Adds o o' bytes × Reads s.get a bytes
  pub delta :
      (o o' : OutputBitStream) (a a' : A)
      → s.put_delta o a ≡ some (o', a')
      → (s.put o a ≡ some o') × (a' ≡ a)

-- The changes that are logged. An update is an assignment that is then marked.
pub data Change (A : Type 0) : Type 0 where
  pushes : A → Change A
  pops : Change A
  inserts : ℕ → A → Change A
  erases : ℕ → Change A
  resizes : ℕ → Change A
  updates : ℕ → A → Change A

-- An index or a size is logged in 16 bits.
abbrev pub Fits : {A : Type 0} → Change A → Type 0
Fits (pushes v) = Unit {0}
Fits pops = Unit {0}
Fits (inserts i v) = i < 65536
Fits (erases i) = i < 65536
Fits (resizes n) = n < 65536
Fits (updates i v) = i < 65536

module _ (memory : ℕ → ℕ) {A : Type 0} (s : Serial A) where
  unfoldable pub change : Change A → SyncArray A → Option (SyncArray A)
  unfolding push_back pop_back insert erase resize assign mark_dirty
  change (pushes v) a = push_back memory s a v
  change pops a = pop_back memory s a
  change (inserts i v) a = insert memory s a i v
  change (erases i) a = erase memory s a i
  change (resizes n) a = some (resize memory s a n)
  change (updates i v) a = assign memory s a i v >>= λ a'. mark_dirty memory s a' i

  -- One round of the copy's loop.
  abbrev pub round : List A → InputBitStream → Option (List A × InputBitStream)
  round vec i = read_number 1 i >>= λ (op, i'). apply_one s op vec i'

  -- The log has the bytes of an operation more, and they take a copy from `vec` to `vec'`.
  abbrev pub Logs : OutputBitStream → OutputBitStream → List A → List A → Type 0
  Logs o o' vec vec' =
      (bytes : List ℕ) × Adds o o' bytes × Reads (round vec) vec' bytes × (0 < length bytes)

  -- The first byte of an operation.
  pub Logs-op :
      (op : ℕ) (o o' : OutputBitStream) (vec vec' : List A) (bytes : List ℕ)
      → op < 256
      → Ok o
      → Adds (write_number memory 1 o op) o' bytes
      → Reads (apply_one s op vec) vec' bytes
      → Logs o o' vec vec'
  Logs-op op o o' vec vec' bytes h ok adds reads = (
    bytes_of 1 op ++ bytes,
    Adds-then o (write_number memory 1 o op) o' (bytes_of 1 op) bytes
        (write_number-Adds 1 op memory o ok) adds,
    Reads-bind (read_number 1) (λ x i. apply_one s x vec i) (bytes_of 1 op) bytes
        (read_number-Reads 1 op h) reads,
    omega (arith, length-append (bytes_of 1 op) bytes, length-bytes_of 1 op),
  )

  -- An operation with a 16-bit index or size, which comes first.
  pub Logs-indexed :
      (op n : ℕ) (o o' : OutputBitStream) (vec vec' : List A)
      (f : ℕ → InputBitStream → Option (List A × InputBitStream)) (bytes : List ℕ)
      → op < 256
      → n < 65536
      → ((i : InputBitStream) → apply_one s op vec i ≡ (read_number 2 i >>= λ (x, i'). f x i'))
      → Ok o
      → Adds (write_number memory 2 (write_number memory 1 o op) (n % 2 ^ 16)) o' bytes
      → Reads (f n) vec' bytes
      → Logs o o' vec vec'
  Logs-indexed op n o o' vec vec' f bytes h fits same ok adds reads =
      let o₁ = write_number memory 1 o op in
      let ok₁ = (write_number-Adds 1 op memory o ok).1 in
      let whole : n % 2 ^ 16 ≡ n = omega arith in
      let adds' : Adds (write_number memory 2 o₁ n) o' bytes = rw whole at adds in
      Logs-op op o o' vec vec' (bytes_of 2 n ++ bytes) h ok
        (Adds-then o₁ (write_number memory 2 o₁ n) o' (bytes_of 2 n) bytes
          (write_number-Adds 2 n memory o₁ ok₁) adds')
        (rw (fun_ext same)
          (Reads-bind (read_number 2) f (bytes_of 2 n) bytes (read_number-Reads 2 n fits) reads))

  pub op_Ok : (op : ℕ) (o : OutputBitStream) → Ok o → Ok (write_number memory 1 o op)
  op_Ok op o ok = (write_number-Adds 1 op memory o ok).1

  pub index_Ok :
      (op n : ℕ) (o : OutputBitStream)
      → Ok o
      → Ok (write_number memory 2 (write_number memory 1 o op) n)
  index_Ok op n o ok = (write_number-Adds 2 n memory (write_number memory 1 o op) (op_Ok op o ok)).1

  pub nothing : (o : OutputBitStream) → Ok o → Adds o o []
  nothing o ok = (sym (append-nil _), ok)
