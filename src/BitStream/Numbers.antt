-- ===== src/BitStream/Numbers.antt =====
-- What a number, or any value, leaves in a stream, and that it is read back, whatever follows.
use archai_engine.Shared.{
  ℕ, zero, suc, ◌+◌, ◌*◌, ◌/◌, ◌^◌, ◌<◌, ◌≡◌, refl, sym, ap, ◌∙◌, Option, some, List, [], ◌∷◌, ◌++◌,
  ltb, arith, length, drop, length-append, take-append_self, drop-append_self, append_assoc, false,
}
use archai_engine.Shared.Options.{◌>>=◌}
use native.Mathlib.Nat.{pow-succ'}
use archai_engine.BitStream.{
  OutputBitStream, InputBitStream, read, bytes_of, value_of, write_number, read_number,
}
use archai_engine.BitStream.Growth.{contents, Ok, write-contents}

abbrev pub skip : InputBitStream → ℕ → InputBitStream
skip i n = record i { pos = i.pos + n }

-- `rest` is what a stream has still to give.
abbrev pub Rest : InputBitStream → List ℕ → Type 0
Rest i rest = (drop i.pos i.buffer ≡ rest) × (i.pos + length rest ≡ length i.buffer)

drop_nil : (n : ℕ) → drop {A = ℕ} n [] ≡ []
drop_nil zero = refl
drop_nil (suc n) = refl

drop-drop : (n m : ℕ) (xs : List ℕ) → drop m (drop n xs) ≡ drop (n + m) xs
drop-drop zero m xs = let e : 0 + m ≡ m = omega arith in rw e refl
drop-drop (suc n) m [] = drop_nil m ∙ sym (drop_nil (suc n + m))
drop-drop (suc n) m (x ∷ xs) =
    let e : suc n + m ≡ suc (n + m) = omega arith in rw e (drop-drop n m xs)

pub read-Rest :
    (i : InputBitStream) (bytes rest : List ℕ)
    → Rest i (bytes ++ rest)
    → (read i (length bytes) ≡ some (bytes, skip i (length bytes)))
      × Rest (skip i (length bytes)) rest
unfolding read
read-Rest i bytes rest (e, size) =
    let sum = length-append bytes rest in
    let fits : ltb (length i.buffer) (i.pos + length bytes) ≡ false = ground arith in
    (
      rw (read, fits, e, take-append_self (length bytes) bytes rest refl) refl,
      (
        sym (drop-drop i.pos (length bytes) i.buffer)
            ∙ ap (drop (length bytes)) e
            ∙ drop-append_self (length bytes) bytes rest refl,
        omega arith,
      ),
    )

-- Writing has taken the stream `o` to `o'`, and added `bytes`.
abbrev pub Adds : OutputBitStream → OutputBitStream → List ℕ → Type 0
Adds o o' bytes = (contents o' ≡ contents o ++ bytes) × Ok o'

pub Adds-then :
    (o o' o'' : OutputBitStream) (bytes bytes' : List ℕ)
    → Adds o o' bytes
    → Adds o' o'' bytes'
    → Adds o o'' (bytes ++ bytes')
Adds-then o o' o'' bytes bytes' (e, ok) (e', ok') =
    (e' ∙ ap (λ (l : List ℕ). l ++ bytes') e ∙ append_assoc (contents o) bytes bytes', ok')

-- `get` reads `a` from `bytes`, and no more, whatever follows.
abbrev pub Reads :
    {A : Type 0} → (InputBitStream → Option (A × InputBitStream)) → A → List ℕ → Type 0
Reads get a bytes =
    (i : InputBitStream) (rest : List ℕ)
    → Rest i (bytes ++ rest)
    → (get i ≡ some (a, skip i (length bytes))) × Rest (skip i (length bytes)) rest

-- One value is read, and then what comes after it.
pub Reads-bind :
    {A B : Type 0} (get : InputBitStream → Option (A × InputBitStream))
    (f : A → InputBitStream → Option (B × InputBitStream)) {a : A} {b : B} (bytes bytes' : List ℕ)
    → Reads get a bytes
    → Reads (f a) b bytes'
    → Reads (λ i. get i >>= λ (x, i'). f x i') b (bytes ++ bytes')
Reads-bind get f {a} {b} bytes bytes' r r' i rest here =
    let (found, after) = r i (bytes' ++ rest) (rw (append_assoc bytes bytes' rest) at here) in
    let (found', after') = r' (skip i (length bytes)) rest after in
    let sum : i.pos + length bytes + length bytes' ≡ i.pos + length (bytes ++ bytes') =
      omega (arith, length-append bytes bytes') in
    (rw (found, ← sum) found', rw (← sum) after')

-- One value is read, and that is all.
pub Reads-map :
    {A B : Type 0} (get : InputBitStream → Option (A × InputBitStream))
    (f : A → InputBitStream → Option (B × InputBitStream)) {a : A} (b : B) (bytes : List ℕ)
    → Reads get a bytes
    → ((i : InputBitStream) → f a i ≡ some (b, i))
    → Reads (λ i. get i >>= λ (x, i'). f x i') b bytes
Reads-map get f b bytes r h i rest here =
    let (found, after) = r i rest here in (rw found (h (skip i (length bytes))), after)

-- Nothing is read.
pub Reads-done :
    {A : Type 0} {get : InputBitStream → Option (A × InputBitStream)} (a : A)
    → ((i : InputBitStream) → get i ≡ some (a, i))
    → Reads get a []
Reads-done a h i rest here =
    let same : i.pos + 0 ≡ i.pos = omega arith in (rw same (h i), rw same here)

pub value_of-bytes_of : (k n : ℕ) → n < 256 ^ k → value_of (bytes_of k n) ≡ n
unfolding value_of bytes_of
value_of-bytes_of zero n h = omega arith
value_of-bytes_of (suc k) n h =
    let h' : n < 256 * 256 ^ k = rw (pow-succ' 256 k) at h in
    omega (arith, value_of-bytes_of k (n / 256) (omega arith))

pub length-bytes_of : (k n : ℕ) → length (bytes_of k n) ≡ k
unfolding bytes_of
length-bytes_of zero n = refl
length-bytes_of (suc k) n = ap suc (length-bytes_of k (n / 256))

-- Numbers in a stream.
module _ (k n : ℕ) where
  pub write_number-Adds :
      (memory : ℕ → ℕ) (o : OutputBitStream)
      → Ok o
      → Adds o (write_number memory k o n) (bytes_of k n)
  unfolding write_number
  write_number-Adds memory o ok = write-contents memory o (bytes_of k n) ok

  pub read_number-Reads : n < 256 ^ k → Reads (read_number k) n (bytes_of k n)
  unfolding read_number
  read_number-Reads h i rest here =
      let (found, after) = read-Rest i (bytes_of k n) rest here in
      let found' : read i k ≡ some (bytes_of k n, skip i (length (bytes_of k n))) =
        ap (read i) (sym (length-bytes_of k n)) ∙ found in
      (rw (read_number, found', value_of-bytes_of k n h) refl, after)
