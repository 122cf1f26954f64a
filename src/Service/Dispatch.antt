-- ===== src/Service/Dispatch.antt =====
-- The parts of a message, in SpaceService::handle_msg and, for the other side, in
-- TcpConnection's send_raw_msg.
use archai_engine.Shared.{
  ℕ, zero, suc, ◌+◌, ◌<◌, ◌^◌, ◌%◌, ◌≡◌, refl, sym, ap, ◌∙◌, Option, none, some, List, [], ◌∷◌,
  ◌++◌, length, take, drop, ltb, if◌then◌else◌, arith, append_assoc,
}
use archai_engine.Shared.Options.{◌>>=◌, >>=-eq-some}
use archai_engine.SevenBit.{IsU32, read_7bit_encoded_int, write_7bit_encoded_int}
use archai_engine.SevenBit.RoundTrip.{read-write_7bit}

-- std::string::substr, which throws out_of_range.
pub substr : ℕ → ℕ → List ℕ → Option (List ℕ)
substr pos n s = if ltb (length s) pos then none else some (take n (drop pos s))

-- The name and the arguments that handle_msg takes a message apart into; c_str ends in a 0.
pub parts : List ℕ → Option (List ℕ × List ℕ)
unfolding substr
parts msg = do
  (n, i) ← read_7bit_encoded_int (msg ++ 0 ∷ [])
  name ← substr i n msg
  args ← substr (i + n) (length msg) msg
  some (name, args)

-- What send_raw_msg sends.
unfoldable pub message : List ℕ → List ℕ → Option (List ℕ)
message name args = do
  code ← write_7bit_encoded_int (length name % 2 ^ 32)
  some (code ++ name ++ args)

length-append : (l m : List ℕ) → length (l ++ m) ≡ length l + length m
length-append [] m = omega arith
length-append (x ∷ l) m = omega (arith, length-append l m)

drop-append : (l m : List ℕ) → drop (length l) (l ++ m) ≡ m
drop-append [] m = refl
drop-append (x ∷ l) m = drop-append l m

take-append : (l m : List ℕ) → take (length l) (l ++ m) ≡ l
take-append [] m = refl
take-append (x ∷ l) m = ap (◌∷◌ x) (take-append l m)

take_all : (l : List ℕ) (n : ℕ) → length l < n + 1 → take n l ≡ l
take_all [] zero h = refl
take_all [] (suc n) h = refl
take_all (x ∷ l) zero h = absurd (omega arith)
take_all (x ∷ l) (suc n) h = ap (◌∷◌ x) (take_all l n (omega arith))

substr-within :
    (pos n : ℕ) (s : List ℕ) → pos < length s + 1 → substr pos n s ≡ some (take n (drop pos s))
unfolding substr
substr-within pos n s h = ground arith

substr-beyond : (pos n : ℕ) (s : List ℕ) → length s < pos → substr pos n s ≡ none
unfolding substr
substr-beyond pos n s h = ground arith

read-code :
    (code rest : List ℕ) (n : ℕ)
    → IsU32 n
    → write_7bit_encoded_int n ≡ some code
    → read_7bit_encoded_int ((code ++ rest) ++ 0 ∷ []) ≡ some (n, length code)
read-code code rest n fits written =
    ap read_7bit_encoded_int (append_assoc code rest (0 ∷ []))
    ∙ read-write_7bit n code (rest ++ 0 ∷ []) fits written

parts-code :
    (code name args : List ℕ)
    → IsU32 (length name)
    → write_7bit_encoded_int (length name) ≡ some code
    → parts (code ++ (name ++ args)) ≡ some (name, args)
unfolding parts
parts-code code name args fits written =
    let msg = code ++ (name ++ args) in
    let len : length msg ≡ length code + (length name + length args) =
      length-append code (name ++ args) ∙ ap (λ n. length code + n) (length-append name args) in
    let first : substr (length code) (length name) msg ≡ some name =
      substr-within (length code) (length name) msg (omega arith)
      ∙ ap (λ l. some (take (length name) l)) (drop-append code (name ++ args))
      ∙ ap some (take-append name args) in
    let left : drop (length code + length name) msg ≡ args =
      ap (λ k. drop k msg) (sym (length-append code name))
      ∙ ap (drop (length (code ++ name))) (sym (append_assoc code name args))
      ∙ drop-append (code ++ name) args in
    let second : substr (length code + length name) (length msg) msg ≡ some args =
      substr-within (length code + length name) (length msg) msg (omega arith)
      ∙ ap (λ l. some (take (length msg) l)) left
      ∙ ap some (take_all args (length msg) (omega arith)) in
    rw (parts, read-code code (name ++ args) (length name) fits written, first, second) refl

-- A message that send_raw_msg makes of a name of fewer than 2^32 bytes and of arguments is taken apart by
-- handle_msg into the name and the arguments.
pub parts-message :
    (name args msg : List ℕ)
    → IsU32 (length name)
    → message name args ≡ some msg
    → parts msg ≡ some (name, args)
unfolding message
parts-message name args msg fits sent =
    let low : length name % 2 ^ 32 ≡ length name = omega arith in
    let (code, written, made) = >>=-eq-some _ _ sent in
    let written' : write_7bit_encoded_int (length name) ≡ some code =
      ap write_7bit_encoded_int (sym low) ∙ written in
    let same : code ++ name ++ args ≡ msg = cc in
    ap parts (sym same ∙ append_assoc code name args) ∙ parts-code code name args fits written'

-- A message whose name is said to be longer than what is left of it makes handle_msg throw.
pub parts-overrun :
    (code rest : List ℕ) (n : ℕ)
    → IsU32 n
    → write_7bit_encoded_int n ≡ some code
    → length rest < n
    → parts (code ++ rest) ≡ none
unfolding parts
parts-overrun code rest n fits written short =
    let msg = code ++ rest in
    let len : length msg ≡ length code + length rest = length-append code rest in
    let first : substr (length code) n msg ≡ some (take n (drop (length code) msg)) =
      substr-within (length code) n msg (omega arith) in
    let second : substr (length code + n) (length msg) msg ≡ none =
      substr-beyond (length code + n) (length msg) msg (omega arith) in
    rw (parts, read-code code rest n fits written, first, second) refl
