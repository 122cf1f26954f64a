-- ===== src/RecvBuffer/Frames.antt =====
-- Messages as the peer sends them, each behind its length, through `recv`.
use archai_engine.Shared.{
  ℕ, ◌+◌, ◌%◌, ◌^◌, ◌≤◌, ◌<◌, ◌≡◌, refl, ap, ◌∙◌, List, [], ◌∷◌, ◌++◌, append_assoc, length,
  length-append, All, arith, some,
}
use mathlib.Core.List.{flatten}
use mathlib.Core.Path.{subst}
use archai_engine.Shared.Results.{Result, ok, err}
use archai_engine.SevenBit.{max_len_size, write_7bit_encoded_int}
use archai_engine.SevenBit.Encode.{IsCode, write_7bit_total}
use archai_engine.SevenBit.RoundTrip.{code_value, read-write_7bit, read_7bit-code_value}
use archai_engine.RecvBuffer.{RecvBuffer, Fault, recv_all, init, max_package_size}
use archai_engine.RecvBuffer.Parser.{
  Parser, header, payload, run, finish_header, after_msgs, then_run, run-append, run_exact,
  step_inner, step_last, after_msgs-nil,
}
use archai_engine.RecvBuffer.Matches.{IsByte, Matches, Agrees}
use archai_engine.RecvBuffer.Chunks.{recv_all-Agrees, init-Matches}

-- The bytes of a message: its length, 7-bit encoded, and the message.
pub data Frames : List (List ℕ) → List ℕ → Type 0 where
  none_left : Frames [] []
  framed :
      (msg code : List ℕ) {msgs : List (List ℕ)} {bytes : List ℕ}
      → 0 < length msg
      → length msg ≤ max_package_size
      → write_7bit_encoded_int (length msg) ≡ some code
      → Frames msgs bytes
      → Frames (msg ∷ msgs) (code ++ (msg ++ bytes))

-- The code that is read has the value that was written.
code_value-write :
    (v : ℕ) (code : List ℕ)
    → v < 2 ^ 32
    → write_7bit_encoded_int v ≡ some code
    → IsCode code × (length code ≤ max_len_size) × (code_value code % 2 ^ 32 ≡ v)
code_value-write v code h w =
    let (bs, e, code', lo, hi) = write_7bit_total v h in
    let same : bs ≡ code = cc in
    let back = read-write_7bit v bs [] h e in
    let value = read_7bit-code_value bs [] code' hi in rw (← same) (code', hi, ground arith)

run_header :
    (bs rest code : List ℕ)
    → IsCode bs
    → length code + length bs ≤ max_len_size
    → run (header code) (bs ++ rest) ≡ then_run (finish_header (code ++ bs)) rest
unfolding run
run_header [] rest code h hl = absurd h
run_header (b ∷ []) rest code h hl = rw (step_last code b (omega arith) h)
run_header (b ∷ c ∷ bs) rest code (lo, hi, h) hl =
    rw
      (
        step_inner code b (omega arith) lo,
        run_header (c ∷ bs) rest (code ++ b ∷ []) h (omega (arith, length-append code (b ∷ []))),
      )
      (after_msgs-nil (then_run (finish_header ((code ++ b ∷ []) ++ c ∷ bs)) rest)
        ∙ ap (λ k. then_run (finish_header k) rest) (append_assoc code (b ∷ []) (c ∷ bs)))

run_payload :
    (msg rest : List ℕ)
    → 0 < length msg
    → run (payload (length msg) []) (msg ++ rest) ≡ after_msgs (msg ∷ []) (run (header []) rest)
run_payload [] rest h = elim h [ ]
run_payload (b ∷ msg) rest h =
    run-append (payload (length (b ∷ msg)) []) (b ∷ msg) rest ∙ rw (run_exact b msg [])

run_frame :
    (msg code rest : List ℕ)
    → 0 < length msg
    → length msg ≤ max_package_size
    → write_7bit_encoded_int (length msg) ≡ some code
    → run (header []) (code ++ (msg ++ rest)) ≡ after_msgs (msg ∷ []) (run (header []) rest)
run_frame msg code rest lo hi w =
    let (is_code, short, value) = code_value-write (length msg) code (omega arith) w in
    let finished : finish_header code ≡ ok (payload (length msg) [], []) =
      rw value (ground arith) in
    run_header code (msg ++ rest) [] is_code (omega arith)
    ∙ ap (λ r. then_run r (msg ++ rest)) finished
    ∙ after_msgs-nil (run (payload (length msg) []) (msg ++ rest))
    ∙ run_payload msg rest lo

run-Frames :
    {msgs : List (List ℕ)} {bytes : List ℕ}
    → Frames msgs bytes
    → run (header []) bytes ≡ ok (header [], msgs)
unfolding run
run-Frames none_left = refl
run-Frames (framed msg code {bytes = bytes} lo hi w f) =
    rw (run_frame msg code bytes lo hi w, run-Frames f)

-- What `recv_all` gives when it agrees with a run of the parser that ends in `q`.
pub Agrees-ok :
    (a : Result Fault (RecvBuffer × List (List ℕ))) (q : Parser) (msgs : List (List ℕ))
    → Agrees a (ok (q, msgs))
    → (r : RecvBuffer) × (a ≡ ok (r, msgs)) × Matches r q
Agrees-ok (ok (r, more)) q msgs (m, e) = (r, rw e, m)
Agrees-ok (err f) q msgs h = absurd h

-- The peer sends messages that are neither empty nor over 16 MB, each behind its length. However the
-- network cuts the bytes into reads, `recv` delivers exactly these messages, in order and unchanged,
-- and ends in a state that waits for the next length.
pub recv_all-Frames :
    (chunks msgs : List (List ℕ)) {bytes : List ℕ}
    → Frames msgs bytes
    → flatten chunks ≡ bytes
    → All (All IsByte) chunks
    → (r : RecvBuffer) × (recv_all init chunks ≡ ok (r, msgs)) × Matches r (header [])
recv_all-Frames chunks msgs f e hb = Agrees-ok (recv_all init chunks) (header []) msgs (
    subst (Agrees (recv_all init chunks)) (ap (run (header [])) e ∙ run-Frames f)
      (recv_all-Agrees chunks init (header []) hb init-Matches))
