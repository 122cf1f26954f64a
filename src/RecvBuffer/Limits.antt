-- ===== src/RecvBuffer/Limits.antt =====
-- Input that no well-behaved peer sends: a length of 0, and a length of more than five bytes.
use archai_engine.Shared.{
  ℕ, ◌+◌, ◌≡◌, ap, ◌∙◌, List, [], ◌∷◌, ◌++◌, All, arith, length, length-append,
}
use mathlib.Core.List.{flatten}
use mathlib.Core.Path.{subst}
use archai_engine.Shared.Results.{Result, ok, err}
use archai_engine.SevenBit.{max_len_size}
use archai_engine.RecvBuffer.{RecvBuffer, Fault, len_overrun, recv_all, init}
use archai_engine.RecvBuffer.Parser.{header, payload, run, step, run-stalled, step_full, step_inner}
use archai_engine.RecvBuffer.Matches.{IsByte, IsInner, Matches, Agrees}
use archai_engine.RecvBuffer.Chunks.{recv_all-Agrees, init-Matches}
use archai_engine.RecvBuffer.Frames.{Agrees-ok}

Agrees-err :
    (a : Result Fault (RecvBuffer × List (List ℕ))) (e : Fault) → Agrees a (err e) → a ≡ err e
Agrees-err (ok p) e h = absurd h
Agrees-err (err f) e h = ap err h

run_zero : (rest : List ℕ) → run (header []) (0 ∷ rest) ≡ ok (payload 0 [], [])
unfolding run step
run_zero rest = rw (run-stalled [] rest)

-- After a length of 0 the connection is dead: whatever the peer sends, in whatever reads, no message
-- is delivered and no error is reported.
pub recv_all_zero :
    (chunks : List (List ℕ)) (rest : List ℕ)
    → flatten chunks ≡ 0 ∷ rest
    → All (All IsByte) chunks
    → (r : RecvBuffer) × (recv_all init chunks ≡ ok (r, [])) × Matches r (payload 0 [])
recv_all_zero chunks rest e hb = Agrees-ok (recv_all init chunks) (payload 0 []) [] (
    subst (Agrees (recv_all init chunks)) (ap (run (header [])) e ∙ run_zero rest)
      (recv_all-Agrees chunks init (header []) hb init-Matches))

run_overrun :
    (code inner rest : List ℕ) (b : ℕ)
    → All IsInner inner
    → length code + length inner ≡ max_len_size
    → run (header code) (inner ++ b ∷ rest) ≡ err len_overrun
unfolding run
run_overrun code [] rest b h hl = rw (step_full code b (omega arith))
run_overrun code (c ∷ inner) rest b ((lo, hi), h) hl = rw (
  step_inner code c (omega arith) lo,
  run_overrun (code ++ c ∷ []) inner rest b h (omega (arith, length-append code (c ∷ []))),
)

-- Five length bytes that all say that the length goes on make the code write the sixth byte of the
-- length outside `_len_bytes`, whatever that byte is.
pub recv_all_overrun :
    (chunks : List (List ℕ)) (inner rest : List ℕ) (b : ℕ)
    → length inner ≡ max_len_size
    → All IsInner inner
    → flatten chunks ≡ inner ++ b ∷ rest
    → All (All IsByte) chunks
    → recv_all init chunks ≡ err len_overrun
recv_all_overrun chunks inner rest b hl hi e hb = Agrees-err (recv_all init chunks) len_overrun (
    subst (Agrees (recv_all init chunks))
      (ap (run (header [])) e ∙ run_overrun [] inner rest b hi (omega arith))
      (recv_all-Agrees chunks init (header []) hb init-Matches))
