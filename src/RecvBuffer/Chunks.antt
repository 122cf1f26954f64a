-- ===== src/RecvBuffer/Chunks.antt =====
-- Several reads of one socket: how the network cuts the input makes no difference.
use archai_engine.Shared.{ℕ, refl, ap, List, [], ◌∷◌, ◌++◌, All}
use mathlib.Core.List.{flatten}
use archai_engine.Shared.Results.{Result, ok, err, ◌>>=◌}
use archai_engine.RecvBuffer.{RecvBuffer, Fault, recv, recv_all, init}
use archai_engine.RecvBuffer.Parser.{Parser, header, Step, run, after_msgs, then_run, run-append}
use archai_engine.RecvBuffer.Matches.{IsByte, Matches, at_header, Agrees}
use archai_engine.RecvBuffer.Refine.{recv-Agrees}

abbrev Ih : List (List ℕ) → Type 0
Ih chunks =
    (r : RecvBuffer) (p : Parser)
    → Matches r p
    → Agrees (recv_all r chunks) (run p (flatten chunks))

-- The reads that follow, when the first one agreed.
more-Agrees :
    (msgs : List (List ℕ)) (a : Result Fault (RecvBuffer × List (List ℕ))) (b : Step)
    → Agrees a b
    → Agrees (a >>= λ (r, more). ok (r, msgs ++ more)) (after_msgs msgs b)
more-Agrees msgs (ok (r, more)) (ok (q, more')) (m, e) = (m, ap (◌++◌ msgs) e)
more-Agrees msgs (ok a) (err f) h = h
more-Agrees msgs (err e) (ok b) h = h
more-Agrees msgs (err e) (err f) h = h

then-Agrees :
    (chunks : List (List ℕ)) (a : Result Fault (RecvBuffer × List (List ℕ))) (b : Step)
    → Ih chunks
    → Agrees a b
    → Agrees
        (a >>= λ (r, msgs). recv_all r chunks >>= λ (r', more). ok (r', msgs ++ more))
        (then_run b (flatten chunks))
then-Agrees chunks (ok (r, msgs)) (ok (q, msgs')) ih (m, e) =
    rw (← e) (more-Agrees msgs (recv_all r chunks) (run q (flatten chunks)) (ih r q m))
then-Agrees chunks (ok a) (err f) ih h = absurd h
then-Agrees chunks (err e) (ok b) ih h = absurd h
then-Agrees chunks (err e) (err f) ih h = h

-- All reads of a connection together do what the parser does on the bytes in one piece.
pub recv_all-Agrees :
    (chunks : List (List ℕ)) (r : RecvBuffer) (p : Parser)
    → All (All IsByte) chunks
    → Matches r p
    → Agrees (recv_all r chunks) (run p (flatten chunks))
unfolding recv_all flatten
recv_all-Agrees [] r p hb m = unfold run in (m, refl)
recv_all-Agrees (bytes ∷ chunks) r p hb m = rw (run-append p bytes (flatten chunks)) (
    then-Agrees chunks (recv r bytes) (run p bytes) (λ r' q. recv_all-Agrees chunks r' q hb.1)
      (recv-Agrees r p bytes m hb.0))

pub init-Matches : Matches init (header [])
init-Matches = at_header [] init.len_bytes tt refl
