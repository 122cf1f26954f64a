-- ===== src/RecvBuffer/Delivered.antt =====
-- What handle_data hands to handle_msg: the messages of a read, when `recv` returns them. A read in
-- which `recv` fails hands over nothing, and ends the run.
use archai_engine.Shared.{
  ℕ, ◌≡◌, refl, sym, ap, ◌∙◌, Option, none, some, List, [], ◌∷◌, ◌++◌, All, append_assoc,
}
use mathlib.Core.List.{flatten}
use archai_engine.Shared.Results.{Result, ok, err, ◌>>=◌}
use archai_engine.RecvBuffer.{RecvBuffer, Fault, recv, init}
use archai_engine.RecvBuffer.Parser.{Parser, header, Step, step, run, after_msgs}
use archai_engine.RecvBuffer.Matches.{IsByte, Matches, Agrees}
use archai_engine.RecvBuffer.Refine.{recv-Agrees}
use archai_engine.RecvBuffer.Chunks.{init-Matches}

-- Messages, and the fault that came after them, if any.
abbrev pub Log : Type 0
Log = List (List ℕ) × Option Fault

pub onto : List (List ℕ) → Log → Log
onto msgs (more, fault) = (msgs ++ more, fault)

-- One step of a run, and what comes after it.
pub and_then : {Q : Type 0} → Result Fault (Q × List (List ℕ)) → (Q → Log) → Log
unfolding onto
and_then (err e) later = ([], some e)
and_then (ok (q, msgs)) later = onto msgs (later q)

-- The calls of handle_data on one connection, one for each read of its socket.
unfoldable pub handle_data : RecvBuffer → List (List ℕ) → Log
unfolding and_then
handle_data r [] = ([], none)
handle_data r (bytes ∷ chunks) = and_then (recv r bytes) (λ r'. handle_data r' chunks)

-- The specification: all messages that are complete in the bytes before the fault.
pub complete : Parser → List ℕ → Log
unfolding and_then
complete p [] = ([], none)
complete p (b ∷ bytes) = and_then (step p b) (λ q. complete q bytes)

-- Without a fault, the same messages; with one, the same fault after some of the messages, from the first on.
abbrev pub Hands : Log → Log → Type 0
Hands (msgs, none) said = said ≡ (msgs, none)
Hands (msgs, some e) (all, fault) =
    (fault ≡ some e) × ((rest : List (List ℕ)) × (all ≡ msgs ++ rest))

onto-onto : (msgs new : List (List ℕ)) (l : Log) → onto msgs (onto new l) ≡ onto (msgs ++ new) l
unfolding onto
onto-onto msgs new (more, fault) =
    ap (λ (m : List (List ℕ)). (m, fault)) (sym (append_assoc msgs new more))

onto-nil : (l : Log) → onto [] l ≡ l
unfolding onto
onto-nil (more, fault) = refl

onto-Hands :
    (msgs : List (List ℕ)) (l said : Log) → Hands l said → Hands (onto msgs l) (onto msgs said)
unfolding onto
onto-Hands msgs (more, none) said h = rw h refl
onto-Hands msgs (more, some e) (all, fault) (same, (rest, sum)) =
    (same, (rest, rw sum (sym (append_assoc msgs more rest))))

-- `l` is what the specification says of bytes that go on with `b` after the step `s`.
abbrev Extends : Step → List ℕ → Log → Type 0
Extends (ok (q, msgs)) b l = l ≡ onto msgs (complete q b)
Extends (err e) b l = l.1 ≡ some e

onto-Extends :
    (msgs : List (List ℕ)) (s : Step) (b : List ℕ) (l : Log)
    → Extends s b l
    → Extends (after_msgs msgs s) b (onto msgs l)
unfolding onto
onto-Extends msgs (ok (q, new)) b l h = ap (onto msgs) h ∙ onto-onto msgs new (complete q b)
onto-Extends msgs (err e) b (all, fault) h = h

then-Extends :
    (s : Step) (a b : List ℕ)
    → ((q : Parser) → Extends (run q a) b (complete q (a ++ b)))
    → Extends
        (s >>= λ (q, msgs). after_msgs msgs (run q a))
        b
        (and_then s (λ q. complete q (a ++ b)))
unfolding and_then
then-Extends (err e) a b ih = refl
then-Extends (ok (q, msgs)) a b ih = onto-Extends msgs (run q a) b (complete q (a ++ b)) (ih q)

complete-append : (p : Parser) (a b : List ℕ) → Extends (run p a) b (complete p (a ++ b))
unfolding run complete
complete-append p [] b = sym (onto-nil (complete p b))
complete-append p (x ∷ a) b = then-Extends (step p x) a b (λ q. complete-append q a b)

then-Hands :
    (chunks : List (List ℕ)) (a : Result Fault (RecvBuffer × List (List ℕ))) (s : Step) (l : Log)
    → ((r : RecvBuffer) (p : Parser)
        → Matches r p
        → Hands (handle_data r chunks) (complete p (flatten chunks)))
    → Agrees a s
    → Extends s (flatten chunks) l
    → Hands (and_then a (λ r. handle_data r chunks)) l
unfolding and_then
then-Hands chunks (ok (r, msgs)) (ok (q, msgs')) l ih (m, e) h =
    rw (h, ← e) (onto-Hands msgs (handle_data r chunks) (complete q (flatten chunks)) (ih r q m))
then-Hands chunks (ok a) (err f) l ih h k = absurd h
then-Hands chunks (err e) (ok b) l ih h k = absurd h
then-Hands chunks (err e) (err f) (all, fault) ih h k = (k ∙ ap some (sym h), (all, refl))

handle_data-Matches :
    (chunks : List (List ℕ)) (r : RecvBuffer) (p : Parser)
    → All (All IsByte) chunks
    → Matches r p
    → Hands (handle_data r chunks) (complete p (flatten chunks))
unfolding handle_data flatten
handle_data-Matches [] r p hb m = unfold complete in refl
handle_data-Matches (bytes ∷ chunks) r p hb m =
    then-Hands chunks (recv r bytes) (run p bytes) (complete p (bytes ++ flatten chunks))
      (λ r' q. handle_data-Matches chunks r' q hb.1) (recv-Agrees r p bytes m hb.0)
      (complete-append p bytes (flatten chunks))

-- A connection reads bytes from its socket, in any cut. Whether it comes to a fault, and to which,
-- depends on the bytes alone. Without one, all messages that are complete in the bytes are handed to
-- handle_msg, in order, however the bytes are cut. With one, those that are handed over are the first
-- of the messages that are complete before the fault: the cut decides how many.
pub handle_data-Hands :
    (chunks : List (List ℕ)) (bytes : List ℕ)
    → flatten chunks ≡ bytes
    → All (All IsByte) chunks
    → Hands (handle_data init chunks) (complete (header []) bytes)
handle_data-Hands chunks bytes e hb =
    rw (← e) (handle_data-Matches chunks init (header []) hb init-Matches)
