-- ===== src/RecvBuffer/Parser.antt =====
-- What a connection's input means, one byte at a time: the specification of RecvBuffer. It has no
-- arrays, positions or counters: only the bytes of the unfinished length or message.
use archai_engine.Shared.{
  ℕ, zero, suc, ◌+◌, ◌%◌, ◌^◌, ◌≤◌, ◌<◌, ◌≡◌, refl, sym, ap, ◌∙◌, List, [], ◌∷◌, ◌++◌, append-nil,
  append_assoc, ltb, leb, if◌then◌else◌, length, arith,
}
use archai_engine.Shared.Results.{Result, ok, err, ◌>>=◌}
use archai_engine.SevenBit.{max_len_size}
use archai_engine.SevenBit.RoundTrip.{code_value}
use archai_engine.RecvBuffer.{Fault, len_overrun, too_large, max_package_size}

pub data Parser : Type 0 where
  header : List ℕ → Parser
  payload : ℕ → List ℕ → Parser

abbrev pub Step : Type 0
Step = Result Fault (Parser × List (List ℕ))

-- The length is complete: `code` are its bytes.
abbrev pub finish_header : List ℕ → Step
finish_header code =
    let n = code_value code % 2 ^ 32 in
    if leb n max_package_size then ok (payload n [], []) else err too_large

-- A message whose length is 0 never ends: `payload 0` takes no byte.
unfoldable pub step : Parser → ℕ → Step
step (header code) b =
    if leb max_len_size (length code)
    then err len_overrun
    else if ltb b 128
    then finish_header (code ++ b ∷ [])
    else ok (header (code ++ b ∷ []), [])
step (payload zero got) b = ok (payload zero got, [])
step (payload (suc zero) got) b = ok (header [], (got ++ b ∷ []) ∷ [])
step (payload (suc (suc need)) got) b = ok (payload (suc need) (got ++ b ∷ []), [])

-- The messages that came before.
abbrev pub after_msgs : List (List ℕ) → Step → Step
after_msgs msgs (ok (q, more)) = ok (q, msgs ++ more)
after_msgs msgs (err e) = err e

unfoldable pub run : Parser → List ℕ → Step
run p [] = ok (p, [])
run p (b ∷ bytes) = step p b >>= λ (q, msgs). after_msgs msgs (run q bytes)

pub after_msgs-nil : (r : Step) → after_msgs [] r ≡ r
after_msgs-nil (ok (q, more)) = refl
after_msgs-nil (err e) = refl

pub after_msgs-append :
    (msgs new : List (List ℕ)) (r : Step)
    → after_msgs msgs (after_msgs new r) ≡ after_msgs (msgs ++ new) r
after_msgs-append msgs new (ok (q, more)) = simp append_assoc
after_msgs-append msgs new (err e) = refl

abbrev pub then_run : Step → List ℕ → Step
then_run r bytes = r >>= λ (q, msgs). after_msgs msgs (run q bytes)

then_run-after_msgs :
    (msgs : List (List ℕ)) (r : Step) (bytes : List ℕ)
    → then_run (after_msgs msgs r) bytes ≡ after_msgs msgs (then_run r bytes)
then_run-after_msgs msgs (ok (q, more)) bytes = sym (after_msgs-append msgs more (run q bytes))
then_run-after_msgs msgs (err e) bytes = refl

run-append_step :
    (r : Step) (a b : List ℕ)
    → ((q : Parser) → run q (a ++ b) ≡ then_run (run q a) b)
    → then_run r (a ++ b) ≡ then_run (then_run r a) b
run-append_step (err e) a b ih = refl
run-append_step (ok (q, msgs)) a b ih =
    ap (after_msgs msgs) (ih q) ∙ sym (then_run-after_msgs msgs (run q a) b)

-- Input that comes in two parts.
pub run-append : (p : Parser) (a b : List ℕ) → run p (a ++ b) ≡ then_run (run p a) b
unfolding run
run-append p [] b = sym (after_msgs-nil (run p b))
run-append p (x ∷ a) b = run-append_step (step p x) a b (λ q. run-append q a b)

-- One byte, in front of others.
pub run-step_ok :
    (p q : Parser) (b : ℕ) (bytes : List ℕ) (msgs new : List (List ℕ))
    → step p b ≡ ok (q, new)
    → after_msgs msgs (run p (b ∷ bytes)) ≡ after_msgs (msgs ++ new) (run q bytes)
unfolding run
run-step_ok p q b bytes msgs new e = rw e (after_msgs-append msgs new (run q bytes))

pub run-step_err :
    (p : Parser) (b : ℕ) (bytes : List ℕ) (msgs : List (List ℕ)) (f : Fault)
    → step p b ≡ err f
    → after_msgs msgs (run p (b ∷ bytes)) ≡ err f
unfolding run
run-step_err p b bytes msgs f e = rw e

-- The three cases of a byte of the length.
pub step_full :
    (code : List ℕ) (b : ℕ) → max_len_size ≤ length code → step (header code) b ≡ err len_overrun
unfolding step
step_full code b h = ground arith

pub step_inner :
    (code : List ℕ) (b : ℕ)
    → length code < max_len_size
    → 128 ≤ b
    → step (header code) b ≡ ok (header (code ++ b ∷ []), [])
unfolding step
step_inner code b h hb = ground arith

pub step_last :
    (code : List ℕ) (b : ℕ)
    → length code < max_len_size
    → b < 128
    → step (header code) b ≡ finish_header (code ++ b ∷ [])
unfolding step
step_last code b h hb = ground arith

pub run-stalled : (got bytes : List ℕ) → run (payload 0 got) bytes ≡ ok (payload 0 got, [])
unfolding run step
run-stalled got [] = refl
run-stalled got (b ∷ bytes) = rw (run-stalled got bytes)

-- Less input than a message needs, and just as much.
pub run_short :
    (bytes : List ℕ) (total need : ℕ) (got : List ℕ)
    → total ≡ suc need + length bytes
    → run (payload total got) bytes ≡ ok (payload (suc need) (got ++ bytes), [])
unfolding run step
run_short [] total need got e = ground (arith, append-nil got)
run_short (b ∷ bytes) zero need got e = absurd (omega arith)
run_short (b ∷ bytes) (suc zero) need got e = absurd (omega arith)
run_short (b ∷ bytes) (suc (suc total)) need got e =
    rw (run_short bytes (suc total) need (got ++ b ∷ []) (omega arith)) (simp append_assoc)

pub run_exact :
    (b : ℕ) (bytes got : List ℕ)
    → run (payload (length (b ∷ bytes)) got) (b ∷ bytes) ≡ ok (header [], (got ++ b ∷ bytes) ∷ [])
unfolding run step
run_exact b [] got = refl
run_exact b (c ∷ bytes) got = rw (run_exact c bytes (got ++ b ∷ [])) (simp append_assoc)
