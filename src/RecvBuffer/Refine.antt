-- ===== src/RecvBuffer/Refine.antt =====
-- `recv` against the parser: the bulk copies of the code do what the parser does byte by byte.
use archai_engine.Shared.{
  ℕ, zero, suc, ◌+◌, ◌-◌, ◌≤◌, ◌<◌, ◌≡◌, refl, sym, ap, ◌∙◌, List, [], ◌∷◌, ◌++◌, append-nil, leb,
  length, length-append, take, drop, take_all, drop_all, take-append-drop, length-take, length-drop,
  All, arith, ◌≢◌, ◌%◌, ◌^◌, inl, inr, Bool-cases,
}
use native.Mathlib.Decide.{dec_lt}
use archai_engine.Shared.Results.{ok, err}
use archai_engine.SevenBit.RoundTrip.{code_value}
use archai_engine.RecvBuffer.{
  RecvBuffer, Fault, len_overrun, too_large, max_package_size, round, data_round, recv_loop, recv,
}
use archai_engine.RecvBuffer.Parser.{
  Parser, header, payload, run, after_msgs, then_run, run-append, run_short, run_exact, run-stalled,
  after_msgs-nil, after_msgs-append, run-step_ok, run-step_err, step_full, step_inner, step_last,
}
use archai_engine.RecvBuffer.Matches.{
  IsByte, IsInner, Matches, at_header, at_payload, Agrees, header_state, payload_state,
  len_round_full, len_round_inner, len_round_last, All-snoc,
}

-- The two cases of the round that copies.
data_round_short :
    (lens : List ℕ) (need : ℕ) (got bytes : List ℕ)
    → length bytes < need
    → data_round (payload_state lens need got) bytes
      ≡ ok (payload_state lens (need - length bytes) (got ++ bytes), [], [])
unfolding data_round
data_round_short lens need got bytes h = ground (
  arith,
  take_all (length got) got,
  drop_all (length got + length bytes) got,
  append-nil bytes,
  length-append got bytes,
)

data_round_full :
    (lens : List ℕ) (need : ℕ) (got bytes : List ℕ)
    → need ≤ length bytes
    → data_round (payload_state lens need got) bytes
      ≡ ok (header_state [] lens, drop need bytes, (got ++ take need bytes) ∷ [])
unfolding data_round
data_round_full lens need got bytes h = ground (
  arith,
  take_all (length got) got,
  length-take need bytes,
  drop_all (length got + length (take need bytes)) got,
  append-nil (take need bytes),
  take_all (length got + need) (got ++ take need bytes),
  length-append got (take need bytes),
)

-- One round of the loop, from what its body does.
recv_loop_ok :
    (fuel : ℕ) (r r' : RecvBuffer) (b : ℕ) (bytes rest : List ℕ) (msgs new : List (List ℕ))
    → r.need_bytes ≢ 0
    → round r.parse_stage r b bytes ≡ ok (r', rest, new)
    → recv_loop (suc fuel) r (b ∷ bytes) msgs ≡ recv_loop fuel r' rest (msgs ++ new)
unfolding recv_loop
recv_loop_ok fuel r r' b bytes rest msgs new h e = ground arith

recv_loop_err :
    (fuel : ℕ) (r : RecvBuffer) (b : ℕ) (bytes : List ℕ) (msgs : List (List ℕ)) (f : Fault)
    → r.need_bytes ≢ 0
    → round r.parse_stage r b bytes ≡ err f
    → recv_loop (suc fuel) r (b ∷ bytes) msgs ≡ err f
unfolding recv_loop
recv_loop_err fuel r b bytes msgs f h e = ground arith

recv_loop_nil :
    (fuel : ℕ) (r : RecvBuffer) (msgs : List (List ℕ)) → recv_loop fuel r [] msgs ≡ ok (r, msgs)
unfolding recv_loop
recv_loop_nil fuel r msgs = refl

run_full :
    (need : ℕ) (got bytes : List ℕ)
    → 0 < need
    → need ≤ length bytes
    → run (payload need got) bytes
      ≡ after_msgs ((got ++ take need bytes) ∷ []) (run (header []) (drop need bytes))
run_full zero got bytes h le = elim h [ ]
run_full (suc need) got [] h le = absurd (omega arith)
run_full (suc need) got (b ∷ bytes) h le =
    ap (run (payload (suc need) got)) (sym (take-append-drop (suc need) (b ∷ bytes)))
    ∙ run-append (payload (suc need) got) (b ∷ take need bytes) (drop need bytes)
    ∙ ap (λ r. then_run r (drop need bytes)) exact
  where
    exact :
        run (payload (suc need) got) (b ∷ take need bytes)
        ≡ ok (header [], (got ++ b ∷ take need bytes) ∷ [])
    exact =
        let e : length (take need bytes) ≡ need = omega (arith, length-take need bytes) in
        rw e at (run_exact b (take need bytes) got)

-- The statement about the loop, for the inputs of one size.
abbrev LoopAgrees : ℕ → Type 0
LoopAgrees fuel =
    (r : RecvBuffer) (p : Parser) (bytes : List ℕ) (msgs : List (List ℕ))
    → Matches r p
    → All IsByte bytes
    → length bytes ≤ fuel
    → Agrees (recv_loop fuel r bytes msgs) (after_msgs msgs (run p bytes))

All-drop : (n : ℕ) (bytes : List ℕ) → All IsByte bytes → All IsByte (drop n bytes)
All-drop zero bytes h = h
All-drop (suc n) [] h = h
All-drop (suc n) (b ∷ bytes) h = All-drop n bytes h.1

payload-Agrees :
    (fuel : ℕ)
    → LoopAgrees fuel
    → (lens : List ℕ) (need : ℕ) (got : List ℕ) (b : ℕ) (bytes : List ℕ) (msgs : List (List ℕ))
    → length lens ≡ 5
    → All IsByte (b ∷ bytes)
    → length bytes ≤ fuel
    → Agrees
        (recv_loop (suc fuel) (payload_state lens (suc need) got) (b ∷ bytes) msgs)
        (after_msgs msgs (run (payload (suc need) got) (b ∷ bytes)))
unfolding round
payload-Agrees fuel ih lens need got b bytes msgs hl hb hf =
    elim (dec_lt (suc (length bytes)) (suc need)) [
      | yes short ↦
          let e : suc need - suc (length bytes) ≡ suc (suc need - suc (suc (length bytes))) =
            omega arith in
          rw
            (
              recv_loop_ok fuel (payload_state lens (suc need) got)
                  (payload_state lens (suc need - suc (length bytes)) (got ++ b ∷ bytes)) b bytes []
                  msgs [] (omega arith) (data_round_short lens (suc need) got (b ∷ bytes) short),
              run_short (b ∷ bytes) (suc need) (suc need - suc (suc (length bytes))) got
                  (omega arith),
            )
            (rw (recv_loop_nil fuel _ (msgs ++ []), e) (at_payload lens _ _ hl, refl))
      | no full ↦
          rw
            (
              recv_loop_ok fuel (payload_state lens (suc need) got) (header_state [] lens) b bytes
                  (drop need bytes) msgs ((got ++ b ∷ take need bytes) ∷ []) (omega arith)
                  (data_round_full lens (suc need) got (b ∷ bytes) (omega arith)),
              run_full (suc need) got (b ∷ bytes) (omega arith) (omega arith),
              after_msgs-append msgs,
            )
            (ih (header_state [] lens) (header []) (drop need bytes) _
              (at_header [] lens tt (omega arith)) (All-drop need bytes hb.1)
              (omega (arith, length-drop need bytes)))
    ]

-- The last byte of the length.
last-Agrees :
    (fuel : ℕ)
    → LoopAgrees fuel
    → (code stale : List ℕ) (x b : ℕ) (bytes : List ℕ) (msgs : List (List ℕ)) → All IsInner code
    → length code + length (x ∷ stale) ≡ 5
    → All IsByte bytes
    → length bytes ≤ fuel
    → b < 128
    → Agrees
        (recv_loop (suc fuel) (header_state code (x ∷ stale)) (b ∷ bytes) msgs)
        (after_msgs msgs (run (header code) (b ∷ bytes)))
unfolding round
last-Agrees fuel ih code stale x b bytes msgs inner hl hb hf last =
    let n = code_value (code ++ b ∷ []) % 2 ^ 32 in
    let round_last = len_round_last code stale x b inner (omega arith) last in
    let spec_last = step_last code b (omega arith) last in
    elim (Bool-cases (leb n max_package_size)) [
      | inl fits ↦
          rw
            (
              recv_loop_ok fuel (header_state code (x ∷ stale))
                  (payload_state ((code ++ b ∷ []) ++ stale) n []) b bytes bytes msgs []
                  (omega arith) (rw (round_last, fits)),
              run-step_ok (header code) (payload n []) b bytes msgs [] (rw (spec_last, fits)),
            )
            (ih _ _ bytes (msgs ++ [])
              (at_payload ((code ++ b ∷ []) ++ stale) n []
                (omega (arith, length-append (code ++ b ∷ []) stale, length-append code (b ∷ []))))
              hb hf)
      | inr large ↦ rw (
        recv_loop_err fuel (header_state code (x ∷ stale)) b bytes msgs too_large (omega arith)
            (rw (round_last, large)),
        run-step_err (header code) b bytes msgs too_large (rw (spec_last, large)),
      )
    ]

header-Agrees :
    (fuel : ℕ)
    → LoopAgrees fuel
    → (code stale : List ℕ) (b : ℕ) (bytes : List ℕ) (msgs : List (List ℕ)) → All IsInner code
    → length code + length stale ≡ 5
    → All IsByte (b ∷ bytes)
    → length bytes ≤ fuel
    → Agrees
        (recv_loop (suc fuel) (header_state code stale) (b ∷ bytes) msgs)
        (after_msgs msgs (run (header code) (b ∷ bytes)))
unfolding round
header-Agrees fuel ih code [] b bytes msgs inner hl hb hf = rw (
  recv_loop_err fuel (header_state code []) b bytes msgs len_overrun (omega arith)
      (rw (len_round_full code [] b (omega arith))),
  run-step_err (header code) b bytes msgs len_overrun (step_full code b (omega arith)),
)
header-Agrees fuel ih code (x ∷ stale) b bytes msgs inner hl hb hf = elim (dec_lt b 128) [
  | no more ↦
      rw
        (
          recv_loop_ok fuel (header_state code (x ∷ stale)) (header_state (code ++ b ∷ []) stale) b
              bytes bytes msgs [] (omega arith)
              (rw (len_round_inner code stale x b (omega arith) (omega arith, hb.0))),
          run-step_ok (header code) (header (code ++ b ∷ [])) b bytes msgs []
              (step_inner code b (omega arith) (omega arith)),
        )
        (ih _ _ bytes (msgs ++ [])
          (at_header (code ++ b ∷ []) stale (All-snoc code b inner (omega arith, hb.0))
            (omega (arith, length-append code (b ∷ []))))
          hb.1 hf)
  | yes last ↦ last-Agrees fuel ih code stale x b bytes msgs inner hl hb.1 hf last
]

stalled-Agrees :
    (fuel : ℕ) (lens got bytes : List ℕ) (msgs : List (List ℕ))
    → length lens ≡ 5
    → Agrees
        (recv_loop fuel (payload_state lens 0 got) bytes msgs)
        (after_msgs msgs (run (payload 0 got) bytes))
unfolding recv_loop
stalled-Agrees fuel lens got bytes msgs hl = rw (run-stalled got bytes) (go fuel bytes)
  where
    go :
        (fuel : ℕ) (bytes : List ℕ)
        → Agrees
            (recv_loop fuel (payload_state lens 0 got) bytes msgs)
            (ok (payload 0 got, msgs ++ []))
    go fuel [] = (at_payload lens 0 got hl, sym (append-nil msgs))
    go zero (b ∷ bytes) = (at_payload lens 0 got hl, sym (append-nil msgs))
    go (suc fuel) (b ∷ bytes) = (at_payload lens 0 got hl, sym (append-nil msgs))

recv_loop-Agrees : (fuel : ℕ) → LoopAgrees fuel
recv_loop-Agrees fuel r p [] msgs m hb hf =
    rw recv_loop_nil (unfold run in (m, sym (append-nil msgs)))
recv_loop-Agrees zero r p (b ∷ bytes) msgs m hb hf = absurd (omega arith)
recv_loop-Agrees (suc fuel) _ _ (b ∷ bytes) msgs (at_header code stale inner hl) hb hf =
    header-Agrees fuel (recv_loop-Agrees fuel) code stale b bytes msgs inner hl hb (omega arith)
recv_loop-Agrees (suc fuel) _ _ (b ∷ bytes) msgs (at_payload lens zero got hl) hb hf =
    stalled-Agrees (suc fuel) lens got (b ∷ bytes) msgs hl
recv_loop-Agrees (suc fuel) _ _ (b ∷ bytes) msgs (at_payload lens (suc need) got hl) hb hf =
    payload-Agrees fuel (recv_loop-Agrees fuel) lens need got b bytes msgs hl hb (omega arith)

-- One call of `recv`, from any state that stands for a state of the parser, on any bytes: the loop
-- ends, no access leaves an array, the messages are those of the parser and the new state stands for
-- the parser's; and where the parser fails, `recv` fails with the same error.
pub recv-Agrees :
    (r : RecvBuffer) (p : Parser) (bytes : List ℕ)
    → Matches r p
    → All IsByte bytes
    → Agrees (recv r bytes) (run p bytes)
unfolding recv
recv-Agrees r p bytes m hb =
    rw after_msgs-nil at (recv_loop-Agrees (length bytes) r p bytes [] m hb (omega arith))
