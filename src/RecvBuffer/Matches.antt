-- ===== src/RecvBuffer/Matches.antt =====
-- The states of RecvBuffer that stand for a state of the parser. In each of them the positions lie
-- inside the arrays: this is the invariant of the class.
use archai_engine.Shared.{
  ℕ, ◌+◌, ◌%◌, ◌^◌, ◌≤◌, ◌<◌, ◌≡◌, refl, ap, some, none, List, [], ◌∷◌, ◌++◌, leb, if◌then◌else◌,
  length, length-append, set, All, arith,
}
use archai_engine.Shared.Bits.{bit_and_top}
use archai_engine.Shared.Results.{Result, ok, err}
use archai_engine.SevenBit.{max_len_size}
use archai_engine.SevenBit.Encode.{IsCode}
use archai_engine.SevenBit.RoundTrip.{code_value, read_7bit-code_value}
use archai_engine.RecvBuffer.{
  RecvBuffer, Fault, len, body, max_package_size, len_round, too_large, len_overrun,
  calc_package_data_length,
}
use archai_engine.RecvBuffer.Parser.{Parser, header, payload, Step}

abbrev pub IsByte : ℕ → Type 0
IsByte b = b < 256

-- A byte that says that the length goes on.
abbrev pub IsInner : ℕ → Type 0
IsInner c = (128 ≤ c) × (c < 256)

abbrev pub header_state : List ℕ → List ℕ → RecvBuffer
header_state code stale = record {
  len_bytes = code ++ stale;
  parse_stage = len;
  len_bytes_position = length code;
  need_bytes = 1;
  position = 0;
  buffer = none;
}

abbrev pub payload_state : List ℕ → ℕ → List ℕ → RecvBuffer
payload_state lens need got = record {
  len_bytes = lens;
  parse_stage = body;
  len_bytes_position = 0;
  need_bytes = need;
  position = length got;
  buffer = some (record { size = length got + need; written = got });
}

pub data Matches : RecvBuffer → Parser → Type 0 where
  at_header :
      (code stale : List ℕ)
      → All IsInner code
      → length code + length stale ≡ max_len_size
      → Matches (header_state code stale) (header code)
  at_payload :
      (lens : List ℕ) (need : ℕ) (got : List ℕ)
      → length lens ≡ max_len_size
      → Matches (payload_state lens need got) (payload need got)

-- The same state and messages, or the same error.
abbrev pub Agrees : Result Fault (RecvBuffer × List (List ℕ)) → Step → Type 0
Agrees (ok (r, msgs)) (ok (p, more)) = Matches r p × (msgs ≡ more)
Agrees (ok (r, msgs)) (err e) = ⊥
Agrees (err e) (ok p) = ⊥
Agrees (err e) (err f) = e ≡ f

set-append :
    (code stale : List ℕ) (x b : ℕ)
    → set (code ++ x ∷ stale) (length code) b ≡ (code ++ b ∷ []) ++ stale
set-append [] stale x b = refl
set-append (c ∷ code) stale x b = ap (◌∷◌ c) (set-append code stale x b)

IsCode-snoc : (code : List ℕ) (b : ℕ) → All IsInner code → b < 128 → IsCode (code ++ b ∷ [])
IsCode-snoc [] b h hb = hb
IsCode-snoc (c ∷ []) b (h, _) hb = (h.0, h.1, hb)
IsCode-snoc (c ∷ d ∷ code) b (h, hs) hb = (h.0, h.1, IsCode-snoc (d ∷ code) b hs hb)

pub All-snoc : (code : List ℕ) (b : ℕ) → All IsInner code → IsInner b → All IsInner (code ++ b ∷ [])
All-snoc [] b h hb = (hb, tt)
All-snoc (c ∷ code) b (h, hs) hb = (h, All-snoc code b hs hb)

-- The round that reads a byte of the length, in its three cases.
pub len_round_full :
    (code stale : List ℕ) (b : ℕ)
    → max_len_size ≤ length code
    → len_round (header_state code stale) b ≡ err len_overrun
unfolding len_round
len_round_full code stale b h = ground arith

pub len_round_inner :
    (code stale : List ℕ) (x b : ℕ)
    → length code < max_len_size
    → IsInner b
    → len_round (header_state code (x ∷ stale)) b ≡ ok (header_state (code ++ b ∷ []) stale)
unfolding len_round
len_round_inner code stale x b h (lo, hi) =
    ground (arith, set-append code stale x b, bit_and_top b hi, length-append code (b ∷ []))

pub len_round_last :
    (code stale : List ℕ) (x b : ℕ)
    → All IsInner code
    → length code < max_len_size
    → b < 128
    → len_round (header_state code (x ∷ stale)) b ≡ (
        let n = code_value (code ++ b ∷ []) % 2 ^ 32 in
        if leb n max_package_size
        then ok (payload_state ((code ++ b ∷ []) ++ stale) n [])
        else err too_large)
unfolding len_round calc_package_data_length
len_round_last code stale x b inner h hb = ground (
  arith,
  set-append code stale x b,
  bit_and_top b (omega arith),
  read_7bit-code_value (code ++ b ∷ []) stale (IsCode-snoc code b inner hb)
      (omega (arith, length-append code (b ∷ []))),
)
