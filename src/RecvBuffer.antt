-- ===== src/RecvBuffer.antt =====
-- network/tcp_connection.h and .cpp: class RecvBuffer, which cuts the bytes of a connection into
-- messages. A message is its 7-bit encoded length and that many bytes. An access outside an array and
-- a failed assert are errors; `out_of_fuel` is no behaviour of the code.
pub mod Parser
pub mod Matches
pub mod Refine
pub mod Chunks
pub mod Delivered
pub mod Frames
pub mod Limits
mod Tests
use archai_engine.Shared.{
  ℕ, zero, suc, ◌+◌, ◌-◌, ◌*◌, bit_and, ◌&&◌, Option, none, some, List, [], ◌∷◌, ◌++◌, ◌==◌, ltb,
  leb, if◌then◌else◌, length, set, take, drop, replicate,
}
use archai_engine.Shared.Results.{Result, ok, err, ◌>>=◌}
use archai_engine.SevenBit.{max_len_size, read_7bit_encoded_int}

pub data ParseStage : Type 0 where
  len body : ParseStage

pub data Fault : Type 0 where
  len_overrun bad_length too_large buffer_overrun out_of_fuel : Fault

-- 16 * 1024 * 1024
abbrev pub max_package_size : ℕ
max_package_size = 16 * 1024 * 1024

-- What `_buffer` points to: an array of `size` chars, of which the first ones have been written.
pub record Array : Type 0 where
  pub size : ℕ
  pub written : List ℕ

pub record RecvBuffer : Type 0 where
  pub len_bytes : List ℕ
  pub parse_stage : ParseStage
  pub len_bytes_position : ℕ
  pub need_bytes : ℕ
  pub position : ℕ
  pub buffer : Option Array

abbrev pub init : RecvBuffer
init = record {
  len_bytes = replicate max_len_size 0;
  parse_stage = len;
  len_bytes_position = 0;
  need_bytes = 1;
  position = 0;
  buffer = none;
}

pub calc_package_data_length : RecvBuffer → Result Fault ℕ
calc_package_data_length r = elim (read_7bit_encoded_int r.len_bytes) [
  | none ↦ err bad_length
  | some (n, _) ↦ ok n
]

-- The end of the length: the message's buffer is allocated.
pub begin_data : RecvBuffer → Result Fault RecvBuffer
begin_data r = do
  n ← calc_package_data_length r
  if leb n max_package_size
      then ok (record r {
        parse_stage = body;
        need_bytes = n;
        len_bytes_position = 0;
        buffer = some (record { size = n; written = [] });
      })
      else err too_large

-- `case ParseStage::LEN`, on the byte `bytes[bindex]`.
pub len_round : RecvBuffer → ℕ → Result Fault RecvBuffer
unfolding begin_data
len_round r b =
    let need = if bit_and b 0x80 == 0 then 0 else r.need_bytes in
    let r' = record r {
      len_bytes = set r.len_bytes r.len_bytes_position b;
      len_bytes_position = r.len_bytes_position + 1;
      need_bytes = need;
    } in
    if leb max_len_size r.len_bytes_position
    then err len_overrun
    else if need == 0
    then begin_data r'
    else ok r'

-- memcpy(_buffer + at, bytes, n)
pub copy_in : Option Array → ℕ → List ℕ → Result Fault Array
copy_in none at bytes = err buffer_overrun
copy_in (some a) at bytes =
    if leb at (length a.written) && leb (at + length bytes) a.size
    then ok
        (record a { written = take at a.written ++ (bytes ++ drop (at + length bytes) a.written) })
    else err buffer_overrun

-- `case ParseStage::DATA`, on the bytes that are left. The result has the bytes that it leaves, and
-- the message that it finishes, if any.
pub data_round : RecvBuffer → List ℕ → Result Fault (RecvBuffer × List ℕ × List (List ℕ))
unfolding copy_in
data_round r bytes =
    let left = length bytes in
    if ltb left r.need_bytes
    then (do
      a ← copy_in r.buffer r.position bytes
      ok (
        record r {
          buffer = some a;
          need_bytes = r.need_bytes - left;
          position = r.position + left;
        },
        [],
        [],
      ))
    else (do
      a ← copy_in r.buffer r.position (take r.need_bytes bytes)
      ok (
        record r { parse_stage = len; need_bytes = 1; buffer = none; position = 0 },
        drop r.need_bytes bytes,
        take (r.position + r.need_bytes) a.written ∷ [],
      ))

-- One round of the loop on `bytes[bindex..n)`, which is not empty.
pub round :
    ParseStage → RecvBuffer → ℕ → List ℕ → Result Fault (RecvBuffer × List ℕ × List (List ℕ))
unfolding len_round data_round
round len r b bytes = do r' ← len_round r b; ok (r', bytes, [])
round body r b bytes = data_round r (b ∷ bytes)

pub recv_loop : ℕ → RecvBuffer → List ℕ → List (List ℕ) → Result Fault (RecvBuffer × List (List ℕ))
unfolding round
recv_loop fuel r [] msgs = ok (r, msgs)
recv_loop zero r (b ∷ bytes) msgs = if r.need_bytes == 0 then ok (r, msgs) else err out_of_fuel
recv_loop (suc fuel) r (b ∷ bytes) msgs =
    let more = (do
      (r', rest, new) ← round r.parse_stage r b bytes
      recv_loop fuel r' rest (msgs ++ new)) in
    if r.need_bytes == 0 then ok (r, msgs) else more

-- Each round takes a byte at least, so `n` rounds are enough.
pub recv : RecvBuffer → List ℕ → Result Fault (RecvBuffer × List (List ℕ))
recv r bytes = recv_loop (length bytes) r bytes []

-- The calls that one connection makes, one for each read of its socket.
pub recv_all : RecvBuffer → List (List ℕ) → Result Fault (RecvBuffer × List (List ℕ))
recv_all r [] = ok (r, [])
recv_all r (bytes ∷ chunks) = do
  (r', msgs) ← recv r bytes
  (r'', more) ← recv_all r' chunks
  ok (r'', msgs ++ more)
