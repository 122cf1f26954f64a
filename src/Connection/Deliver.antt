-- ===== src/Connection/Deliver.antt =====
-- From a connection that sends to the peer that reads.
use archai_engine.Shared.{
  ℕ, ◌+◌, ◌%◌, ◌^◌, ◌<◌, ◌≤◌, ◌≡◌, refl, sym, ap, ◌∙◌, subst, Bool-cases, inl, inr, Option, some,
  List, [], ◌∷◌, ◌++◌, ltb, length, length-append, append_assoc, append-nil, map, All, arith,
}
use mathlib.Core.List.{flatten}
use archai_engine.Shared.Options.{◌>>=◌, >>=-eq-some}
use archai_engine.Shared.Results.{ok}
use archai_engine.SevenBit.{write_7bit_encoded_int}
use archai_engine.SevenBit.Encode.{write_7bit_total}
use archai_engine.RecvBuffer.{RecvBuffer, init, recv_all}
use archai_engine.RecvBuffer.Matches.{IsByte}
use archai_engine.RecvBuffer.Frames.{Frames, none_left, framed, recv_all-Frames}
use archai_engine.Service.Dispatch.{message, parts, parts-message}
use archai_engine.Connection.{
  Output, Connection, alive, deleted, send_buffer_size, send_data, send_msg, send_raw_msg, drain,
}

-- What befalls a connection: a message is sent, or the network takes bytes.
pub data Sending : Type 0 where
  sends : List ℕ → List ℕ → Sending
  drains : ℕ → Sending

unfoldable pub send_all : Connection → List Sending → Option Connection
unfolding send_raw_msg
send_all c [] = some c
send_all c (sends name args ∷ ss) = do c' ← send_raw_msg c name args; send_all c' ss
send_all c (drains n ∷ ss) = send_all (drain n c) ss

abbrev pub messages : List Sending → List (List ℕ × List ℕ)
messages [] = []
messages (sends name args ∷ ss) = (name, args) ∷ messages ss
messages (drains n ∷ ss) = messages ss

-- A connection that is alive after it was given bytes has them, within its limit.
send_data-alive :
    (c : Connection) (bytes : List ℕ) (out' : Output)
    → send_data c bytes ≡ some (alive out')
    → (out : Output) × (c ≡ alive out)
      × (out'.written ≡ out.written ++ bytes)
      × (length bytes ≤ send_buffer_size)
unfolding send_data
send_data-alive (alive out) bytes out' h =
    elim (Bool-cases (ltb send_buffer_size (out.pending + length bytes))) [
      | inl over ↦ let h' = rw over at h in cc
      | inr fits ↦ let h' = rw fits at h in (out, refl, cc, ground arith)
    ]
send_data-alive deleted bytes out' h = cc

send_msg-alive :
    (c : Connection) (msg : List ℕ) (out' : Output)
    → send_msg c msg ≡ some (alive out')
    → (out : Output) × (code : List ℕ) × (c ≡ alive out)
      × (write_7bit_encoded_int (length msg) ≡ some code)
      × (out'.written ≡ out.written ++ (code ++ msg))
      × (length msg ≤ send_buffer_size)
unfolding send_msg
send_msg-alive c msg out' h =
    let (code, coded, h1) = >>=-eq-some (write_7bit_encoded_int (length msg % 2 ^ 32)) _ h in
    let (c1, first, second) = >>=-eq-some (send_data c code) _ h1 in
    let (out1, is1, written, fits) = send_data-alive c1 msg out' second in
    let first' : send_data c code ≡ some (alive out1) = first ∙ ap some is1 in
    let (out, is, written1, fits1) = send_data-alive c code out1 first' in
    let small : length msg % 2 ^ 32 ≡ length msg = omega arith in
    (
      out,
      code,
      is,
      ap write_7bit_encoded_int (sym small) ∙ coded,
      written ∙ ap (λ (l : List ℕ). l ++ msg) written1 ∙ append_assoc out.written code msg,
      fits,
    )

send_raw_msg-made :
    (c c' : Connection) (name args : List ℕ)
    → send_raw_msg c name args ≡ some c'
    → (msg : List ℕ) × (message name args ≡ some msg) × (send_msg c msg ≡ some c')
unfolding send_raw_msg
send_raw_msg-made c c' name args h = >>=-eq-some (message name args) _ h

-- A message is its name's length, its name and its arguments.
message-length :
    (name args msg : List ℕ)
    → message name args ≡ some msg
    → (0 < length msg) × (length name ≤ length msg)
unfolding message
message-length name args msg h =
    let (code, coded, made) = >>=-eq-some (write_7bit_encoded_int (length name % 2 ^ 32)) _ h in
    let same : (code ++ name) ++ args ≡ msg = cc in
    let (code', coded', is_code, some_byte, short) =
      write_7bit_total (length name % 2 ^ 32) (omega arith) in
    let codes : code ≡ code' = cc in
    let sum : length msg ≡ length code + length name + length args =
      ap length (sym same)
      ∙ length-append (code ++ name) args
      ∙ ap (λ n. n + length args) (length-append code name) in
    let positive : 1 ≤ length code = subst (λ (l : List ℕ). 1 ≤ length l) (sym codes) some_byte in
    (omega arith, omega arith)

drain-alive :
    (n : ℕ) (c : Connection) (out' : Output)
    → drain n c ≡ alive out'
    → (out : Output) × (c ≡ alive out) × (out'.written ≡ out.written)
drain-alive n (alive out) out' h = (out, refl, cc)
drain-alive n deleted out' h = cc

-- What was written while the connection stayed alive are the messages, each behind its length.
abbrev Written : Connection → Output → List Sending → Type 0
Written c out' ss =
    (out : Output) × (msgs : List (List ℕ)) × (bytes : List ℕ) × (c ≡ alive out)
    × (out'.written ≡ out.written ++ bytes)
    × Frames msgs bytes
    × (map parts msgs ≡ map some (messages ss))

send_all-Written :
    (c : Connection) (ss : List Sending) (out' : Output)
    → send_all c ss ≡ some (alive out')
    → Written c out' ss
unfolding send_all
send_all-Written c [] out' h = (out', [], [], cc, sym (append-nil out'.written), none_left, refl)
send_all-Written c (drains n ∷ ss) out' h =
    let (out1, msgs, bytes, is, written, frames, named) = send_all-Written (drain n c) ss out' h in
    let (out, is', kept) = drain-alive n c out1 is in
    (out, msgs, bytes, is', written ∙ ap (λ (l : List ℕ). l ++ bytes) kept, frames, named)
send_all-Written c (sends name args ∷ ss) out' h =
    let (c1, sent, later) = >>=-eq-some (send_raw_msg c name args) _ h in
    let (out1, msgs, bytes, is, written, frames, named) = send_all-Written c1 ss out' later in
    let (msg, made, sent1) = send_raw_msg-made c c1 name args sent in
    let (out, code, is', coded, written1, fits) = send_msg-alive c msg out1 (sent1 ∙ ap some is) in
    let (positive, short) = message-length name args msg made in
    (
      out,
      msg ∷ msgs,
      code ++ (msg ++ bytes),
      is',
      written
          ∙ ap (λ (l : List ℕ). l ++ bytes) written1
          ∙ append_assoc out.written (code ++ msg) bytes
          ∙ ap (◌++◌ out.written) (append_assoc code msg bytes),
      framed msg code positive fits coded frames,
      cc (parts-message name args msg (omega arith) made, named),
    )

-- A connection is opened, and messages are sent on it by send_raw_msg while the network takes bytes from its
-- buffer, and it is still alive after that. Then, however the network cuts what was written into reads, the
-- peer's RecvBuffer gives as many messages as were sent, in order, and handle_msg takes each apart into the
-- name and the arguments that were sent.
pub send_all-parts :
    (ss : List Sending) (out : Output) (chunks : List (List ℕ))
    → send_all (alive (record { written = []; pending = 0 })) ss ≡ some (alive out)
    → flatten chunks ≡ out.written
    → All (All IsByte) chunks
    → (r : RecvBuffer) × (msgs : List (List ℕ)) × (recv_all init chunks ≡ ok (r, msgs))
      × (map parts msgs ≡ map some (messages ss))
send_all-parts ss out chunks h cut are_bytes =
    let (start, msgs, bytes, is, written, frames, named) = send_all-Written _ ss out h in
    let nothing : start.written ≡ [] = cc in
    let all : flatten chunks ≡ bytes = cut ∙ written ∙ ap (λ (l : List ℕ). l ++ bytes) nothing in
    let (r, got, fits) = recv_all-Frames chunks msgs frames all are_bytes in (r, msgs, got, named)
