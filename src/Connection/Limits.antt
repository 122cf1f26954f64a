-- ===== src/Connection/Limits.antt =====
-- What a full buffer, and a socket that fails, do to a connection.
use archai_engine.Shared.{
  if_true, if_false, sym, ℕ, ◌+◌, ◌%◌, ◌^◌, ◌<◌, ◌≤◌, ◌≡◌, refl, ap, ◌∙◌, Bool-cases, inl, inr, ◌⊎◌,
  none, some, List, ◌++◌, ltb, if◌then◌else◌, length, arith, true,
}
use archai_engine.Shared.Options.{◌>>=◌}
use archai_engine.SevenBit.{write_7bit_encoded_int, IsU32}
use archai_engine.Connection.{
  Output, Connection, alive, deleted, send_buffer_size, send_data, send_msg, SocketError, reset,
  broken_pipe, socket_event_cb, on_error, on_lost_connection,
}

send_data-over :
    (out : Output) (bytes : List ℕ)
    → send_buffer_size < out.pending + length bytes
    → send_data (alive out) bytes ≡ some deleted
unfolding send_data
send_data-over out bytes h = ground arith

send_data-fits :
    (out : Output) (bytes : List ℕ)
    → out.pending + length bytes ≤ send_buffer_size
    → send_data (alive out) bytes
      ≡ some
          (alive (record { written = out.written ++ bytes; pending = out.pending + length bytes }))
unfolding send_data
send_data-fits out bytes h = ground arith

send_data-deleted : (bytes : List ℕ) → send_data deleted bytes ≡ none
unfolding send_data
send_data-deleted bytes = refl

-- A message of fewer than 2^32 bytes is sent on a connection that is alive. Where its length and itself fit in
-- the buffer, both are written and the connection stays alive. Where only its length fits, the
-- connection is deleted. Where not even that fits, send_msg goes on to use the connection that it has
-- just had deleted.
pub send_msg_cases :
    (out : Output) (msg code : List ℕ)
    → IsU32 (length msg)
    → write_7bit_encoded_int (length msg) ≡ some code
    → send_msg (alive out) msg ≡ (
        if ltb send_buffer_size (out.pending + length code)
        then none
        else if ltb send_buffer_size (out.pending + length code + length msg)
        then some deleted
        else some (
            alive (record {
              written = out.written ++ code ++ msg;
              pending = out.pending + length code + length msg;
            })))
unfolding send_msg
send_msg_cases out msg code fits coded =
    let small : length msg % 2 ^ 32 ≡ length msg = omega arith in
    let coded' : write_7bit_encoded_int (length msg % 2 ^ 32) ≡ some code =
      ap write_7bit_encoded_int small ∙ coded in
    let mid : Output = record {
      written = out.written ++ code;
      pending = out.pending + length code;
    } in
    let opened : send_msg (alive out) msg ≡ (do c' ← send_data (alive out) code; send_data c' msg) =
      rw coded' refl in
    elim (Bool-cases (ltb send_buffer_size (out.pending + length code))) [
      | inl over ↦
          opened
          ∙ rw (send_data-over out code (ground arith)) (send_data-deleted msg)
          ∙ sym (if_true _ _ over)
      | inr under ↦
          let first = opened ∙ rw (send_data-fits out code (ground arith)) refl in
          elim (Bool-cases (ltb send_buffer_size (out.pending + length code + length msg))) [
            | inl over ↦
                first
                ∙ send_data-over mid msg (ground arith)
                ∙ sym (if_true _ _ over)
                ∙ sym (if_false _ _ under)
            | inr under' ↦
                first
                ∙ send_data-fits mid msg (ground arith)
                ∙ sym (if_false _ _ under')
                ∙ sym (if_false _ _ under)
          ]
    ]

-- Where the socket reports that it was reset or its pipe broke, and the end of the stream too, the connection
-- is used after it was deleted.
socket_event_cb-twice :
    (c : Connection) (e : SocketError)
    → (e ≡ reset) ⊎ (e ≡ broken_pipe)
    → socket_event_cb c (some e) true ≡ none
unfolding socket_event_cb on_lost_connection on_error
socket_event_cb-twice deleted e h = refl
socket_event_cb-twice (alive out) e (inl h) = rw h refl
socket_event_cb-twice (alive out) e (inr h) = rw h refl
