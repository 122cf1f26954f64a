-- ===== src/Connection/Tests.antt =====
-- A connection that sends two messages, and one whose buffer is full.
use archai_engine.Shared.{ℕ, ◌≡◌, refl, none, some, List, [], ◌∷◌, map, length, arith}
use mathlib.Core.List.{flatten}
use archai_engine.Shared.Results.{ok}
use archai_engine.SevenBit.{write_7bit_encoded_int, write_loop}
use archai_engine.RecvBuffer.{RecvBuffer, init, recv_all}
use archai_engine.Service.Dispatch.{message, parts}
use archai_engine.Connection.{Output, alive, send_msg}
use archai_engine.Connection.Deliver.{Sending, sends, drains, send_all, messages, send_all-parts}
use archai_engine.Connection.Limits.{send_msg_cases}

abbrev pong : List ℕ
pong = 112 ∷ 111 ∷ 110 ∷ 103 ∷ []

abbrev talk : List Sending
talk = sends pong (8 ∷ 1 ∷ []) ∷ drains 5 ∷ sends pong [] ∷ []

abbrev spoken : Output
spoken = record {
  written = 7 ∷ 4 ∷ 112 ∷ 111 ∷ 110 ∷ 103 ∷ 8 ∷ 1 ∷ 5 ∷ 4 ∷ 112 ∷ 111 ∷ 110 ∷ 103 ∷ [];
  pending = 9;
}

talk-spoken : send_all (alive (record { written = []; pending = 0 })) talk ≡ some (alive spoken)
unfolding send_all message write_7bit_encoded_int write_loop
talk-spoken = refl

abbrev reads : List (List ℕ)
reads = (7 ∷ 4 ∷ 112 ∷ []) ∷ (111 ∷ 110 ∷ 103 ∷ 8 ∷ 1 ∷ 5 ∷ 4 ∷ 112 ∷ 111 ∷ 110 ∷ 103 ∷ []) ∷ []

send_all-parts_example :
    (r : RecvBuffer) × (msgs : List (List ℕ)) × (recv_all init reads ≡ ok (r, msgs))
    × (map parts msgs ≡ map some (messages talk))
unfolding flatten
send_all-parts_example = send_all-parts talk spoken reads talk-spoken refl (omega arith)

abbrev full : Output
full = record { written = []; pending = 16777216 }

abbrev kick : List ℕ
kick = 107 ∷ []

code-kick : write_7bit_encoded_int (length kick) ≡ some (1 ∷ [])
unfolding write_7bit_encoded_int write_loop
code-kick = refl

send_msg_cases_example : send_msg (alive full) kick ≡ none
send_msg_cases_example = send_msg_cases full kick (1 ∷ []) (omega arith) code-kick
