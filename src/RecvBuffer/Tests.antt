-- ===== src/RecvBuffer/Tests.antt =====
-- Runs of `recv`, and the theorems at concrete inputs.
use archai_engine.Shared.{ℕ, ◌≡◌, refl, none, some, List, [], ◌∷◌, ◌++◌, arith}
use mathlib.Core.List.{flatten}
use archai_engine.Shared.Results.{ok, err}
use archai_engine.SevenBit.{write_loop, write_7bit_encoded_int, read_loop, read_7bit_encoded_int}
use archai_engine.RecvBuffer.{
  RecvBuffer, len_overrun, init, calc_package_data_length, round, recv_loop, recv, recv_all,
}
use archai_engine.RecvBuffer.Parser.{header, payload, run}
use archai_engine.RecvBuffer.Matches.{Matches, Agrees}
use archai_engine.RecvBuffer.Refine.{recv-Agrees}
use archai_engine.RecvBuffer.Chunks.{init-Matches}
use archai_engine.RecvBuffer.Delivered.{handle_data, complete, Hands, handle_data-Hands}
use archai_engine.RecvBuffer.Frames.{Frames, none_left, framed, recv_all-Frames}
use archai_engine.RecvBuffer.Limits.{recv_all_zero, recv_all_overrun}

-- "hi" and "ab!", cut inside the first message.
abbrev hi : List ℕ
hi = b'h' ∷ b'i' ∷ []

abbrev ab : List ℕ
ab = b'a' ∷ b'b' ∷ b'!' ∷ []

abbrev reads : List (List ℕ)
reads = (2 ∷ b'h' ∷ []) ∷ (b'i' ∷ 3 ∷ b'a' ∷ []) ∷ (b'b' ∷ b'!' ∷ []) ∷ []

abbrev stream : List ℕ
stream = 2 ∷ b'h' ∷ b'i' ∷ 3 ∷ b'a' ∷ b'b' ∷ b'!' ∷ []

handle_data-reads : handle_data init reads ≡ (hi ∷ ab ∷ [], none)
unfolding handle_data recv recv_loop round calc_package_data_length read_7bit_encoded_int read_loop
handle_data-reads = refl

stream-Frames : Frames (hi ∷ ab ∷ []) stream
unfolding write_7bit_encoded_int write_loop
stream-Frames =
    framed hi (2 ∷ []) (omega arith) (omega arith) refl
      (framed ab (3 ∷ []) (omega arith) (omega arith) refl none_left)

recv-Agrees_example : Agrees (recv init stream) (run (header []) stream)
recv-Agrees_example = recv-Agrees init (header []) stream init-Matches (omega arith)

-- A length of six bytes after a message: in one read the message is lost, in two it is handed over.
abbrev too_long : List ℕ
too_long = 0x80 ∷ 0x80 ∷ 0x80 ∷ 0x80 ∷ 0x80 ∷ 1 ∷ []

handle_data-cut : handle_data init ((2 ∷ hi) ∷ too_long ∷ []) ≡ (hi ∷ [], some len_overrun)
unfolding handle_data recv recv_loop round calc_package_data_length read_7bit_encoded_int read_loop
handle_data-cut = refl

handle_data-whole : handle_data init ((2 ∷ hi ++ too_long) ∷ []) ≡ ([], some len_overrun)
unfolding handle_data recv recv_loop round calc_package_data_length read_7bit_encoded_int read_loop
handle_data-whole = refl

handle_data-Hands_example :
    Hands (handle_data init ((2 ∷ hi) ∷ too_long ∷ [])) (complete (header []) (2 ∷ hi ++ too_long))
unfolding flatten
handle_data-Hands_example =
    handle_data-Hands ((2 ∷ hi) ∷ too_long ∷ []) (2 ∷ hi ++ too_long) refl (omega arith)

recv_all-Frames_example :
    (r : RecvBuffer) × (recv_all init reads ≡ ok (r, hi ∷ ab ∷ [])) × Matches r (header [])
unfolding flatten
recv_all-Frames_example = recv_all-Frames reads (hi ∷ ab ∷ []) stream-Frames refl (omega arith)

recv_all_zero_example :
    (r : RecvBuffer) × (recv_all init ((0 ∷ []) ∷ stream ∷ []) ≡ ok (r, []))
    × Matches r (payload 0 [])
unfolding flatten
recv_all_zero_example = recv_all_zero ((0 ∷ []) ∷ stream ∷ []) stream refl (omega arith)

recv_all_overrun_example :
    recv_all init ((0x80 ∷ 0x80 ∷ 0x80 ∷ []) ∷ (0x80 ∷ 0x80 ∷ 1 ∷ 7 ∷ []) ∷ []) ≡ err len_overrun
unfolding flatten
recv_all_overrun_example =
    recv_all_overrun ((0x80 ∷ 0x80 ∷ 0x80 ∷ []) ∷ (0x80 ∷ 0x80 ∷ 1 ∷ 7 ∷ []) ∷ [])
      (0x80 ∷ 0x80 ∷ 0x80 ∷ 0x80 ∷ 0x80 ∷ []) (7 ∷ []) 1 refl (omega arith) refl (omega arith)
