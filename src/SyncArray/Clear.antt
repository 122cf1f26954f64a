-- ===== src/SyncArray/Clear.antt =====
-- The operation that a copy cannot read.
use archai_engine.Shared.{
  ℕ, ◌+◌, ◌≡◌, refl, ap, ◌∙◌, none, some, List, [], ◌++◌, arith, length, length-take, append_assoc,
  ltb, true,
}
use mathlib.Core.Path.{subst}
use archai_engine.BitStream.{OutputBitStream, InputBitStream, bytes_of, read_number}
use archai_engine.BitStream.Growth.{contents, Ok}
use archai_engine.BitStream.Numbers.{
  Rest, skip, Adds, write_number-Adds, read_number-Reads, length-bytes_of,
}
use archai_engine.SyncArray.{
  Serial, SyncArray, clear, net_delta_serialize, replay, replay_loop, apply_one,
}
use archai_engine.SyncArray.Replay.{net_delta_serialize-Adds, replay_always}

module _ (memory : ℕ → ℕ) {A : Type 0} (s : Serial A) where
  clear_log :
      (a : SyncArray A) → a.dirty_log.pos ≡ 0 → contents (clear memory s a).dirty_log ≡ bytes_of 1 5
  unfolding clear
  clear_log a fresh =
      let ok : Ok a.dirty_log = omega arith in
      let start : contents a.dirty_log ≡ [] = rw fresh refl in
      (write_number-Adds 1 5 memory a.dirty_log ok).0 ∙ ap (λ (l : List ℕ). l ++ bytes_of 1 5) start

  clear-Ok : (a : SyncArray A) → a.dirty_log.pos ≡ 0 → Ok (clear memory s a).dirty_log
  unfolding clear
  clear-Ok a fresh = (write_number-Adds 1 5 memory a.dirty_log (omega arith)).1

  clear_loop :
      (vec : List A) (i : InputBitStream)
      → read_number 1 i ≡ some (5, skip i 1)
      → replay_loop s 1 (i.pos + 1) vec i ≡ none
  unfolding replay_loop apply_one
  clear_loop vec i found =
      let test : ltb i.pos (i.pos + 1) ≡ true = ground arith in rw (replay_loop, test, found) refl

-- An array with an empty log is cleared, and its log is written to a stream whose position is within its
-- buffer. No copy can read this: for every copy, and whatever follows, replay fails.
pub replay-clear :
    (memory : ℕ → ℕ) {A : Type 0} (s : Serial A) (a : SyncArray A) (bs : OutputBitStream)
    → a.dirty_log.pos ≡ 0
    → Ok bs
    → (bytes : List ℕ) × Adds bs (net_delta_serialize memory s (clear memory s a) bs).0 bytes
      × ((vec : List A) (i : InputBitStream) (rest : List ℕ)
          → Rest i (bytes ++ rest)
          → replay s vec i ≡ none)
replay-clear memory s a bs fresh ok =
    let log = clear_log memory s a fresh in
    let ok' = clear-Ok memory s a fresh in
    let o = (clear memory s a).dirty_log in
    let one : o.pos ≡ 1 =
      omega (arith, length-take o.pos o.buffer, ap length log, length-bytes_of 1 5) in
    let adds = net_delta_serialize-Adds memory s (clear memory s a) bs ok (omega arith) in
    let said : bytes_of 4 o.pos ++ contents o ≡ bytes_of 4 1 ++ bytes_of 1 5 =
      ap (λ (n : ℕ). bytes_of 4 n ++ contents o) one ∙ ap (λ (l : List ℕ). bytes_of 4 1 ++ l) log in
    (
      bytes_of 4 1 ++ bytes_of 1 5,
      subst (Adds bs (net_delta_serialize memory s (clear memory s a) bs).0) said adds,
      (λ vec i rest here.
          let (found, after) =
            read_number-Reads 4 1 (omega arith) i (bytes_of 1 5 ++ rest)
              (rw (append_assoc (bytes_of 4 1) (bytes_of 1 5) rest) at here) in
          let four = length-bytes_of 4 1 in
          let found' : read_number 4 i ≡ some (1, skip i 4) = rw four at found in
          let after' : Rest (skip i 4) (bytes_of 1 5 ++ rest) = rw four at after in
          let (op, _) = read_number-Reads 1 5 (omega arith) (skip i 4) rest after' in
          let op' : read_number 1 (skip i 4) ≡ some (5, skip (skip i 4) 1) =
            rw (length-bytes_of 1 5) at op in
          replay_always memory s vec 1 i found' ∙ clear_loop memory s vec (skip i 4) op'),
    )
