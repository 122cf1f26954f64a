-- ===== src/SyncArray/Replay.antt =====
-- A copy that reads the log of an array becomes equal to it.
use archai_engine.Shared.{
  not, ℕ, zero, suc, ◌+◌, ◌%◌, ◌^◌, ◌≤◌, ◌<◌, ◌≡◌, refl, sym, ap, ◌∙◌, Option, some, List, [], ◌∷◌,
  ◌++◌, arith, length, append-nil, length-append, length-take, append_assoc, Bool-cases, inl, inr,
  ltb, ◌==◌, All, true, false,
}
use mathlib.Core.Path.{subst}
use archai_engine.Shared.Options.{◌>>=◌, >>=-eq-some}
use archai_engine.BitStream.{OutputBitStream, InputBitStream, bytes_of, write_number, read_number}
use archai_engine.BitStream.Growth.{contents, Ok, write-contents}
use archai_engine.BitStream.Numbers.{
  Rest, skip, Adds, Adds-then, Reads, write_number-Adds, read_number-Reads, length-bytes_of,
}
use archai_engine.SyncArray.{Serial, SyncArray, net_delta_serialize, replay_loop, replay}
use archai_engine.SyncArray.Changes.{IsPlain, Change, Fits, change, round}
use archai_engine.SyncArray.Described.{described_all, change-described}
use archai_engine.SyncArray.Logged.{change-Logs}

module _ (memory : ℕ → ℕ) {A : Type 0} (s : Serial A) where
  -- Changes one after the other.
  unfoldable pub changes : List (Change A) → SyncArray A → Option (SyncArray A)
  unfolding change
  changes [] a = some a
  changes (c ∷ cs) a = change memory s c a >>= λ b. changes cs b

  changes-described :
      IsPlain s
      → (cs : List (Change A)) (a a' : SyncArray A) → changes cs a ≡ some a'
      → a'.vec ≡ described_all s.fresh cs a.vec
  unfolding changes described_all
  changes-described plain [] a a' h = let same : a ≡ a' = cc in cc
  changes-described plain (c ∷ cs) a a' h =
      let (b, first, h') = >>=-eq-some (change memory s c a) _ h in
      changes-described plain cs b a' h'
      ∙ ap (described_all s.fresh cs) (change-described memory s plain c a b first)

  -- The loop of a copy, over all of `bytes`.
  abbrev Loops : List A → List A → List ℕ → Type 0
  Loops vec vec' bytes =
      (i : InputBitStream) (rest : List ℕ) (fuel : ℕ)
      → Rest i (bytes ++ rest)
      → length bytes ≤ fuel
      → (replay_loop s fuel (i.pos + length bytes) vec i ≡ some (vec', skip i (length bytes)))
        × Rest (skip i (length bytes)) rest

  Loops-done : (vec : List A) → Loops vec vec []
  unfolding replay_loop
  Loops-done vec i rest zero here h =
      let same : i.pos + 0 ≡ i.pos = omega arith in
      let test : ltb i.pos i.pos ≡ false = ground arith in
      (rw (replay_loop, same, test) refl, rw same here)
  Loops-done vec i rest (suc fuel) here h =
      let same : i.pos + 0 ≡ i.pos = omega arith in
      let test : ltb i.pos i.pos ≡ false = ground arith in
      (rw (replay_loop, same, test) refl, rw same here)

  replay_loop-round :
      (fuel end : ℕ) (vec vec' : List A) (i i' : InputBitStream)
      → ltb i.pos end ≡ true
      → round memory s vec i ≡ some (vec', i')
      → replay_loop s (suc fuel) end vec i ≡ replay_loop s fuel end vec' i'
  unfolding replay_loop
  replay_loop-round fuel end vec vec' i i' test found =
      let ((op, i₁), first, second) = >>=-eq-some (read_number 1 i) _ found in
      rw (replay_loop, test, first, second) refl

  Loops-round :
      (vec vec' vec'' : List A) (bytes more : List ℕ)
      → Reads (round memory s vec) vec' bytes
      → 0 < length bytes
      → Loops vec' vec'' more
      → Loops vec vec'' (bytes ++ more)
  Loops-round vec vec' vec'' bytes more reads pos loops i rest zero here h =
      absurd (omega (arith, length-append bytes more))
  Loops-round vec vec' vec'' bytes more reads pos loops i rest (suc fuel) here h =
      let sum = length-append bytes more in
      let (found, after) = reads i (more ++ rest) (rw (append_assoc bytes more rest) at here) in
      let (found', after') = loops (skip i (length bytes)) rest fuel after (omega arith) in
      let total : i.pos + length bytes + length more ≡ i.pos + length (bytes ++ more) =
        omega arith in
      let test : ltb i.pos (i.pos + length (bytes ++ more)) ≡ true = ground arith in
      let end = i.pos + length (bytes ++ more) in
      (
        replay_loop-round fuel end vec vec' i (skip i (length bytes)) test found
            ∙ rw total at found',
        rw total at after',
      )

  -- All that a list of changes logs.
  abbrev LogsAll : OutputBitStream → OutputBitStream → List A → List A → Type 0
  LogsAll o o' vec vec' = (bytes : List ℕ) × Adds o o' bytes × Loops vec vec' bytes

  changes-Logs :
      IsPlain s
      → (cs : List (Change A)) (a a' : SyncArray A) → Ok a.dirty_log
      → All Fits cs
      → changes cs a ≡ some a'
      → LogsAll a.dirty_log a'.dirty_log a.vec a'.vec
  unfolding changes
  changes-Logs plain [] a a' ok fits h =
      let same : a ≡ a' = cc in
      subst (λ (x : SyncArray A). LogsAll a.dirty_log x.dirty_log a.vec x.vec) same
        ([], (sym (append-nil _), ok), Loops-done a.vec)
  changes-Logs plain (c ∷ cs) a a' ok (fit, fits) h =
      let (b, first, h') = >>=-eq-some (change memory s c a) _ h in
      let (bytes, adds, reads, pos) = change-Logs memory s plain c a b ok fit first in
      let (more, adds', loops) = changes-Logs plain cs b a' adds.1 fits h' in
      (
        bytes ++ more,
        Adds-then a.dirty_log b.dirty_log a'.dirty_log bytes more adds adds',
        Loops-round a.vec b.vec a'.vec bytes more reads pos loops,
      )

  pub replay_always :
      (vec : List A) (n : ℕ) (i : InputBitStream)
      → read_number 4 i ≡ some (n, skip i 4)
      → replay s vec i ≡ replay_loop s n (i.pos + 4 + n) vec (skip i 4)
  unfolding replay replay_loop
  replay_always vec zero i found =
      let same : i.pos + 4 + 0 ≡ i.pos + 4 = omega arith in
      let test : ltb (i.pos + 4) (i.pos + 4) ≡ false = ground arith in
      rw (replay, found, same, test) refl
  replay_always vec (suc n) i found =
      let test : (suc n == 0) ≡ false = ground arith in rw (replay, found, test) refl

  pub net_delta_serialize-Adds :
      (a : SyncArray A) (bs : OutputBitStream)
      → Ok bs
      → a.dirty_log.pos < 2 ^ 32
      → Adds bs
          (net_delta_serialize memory s a bs).0
          (bytes_of 4 a.dirty_log.pos ++ contents a.dirty_log)
  unfolding net_delta_serialize
  net_delta_serialize-Adds a bs ok small =
      let n = a.dirty_log.pos in
      let whole : n % 2 ^ 32 ≡ n = omega arith in
      let sized = write_number memory 4 bs n in
      let first = write_number-Adds 4 n memory bs ok in
      elim (Bool-cases (n == 0)) [
        | inl e ↦
            let none_left : contents a.dirty_log ≡ [] =
              let zero_pos : n ≡ 0 = ground arith in rw zero_pos refl in
            rw (net_delta_serialize, whole, e, none_left, append-nil (bytes_of 4 n)) first
        | inr e ↦
            rw (net_delta_serialize, whole, e)
              (Adds-then bs sized _ (bytes_of 4 n) (contents a.dirty_log) first
                (write-contents memory sized (contents a.dirty_log) first.1))
      ]

  replay-Reads :
      (vec vec' : List A) (bytes : List ℕ)
      → length bytes < 2 ^ 32
      → Loops vec vec' bytes
      → Reads (replay s vec) vec' (bytes_of 4 (length bytes) ++ bytes)
  replay-Reads vec vec' bytes small loops i rest here =
      let n = length bytes in
      let (found, after) =
        read_number-Reads 4 n small i (bytes ++ rest)
          (rw (append_assoc (bytes_of 4 n) bytes rest) at here) in
      let four = length-bytes_of 4 n in
      let found' : read_number 4 i ≡ some (n, skip i 4) = rw four at found in
      let after' : Rest (skip i 4) (bytes ++ rest) = rw four at after in
      let (done, end) = loops (skip i 4) rest n after' (omega arith) in
      let total : i.pos + 4 + n ≡ i.pos + length (bytes_of 4 n ++ bytes) =
        omega (arith, length-append (bytes_of 4 n) bytes) in
      (replay_always vec n i found' ∙ rw (← total) done, rw (← total) end)

-- An array has an empty log; changes are made to it that all succeed, and that log indexes and sizes
-- below 65536; clear and replace are not among them. Then the log, of fewer than 2^32 bytes, is written to any stream whose
-- position is within its buffer, whatever bytes realloc adds. A copy that equals the array before the
-- changes reads it from there, whatever follows, and equals the array after them; it reads no more than
-- what was written. What is asked of the values is IsPlain: a value is read as it was written, and its
-- delta is the whole value, as for numbers; SkillInfo, whose delta is not, is no such type. And the array
-- after the changes is the list that they describe one after the other.
pub replay-changes :
    (memory : ℕ → ℕ) {A : Type 0} (s : Serial A) (cs : List (Change A)) (a a' : SyncArray A)
    (bs : OutputBitStream)
    → IsPlain s
    → a.dirty_log.pos ≡ 0
    → All Fits cs
    → changes memory s cs a ≡ some a'
    → a'.dirty_log.pos < 2 ^ 32
    → Ok bs
    → (bytes : List ℕ) × Adds bs (net_delta_serialize memory s a' bs).0 bytes
      × Reads (replay s a.vec) a'.vec bytes
      × (a'.vec ≡ described_all s.fresh cs a.vec)
replay-changes memory s cs a a' bs plain fresh fits made small ok =
    let ok₀ : Ok a.dirty_log = omega arith in
    let (bytes, (e, ok'), loops) = changes-Logs memory s plain cs a a' ok₀ fits made in
    let start : contents a.dirty_log ≡ [] = rw fresh refl in
    let log : contents a'.dirty_log ≡ bytes = e ∙ ap (λ (l : List ℕ). l ++ bytes) start in
    let size : length bytes ≡ a'.dirty_log.pos =
      ap length (sym log) ∙ omega (arith, length-take a'.dirty_log.pos a'.dirty_log.buffer) in
    let adds = net_delta_serialize-Adds memory s a' bs ok small in
    (
      bytes_of 4 (length bytes) ++ bytes,
      rw (size, ← log) adds,
      replay-Reads memory s a.vec a'.vec bytes (rw size small) loops,
      changes-described memory s plain cs a a' made,
    )

pub net_delta_serialize-flag :
    (memory : ℕ → ℕ) {A : Type 0} (s : Serial A) (a : SyncArray A) (bs : OutputBitStream)
    → (net_delta_serialize memory s a bs).1 ≡ not (a.dirty_log.pos == 0)
unfolding net_delta_serialize
net_delta_serialize-flag memory s a bs = elim (Bool-cases (a.dirty_log.pos == 0)) [
  | inl e ↦ rw e refl
  | inr e ↦ rw e refl
]
