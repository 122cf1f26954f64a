-- ===== src/SyncArray/Tests.antt =====
-- Runs of the arrays, and the theorems at one of 16-bit numbers.
use archai_engine.Shared.{
  ℕ, ◌≡◌, refl, ◌++◌, Option, none, some, List, [], ◌∷◌, Bool-cases, inl, inr, ltb, if◌then◌else◌,
  arith,
}
use archai_engine.Shared.Options.{◌>>=◌}
use archai_engine.BitStream.{
  OutputBitStream, InputBitStream, empty, write_number, read_number, bytes_of,
}
use archai_engine.BitStream.Numbers.{Rest, Adds, Reads, write_number-Adds, read_number-Reads}
use archai_engine.SyncArray.{Serial, SyncArray, clear, net_delta_serialize, replay}
use archai_engine.SyncArray.Changes.{
  IsPlain, Change, pushes, pops, inserts, erases, resizes, updates,
}
use archai_engine.SyncArray.Described.{described_all}
use archai_engine.SyncArray.Replay.{changes, replay-changes}
use archai_engine.SyncArray.Clear.{replay-clear}

abbrev memory : ℕ → ℕ
memory at = 205

-- uint16_t: other numbers are no values of it.
abbrev put16 : OutputBitStream → ℕ → Option OutputBitStream
put16 o n = if ltb n 65536 then some (write_number memory 2 o n) else none

abbrev short : Serial ℕ
short = record {
  put = put16;
  put_delta = λ o n. put16 o n >>= λ o'. some (o', n);
  get = read_number 2;
  fresh = 0;
}

short-IsPlain : IsPlain short
short-IsPlain = record {
  back = λ o o' n ok h. elim (Bool-cases (ltb n 65536)) [
    | inl lt ↦
        let put : some (write_number memory 2 o n) ≡ some o' = rw lt at h in
        let same : write_number memory 2 o n ≡ o' = cc in
        (
          bytes_of 2 n,
          rw same at (write_number-Adds 2 n memory o ok),
          read_number-Reads 2 n (ground arith),
        )
    | inr out ↦ let fails : ◌≡◌ {A = Option OutputBitStream} none (some o') = rw out at h in cc
  ];
  delta = λ o o' n n' h. ground arith;
}

abbrev edits : List (Change ℕ)
edits = pushes 7 ∷ pushes 300 ∷ inserts 0 5 ∷ updates 1 8 ∷ resizes 5 ∷ erases 2 ∷ pops ∷ []

abbrev first_array : SyncArray ℕ
first_array = record { vec = 1 ∷ []; dirty_log = empty }

abbrev edited : SyncArray ℕ
edited = record {
  vec = 5 ∷ 8 ∷ 300 ∷ [];
  dirty_log = record {
    buffer =
        1 ∷ 7 ∷ 0 ∷ 1 ∷ 44 ∷ 1 ∷ 3 ∷ 0 ∷ 0 ∷ 5 ∷ 0 ∷ 0 ∷ 1 ∷ 0 ∷ 8 ∷ 0 ∷ 6 ∷ 5 ∷ 0 ∷ 4 ∷ 2 ∷ 0 ∷ 2
        ∷ 205 ∷ [];
    pos = 23;
  };
}

edits-changes : changes memory short edits first_array ≡ some edited
unfolding changes write_number
edits-changes = refl

replay-changes_example :
    (bytes : List ℕ) × Adds empty (net_delta_serialize memory short edited empty).0 bytes
    × Reads (replay short (1 ∷ [])) (5 ∷ 8 ∷ 300 ∷ []) bytes
    × (5 ∷ 8 ∷ 300 ∷ [] ≡ described_all 0 edits (1 ∷ []))
replay-changes_example =
    replay-changes memory short edits first_array edited empty short-IsPlain refl
      (tt, (tt, (omega arith, (omega arith, (omega arith, (omega arith, (tt, tt))))))) edits-changes
      (omega arith) (omega arith)

replay-clear_example :
    (bytes : List ℕ) × Adds empty
      (net_delta_serialize memory short (clear memory short first_array) empty).0
      bytes
    × ((vec : List ℕ) (i : InputBitStream) (rest : List ℕ)
        → Rest i (bytes ++ rest)
        → replay short vec i ≡ none)
replay-clear_example = replay-clear memory short first_array empty refl (omega arith)
