-- ===== src/SyncArray.antt =====
-- sync_array.h: an array that keeps a log of its changes, and the copy of it that reads the log. `none`
-- is an access out of range, a failed assert, or a StreamException.
use archai_engine.Shared.{
  ℕ, zero, suc, ◌+◌, ◌-◌, ◌%◌, ◌^◌, Bool, true, false, not, Option, none, some, List, [], ◌∷◌, ◌++◌,
  ◌==◌, ltb, leb, if◌then◌else◌, length, get_elem?, set, take, drop, replicate,
}
pub mod Changes
pub mod Logged
pub mod Described
pub mod Replay
pub mod Clear
pub mod Entries
mod Tests
use archai_engine.Shared.Options.{◌>>=◌}
use archai_engine.BitStream.{
  OutputBitStream, InputBitStream, empty, write, write_number, read_number, seekp,
}

-- How a stream takes and gives values of type T: `write(value)`, `net_delta_serialize(value)`, which may
-- change the value, and `read<T>()`. `fresh` is T().
pub record Serial (A : Type 0) : Type 0 where
  pub put : OutputBitStream → A → Option OutputBitStream
  pub put_delta : OutputBitStream → A → Option (OutputBitStream × A)
  pub get : InputBitStream → Option (A × InputBitStream)
  pub fresh : A

pub record SyncArray (A : Type 0) : Type 0 where
  pub vec : List A
  pub dirty_log : OutputBitStream

abbrev update_op : ℕ
update_op = 0

abbrev push_back_op : ℕ
push_back_op = 1

abbrev pop_back_op : ℕ
pop_back_op = 2

abbrev insert_op : ℕ
insert_op = 3

abbrev erase_op : ℕ
erase_op = 4

abbrev clear_op : ℕ
clear_op = 5

abbrev resize_op : ℕ
resize_op = 6

abbrev replace_op : ℕ
replace_op = 7

module _ {A : Type 0} where
  -- std::vector: insertion before an index, removal at one, of the last, and a new size.
  pub insert_at : List A → ℕ → A → Option (List A)
  insert_at vec i v = if leb i (length vec) then some (take i vec ++ (v ∷ drop i vec)) else none

  pub erase_at : List A → ℕ → Option (List A)
  erase_at vec i = if ltb i (length vec) then some (take i vec ++ drop (i + 1) vec) else none

  pub drop_last : List A → Option (List A)
  drop_last vec = if length vec == 0 then none else some (take (length vec - 1) vec)

  pub resize_to : A → List A → ℕ → List A
  resize_to fresh vec n = take n vec ++ replicate (n - length vec) fresh

  unfoldable pub store_at : List A → ℕ → A → Option (List A)
  store_at vec i v = if ltb i (length vec) then some (set vec i v) else none

module _ (memory : ℕ → ℕ) {A : Type 0} (s : Serial A) where
  abbrev put_op : SyncArray A → ℕ → OutputBitStream
  put_op a op = write_number memory 1 a.dirty_log op

  -- `(uint16_t)index`
  abbrev put_index : OutputBitStream → ℕ → OutputBitStream
  put_index o index = write_number memory 2 o (index % 2 ^ 16)

  pub clear : SyncArray A → SyncArray A
  clear a = record { vec = []; dirty_log = put_op a clear_op }

  pub insert : SyncArray A → ℕ → A → Option (SyncArray A)
  unfolding insert_at
  insert a index value = do
    log ← s.put (put_index (put_op a insert_op) index) value
    vec ← insert_at a.vec index value
    some (record { vec = vec; dirty_log = log })

  pub erase : SyncArray A → ℕ → Option (SyncArray A)
  unfolding erase_at
  erase a index = do
    vec ← erase_at a.vec index
    some (record { vec = vec; dirty_log = put_index (put_op a erase_op) index })

  -- push_back and emplace_back
  pub push_back : SyncArray A → A → Option (SyncArray A)
  push_back a value = do
    log ← s.put (put_op a push_back_op) value
    some (record { vec = a.vec ++ value ∷ []; dirty_log = log })

  pub pop_back : SyncArray A → Option (SyncArray A)
  unfolding drop_last
  pop_back a = do
    vec ← drop_last a.vec
    some (record { vec = vec; dirty_log = put_op a pop_back_op })

  pub resize : SyncArray A → ℕ → SyncArray A
  unfolding resize_to
  resize a count = record {
    vec = resize_to s.fresh a.vec count;
    dirty_log = put_index (put_op a resize_op) count;
  }

  -- `a[pos] = value`, through a reference: nothing is logged.
  unfoldable pub assign : SyncArray A → ℕ → A → Option (SyncArray A)
  unfolding store_at
  assign a index value = do vec ← store_at a.vec index value; some (record a { vec = vec })

  unfoldable pub mark_dirty : SyncArray A → ℕ → Option (SyncArray A)
  mark_dirty a index = do
    value ← get_elem? a.vec index
    (log, value') ← s.put_delta (put_index (put_op a update_op) index) value
    some (record { vec = set a.vec index value'; dirty_log = log })

  -- `net_delta_serialize(OutputBitStream&)`
  pub net_delta_serialize : SyncArray A → OutputBitStream → OutputBitStream × Bool
  net_delta_serialize a bs =
      let dirty_size = a.dirty_log.pos in
      let sized = write_number memory 4 bs (dirty_size % 2 ^ 32) in
      if dirty_size == 0
      then (sized, false)
      else (write memory sized (take dirty_size a.dirty_log.buffer), true)

  pub put_all : List A → OutputBitStream → Option OutputBitStream
  put_all [] o = some o
  put_all (v ∷ vec) o = do o' ← s.put o v; put_all vec o'

  -- `write(const std::vector<T>&)`
  pub net_serialize : SyncArray A → OutputBitStream → Option OutputBitStream
  unfolding put_all
  net_serialize a bs =
      let counted = put_all a.vec (write_number memory 2 bs (length a.vec)) in
      if ltb (length a.vec) 65536 then counted else none

  abbrev pub reset_dirty : SyncArray A → SyncArray A
  reset_dirty a = record a { dirty_log = seekp a.dirty_log 0 }

module _ {A : Type 0} (s : Serial A) where
  pub get_all : ℕ → InputBitStream → Option (List A × InputBitStream)
  get_all zero i = some ([], i)
  get_all (suc n) i = do (v, i') ← s.get i; (vec, i'') ← get_all n i'; some (v ∷ vec, i'')

  -- `read(std::vector<T>&)`
  pub get_vector : InputBitStream → Option (List A × InputBitStream)
  unfolding get_all
  get_vector i = do (n, i') ← read_number 2 i; get_all n i'

  -- One operation of the log.
  pub apply_one : ℕ → List A → InputBitStream → Option (List A × InputBitStream)
  unfolding insert_at erase_at drop_last resize_to store_at get_vector
  apply_one op vec i =
      if op == update_op
      then (do
        (index, i') ← read_number 2 i
        (v, i'') ← s.get i'
        vec' ← store_at vec index v
        some (vec', i''))
      else if op == push_back_op
      then (do (v, i') ← s.get i; some (vec ++ v ∷ [], i'))
      else if op == pop_back_op
      then (do vec' ← drop_last vec; some (vec', i))
      else if op == insert_op
      then (do
        (index, i') ← read_number 2 i
        (v, i'') ← s.get i'
        vec' ← insert_at vec index v
        some (vec', i''))
      else if op == erase_op
      then (do (index, i') ← read_number 2 i; vec' ← erase_at vec index; some (vec', i'))
      else if op == resize_op
      then (do (n, i') ← read_number 2 i; some (resize_to s.fresh vec n, i'))
      else if op == replace_op
      then get_vector i
      else none

  -- `while (bs.tellp() < end_pos)`
  pub replay_loop : ℕ → ℕ → List A → InputBitStream → Option (List A × InputBitStream)
  unfolding apply_one
  replay_loop zero end vec i = if ltb i.pos end then none else some (vec, i)
  replay_loop (suc fuel) end vec i =
      let more = (do
        (op, i') ← read_number 1 i
        (vec', i'') ← apply_one op vec i'
        replay_loop fuel end vec' i'') in
      if ltb i.pos end then more else some (vec, i)

  -- `net_delta_serialize(InputBitStream&)`. Each round reads a byte at least.
  pub replay : List A → InputBitStream → Option (List A × InputBitStream)
  unfolding replay_loop
  replay vec i = do
    (dirty_size, i') ← read_number 4 i
    if dirty_size == 0 then some (vec, i') else replay_loop dirty_size (i'.pos + dirty_size) vec i'
