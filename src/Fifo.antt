-- ===== src/Fifo.antt =====
-- util/fifo.h: the queue on a ring of `max_size` cells that threads share. A step is one atomic access or
-- one access of the array, and steps of threads may come in any order; the memory is taken to be
-- sequentially consistent.
pub mod Places
pub mod Alone
pub mod Lag
pub mod Queue
mod Tests
use archai_engine.Shared.{
  ℕ, zero, suc, ◌+◌, ◌%◌, Bool, true, false, Option, none, some, List, [], ◌∷◌, ◌==◌, if◌then◌else◌,
}

-- `array i` is `_data[i]`.
pub record Fifo (A : Type 0) : Type 0 where
  pub max_size : ℕ
  pub array : ℕ → A
  pub head : ℕ
  pub tail : ℕ
  pub tail_update : ℕ

-- FIFO(cap), on memory that holds anything.
abbrev pub init : {A : Type 0} → (ℕ → A) → ℕ → Fifo A
init memory cap = record { max_size = cap + 1; array = memory; head = 0; tail = 0; tail_update = 0 }

-- Where a thread stands, and its local variables.
pub data Thread (A : Type 0) : Type 0 where
  push_load : A → Thread A
  push_full : A → ℕ → Thread A
  push_claim : A → ℕ → Thread A
  push_write : A → ℕ → Thread A
  push_publish : A → ℕ → Thread A
  pushed : Bool → Thread A
  pop_load : Thread A
  pop_empty : ℕ → Thread A
  pop_ready : ℕ → Thread A
  pop_read : ℕ → Thread A
  pop_claim : ℕ → A → Thread A
  popped : Option A → Thread A

abbrev pub next : ℕ → ℕ → ℕ
next size t = (t + 1) % size

module _ {A : Type 0} where
  pub store : (ℕ → A) → ℕ → A → ℕ → A
  store array t v i = if t == i then v else array i

  -- The loop that publishes goes on where the exchange was done.
  pub step : Fifo A → Thread A → Fifo A × Thread A
  unfolding store
  step q (push_load v) = (q, push_full v q.tail)
  step q (push_full v t) =
      if next q.max_size t == q.head then (q, pushed false) else (q, push_claim v t)
  step q (push_claim v t) =
      if q.tail == t
      then (record q { tail = next q.max_size t }, push_write v t)
      else (q, push_load v)
  step q (push_write v t) = (record q { array = store q.array t v }, push_publish v t)
  step q (push_publish v t) =
      if q.tail_update == t
      then (record q { tail_update = next q.max_size t }, push_publish v t)
      else (q, pushed true)
  step q (pushed done) = (q, pushed done)
  step q pop_load = (q, pop_empty q.head)
  step q (pop_empty h) = if h == q.tail then (q, popped none) else (q, pop_ready h)
  step q (pop_ready h) = if h == q.tail_update then (q, popped none) else (q, pop_read h)
  step q (pop_read h) = (q, pop_claim h (q.array h))
  step q (pop_claim h v) =
      if q.head == h
      then (record q { head = next q.max_size h }, popped (some v))
      else (q, pop_load)
  step q (popped val) = (q, popped val)

  -- A thread that runs alone for `n` steps.
  pub alone : ℕ → Fifo A → Thread A → Fifo A × Thread A
  unfolding step
  alone zero q t = (q, t)
  alone (suc n) q t = let (q', t') = step q t in alone n q' t'

  -- A call with no other thread about takes six steps at most.
  abbrev pub push : Fifo A → A → Fifo A × Thread A
  push q v = alone 6 q (push_load v)

  abbrev pub pop : Fifo A → Fifo A × Thread A
  pop q = alone 6 q pop_load
