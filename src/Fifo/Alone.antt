-- ===== src/Fifo/Alone.antt =====
-- A thread that has the queue to itself.
use archai_engine.Shared.{
  ℕ, ◌≡◌, ◌≢◌, ◌⊎◌, refl, true, false, Bool-cases, inl, inr, ◌==◌, arith, none, some,
}
use archai_engine.Fifo.{Fifo, push_load, push_write, pushed, popped, next, store, alone, push, pop}

module _ {A : Type 0} where
  -- The queue after a push that finds room, if nothing else happens.
  abbrev pub after_push : Fifo A → A → ℕ → Fifo A
  after_push q v update = record q {
    array = store q.array q.tail v;
    tail = next q.max_size q.tail;
    tail_update = update;
  }

  pub push-full :
      (q : Fifo A) (v : A) → next q.max_size q.tail ≡ q.head → push q v ≡ (q, pushed false)
  unfolding alone
  push-full q v full = let e : (next q.max_size q.tail == q.head) ≡ true = ground arith in rw e refl

  pub push-room :
      (q : Fifo A) (v : A)
      → next q.max_size q.tail ≢ q.head
      → q.tail_update ≡ q.tail
      → next q.max_size q.tail ≢ q.tail
      → push q v ≡ (after_push q v (next q.max_size q.tail), pushed true)
  unfolding alone
  push-room q v room same other =
      let e : (next q.max_size q.tail == q.head) ≡ false = ground arith in
      let mine : (q.tail == q.tail) ≡ true = ground arith in
      let up : (q.tail_update == q.tail) ≡ true = ground arith in
      let moved : (next q.max_size q.tail == q.tail) ≡ false = ground arith in
      rw (e, mine, up, moved) refl

  -- The place of a push that is not published is not the one that tail_update waits for.
  pub push-late :
      (q : Fifo A) (v : A)
      → next q.max_size q.tail ≢ q.head
      → q.tail_update ≢ q.tail
      → push q v ≡ (after_push q v q.tail_update, pushed true)
  unfolding alone
  push-late q v room other =
      let e : (next q.max_size q.tail == q.head) ≡ false = ground arith in
      let mine : (q.tail == q.tail) ≡ true = ground arith in
      let up : (q.tail_update == q.tail) ≡ false = ground arith in rw (e, mine, up) refl

  pub pop-none :
      (q : Fifo A) → (q.head ≡ q.tail) ⊎ (q.head ≡ q.tail_update) → pop q ≡ (q, popped none)
  unfolding alone
  pop-none q h = elim (Bool-cases (q.head == q.tail)) [
    | inl e ↦ rw e refl
    | inr e ↦ let f : (q.head == q.tail_update) ≡ true = ground arith in rw (e, f) refl
  ]

  pub pop-some :
      (q : Fifo A)
      → q.head ≢ q.tail
      → q.head ≢ q.tail_update
      → pop q ≡ (record q { head = next q.max_size q.head }, popped (some (q.array q.head)))
  unfolding alone
  pop-some q h k =
      let e : (q.head == q.tail) ≡ false = ground arith in
      let f : (q.head == q.tail_update) ≡ false = ground arith in
      let mine : (q.head == q.head) ≡ true = ground arith in rw (e, f, mine) refl

  -- The two parts of a push, before and after its write.
  pub push-claimed :
      (q : Fifo A) (v : A)
      → next q.max_size q.tail ≢ q.head
      → alone 3 q (push_load v) ≡ (record q { tail = next q.max_size q.tail }, push_write v q.tail)
  unfolding alone
  push-claimed q v room =
      let e : (next q.max_size q.tail == q.head) ≡ false = ground arith in
      let mine : (q.tail == q.tail) ≡ true = ground arith in rw (e, mine) refl

  pub push-finished :
      (q : Fifo A) (v : A) (t : ℕ)
      → q.tail_update ≡ t
      → next q.max_size t ≢ t
      → alone 3 q (push_write v t)
        ≡ (record q { array = store q.array t v; tail_update = next q.max_size t }, pushed true)
  unfolding alone
  push-finished q v t up other =
      let e : (q.tail_update == t) ≡ true = ground arith in
      let moved : (next q.max_size t == t) ≡ false = ground arith in rw (e, moved) refl
