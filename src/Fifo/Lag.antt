-- ===== src/Fifo/Lag.antt =====
-- Two pushes that overlap, and what becomes of the queue.
use archai_engine.Shared.{
  ℕ, zero, suc, ◌+◌, ◌≤◌, ◌<◌, ◌≡◌, ◌≢◌, refl, sym, ap, ◌∙◌, true, inr, arith, some, List, [], ◌∷◌,
  length,
}
use native.Mathlib.Decide.{ℕ_discrete}
use archai_engine.Fifo.{Fifo, Thread, push_load, pushed, popped, next, alone, push, pop}
use archai_engine.Fifo.Places.{place, place_zero, next-place, next_lt, place-next, place-ne}
use archai_engine.Fifo.Alone.{
  after_push, push-full, push-late, push-claimed, push-finished, pop-none, pop-some,
}
use archai_engine.Fifo.Queue.{Call, pushes, pops, calls, Holds}

module _ {A : Type 0} where
  -- One thread claims a cell; another pushes before it writes; then the first goes on to its end.
  pub overlap : Fifo A → A → A → Fifo A × Thread A × Thread A
  overlap q v w =
      let (claimed, first) = alone 3 q (push_load v) in
      let (between, second) = push claimed w in
      let (done, first') = alone 3 between first in (done, first', second)

  -- `tail_update` is `k` places from the head, behind the tail.
  record Lags (q : Fifo A) (k n : ℕ) : Type 0 where
    inside : q.head < q.max_size
    room : n < q.max_size
    behind : k < n
    published : q.tail_update ≡ place q.max_size q.head k
    ends : q.tail ≡ place q.max_size q.head n

  abbrev one_if : Thread A → ℕ
  one_if (popped (some v)) = 1
  one_if other = 0

  -- How many pops gave a value.
  pub values : List (Thread A) → ℕ
  values [] = 0
  values (t ∷ ts) = one_if t + values ts

  push-Lags :
      (q : Fifo A) (k n : ℕ) (v : A)
      → Lags q k n
      → (m : ℕ) × Lags (push q v).0 k m × (one_if (push q v).1 ≡ 0)
  push-Lags q k n v lags =
      let moved : next q.max_size q.tail ≡ place q.max_size q.head (n + 1) =
        ap (next q.max_size) lags.ends ∙ next-place q.max_size q.head n lags.inside lags.room in
      elim (ℕ_discrete (next q.max_size q.tail) q.head) [
        | yes full ↦ rw (push-full q v full) (n, lags, refl)
        | no space ↦
            let late : q.tail_update ≢ q.tail = λ e.
              place-ne q.max_size q.head k n lags.inside lags.behind lags.room
                (sym lags.published ∙ e ∙ lags.ends) in
            let lt = lags.inside in
            let fits = lags.room in
            let behind = lags.behind in
            let short : n + 1 < q.max_size = ground arith in
            rw (push-late q v space late) (
              n + 1,
              record {
                inside = lags.inside;
                room = short;
                behind = omega arith;
                published = lags.published;
                ends = moved;
              },
              refl,
            )
      ]

  pop-Lags :
      (q : Fifo A) (k n : ℕ) → Lags q (suc k) (suc n) → Lags (pop q).0 k n × (one_if (pop q).1 ≡ 1)
  pop-Lags q k n lags =
      let first = place_zero q.max_size q.head lags.inside in
      let room = lags.room in
      let behind = lags.behind in
      let filled : q.head ≢ q.tail = λ e.
        place-ne q.max_size q.head 0 (suc n) lags.inside (omega arith) lags.room
          (first ∙ e ∙ lags.ends) in
      let ready : q.head ≢ q.tail_update = λ e.
        place-ne q.max_size q.head 0 (suc k) lags.inside (omega arith) (omega arith)
          (first ∙ e ∙ lags.published) in
      rw (pop-some q filled ready) (
        record {
          inside = next_lt q.max_size q.head lags.inside;
          room = omega arith;
          behind = omega arith;
          published =
              lags.published
              ∙ ap (place q.max_size q.head) (omega arith)
              ∙ sym (place-next q.max_size q.head k lags.inside (omega arith));
          ends =
              lags.ends
              ∙ ap (place q.max_size q.head) (omega arith)
              ∙ sym (place-next q.max_size q.head n lags.inside (omega arith));
        },
        refl,
      )

  calls-Lags : (q : Fifo A) (k n : ℕ) (cs : List (Call A)) → Lags q k n → values (calls q cs) ≤ k
  unfolding values calls
  calls-Lags q k n [] lags = omega arith
  calls-Lags q k n (pushes v ∷ cs) lags =
      let (m, lags', none_out) = push-Lags q k n v lags in
      omega (arith, calls-Lags (push q v).0 k m cs lags')
  calls-Lags q zero n (pops ∷ cs) lags =
      let stuck : q.head ≡ q.tail_update =
        sym (place_zero q.max_size q.head lags.inside) ∙ sym lags.published in
      rw (pop-none q (inr stuck)) (omega (arith, calls-Lags q zero n cs lags))
  calls-Lags q (suc k) zero (pops ∷ cs) lags = let behind = lags.behind in absurd (omega arith)
  calls-Lags q (suc k) (suc n) (pops ∷ cs) lags =
      let (lags', one_out) = pop-Lags q k n lags in omega (arith, calls-Lags (pop q).0 k n cs lags')

  overlap-Lags :
      (limit : ℕ) (q : Fifo A) (l : List A) (v w : A)
      → Holds limit q l
      → length l + 2 < q.max_size
      → Lags (overlap q v w).0 (length l + 1) (length l + 2)
        × ((overlap q v w).1 ≡ pushed true)
        × ((overlap q v w).2 ≡ pushed true)
  unfolding overlap
  overlap-Lags limit q l v w holds space =
      let size = q.max_size in
      let h = q.head in
      let n = length l in
      let inside = holds.inside in
      let first = place_zero size h inside in
      let ends = holds.ends in
      let one : next size q.tail ≡ place size h (n + 1) =
        ap (next size) ends ∙ next-place size h n inside (omega arith) in
      let two : next size (next size q.tail) ≡ place size h (n + 2) =
        ap (next size) one
        ∙ next-place size h (n + 1) inside (omega arith)
        ∙ ap (place size h) (omega arith) in
      let room : next size q.tail ≢ h =
        λ e. place-ne size h 0 (n + 1) inside (omega arith) (omega arith) (first ∙ sym e ∙ one) in
      let room' : next size (next size q.tail) ≢ h =
        λ e. place-ne size h 0 (n + 2) inside (omega arith) (omega arith) (first ∙ sym e ∙ two) in
      let other : next size q.tail ≢ q.tail = λ e.
        place-ne size h n (n + 1) inside (omega arith) (omega arith) (sym ends ∙ sym e ∙ one) in
      let claimed : Fifo A = record q { tail = next size q.tail } in
      let late : q.tail_update ≢ next size q.tail = λ e. other (sym e ∙ holds.published) in
      rw
        (
          push-claimed q v room,
          push-late claimed w room' late,
          push-finished (after_push claimed w q.tail_update) v q.tail holds.published other,
        )
        (
          record {
            inside = inside;
            room = space;
            behind = omega arith;
            published = one;
            ends = two;
          },
          refl,
          refl,
        )

  -- A FIFO holds the values of `l`, with no call under way, and has room for two more. One thread pushes; after it has claimed its
  -- cell and before it writes it, another pushes too. Both are told that they succeeded. From then on,
  -- whatever calls follow, each run alone, and however many of them push, at most one pop more gives a value than
  -- `l` has values.
  pub overlap-values :
      (limit : ℕ) (q : Fifo A) (l : List A) (v w : A) (cs : List (Call A))
      → Holds limit q l
      → length l + 2 < q.max_size
      → ((overlap q v w).1 ≡ pushed true)
        × ((overlap q v w).2 ≡ pushed true)
        × (values (calls (overlap q v w).0 cs) ≤ length l + 1)
  overlap-values limit q l v w cs holds space =
      let (lags, one, two) = overlap-Lags limit q l v w holds space in
      (one, two, calls-Lags (overlap q v w).0 (length l + 1) (length l + 2) cs lags)
