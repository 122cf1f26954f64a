-- ===== src/Fifo/Queue.antt =====
-- The ring as a queue, for calls that do not overlap.
use archai_engine.Shared.{
  subst, ℕ, zero, suc, ◌+◌, ◌<◌, ◌≡◌, ◌≢◌, ◌⊎◌, refl, sym, ap, ◌∙◌, true, false, Bool-cases, inl,
  inr, ◌==◌, if◌then◌else◌, arith, none, some, List, [], ◌∷◌, ◌++◌, length, length-append,
  get_elem?,
}
use archai_engine.Fifo.{Fifo, Thread, pushed, popped, init, next, store, push, pop}
use archai_engine.Fifo.Places.{place, place_zero, next-place, next_lt, place-next, place-ne}
use archai_engine.Fifo.Alone.{push-full, push-room, pop-none, pop-some}

pub data Call (A : Type 0) : Type 0 where
  pushes : A → Call A
  pops : Call A

module _ {A : Type 0} where
  abbrev pub call : Fifo A → Call A → Fifo A × Thread A
  call q (pushes v) = push q v
  call q pops = pop q

  -- What the calls return.
  unfoldable pub calls : Fifo A → List (Call A) → List (Thread A)
  calls q [] = []
  calls q (c ∷ cs) = (call q c).1 ∷ calls (call q c).0 cs

  -- A queue that holds `limit` values at most.
  abbrev pub bounded : ℕ → List A → Call A → List A × Thread A
  bounded limit l (pushes v) =
      if length l == limit then (l, pushed false) else (l ++ v ∷ [], pushed true)
  bounded limit [] pops = ([], popped none)
  bounded limit (v ∷ l) pops = (l, popped (some v))

  pub bounded_all : ℕ → List A → List (Call A) → List (Thread A)
  bounded_all limit l [] = []
  bounded_all limit l (c ∷ cs) = (bounded limit l c).1 ∷ bounded_all limit (bounded limit l c).0 cs

  abbrev Cells : (ℕ → A) → ℕ → ℕ → List A → Type 0
  Cells array size h l = (i : ℕ) (v : A) → get_elem? l i ≡ some v → array (place size h i) ≡ v

  pub record Holds (cap : ℕ) (q : Fifo A) (l : List A) : Type 0 where
    pub size : q.max_size ≡ cap + 1
    pub inside : q.head < q.max_size
    pub room : length l < q.max_size
    pub ends : q.tail ≡ place q.max_size q.head (length l)
    pub published : q.tail_update ≡ q.tail

  get_elem?-append_one :
      (l : List A) (v w : A) (i : ℕ)
      → get_elem? (l ++ v ∷ []) i ≡ some w
      → ((i < length l) × (get_elem? l i ≡ some w)) ⊎ ((i ≡ length l) × (v ≡ w))
  get_elem?-append_one [] v w zero h = inr (refl, cc)
  get_elem?-append_one [] v w (suc i) h = cc
  get_elem?-append_one (x ∷ l) v w zero h = inl (omega arith, h)
  get_elem?-append_one (x ∷ l) v w (suc i) h = elim (get_elem?-append_one l v w i h) [
    | inl (lt, found) ↦ inl (omega arith, found)
    | inr (at, same) ↦ inr (omega arith, same)
  ]

  get_elem?-lt : (l : List A) (i : ℕ) (v : A) → get_elem? l i ≡ some v → i < length l
  get_elem?-lt [] i v h = cc
  get_elem?-lt (x ∷ l) zero v h = omega arith
  get_elem?-lt (x ∷ l) (suc i) v h = omega (arith, get_elem?-lt l i v h)

  store_same : (array : ℕ → A) (t : ℕ) (v : A) → store array t v t ≡ v
  unfolding store
  store_same array t v = ground arith

  store_other : (array : ℕ → A) (t i : ℕ) (v : A) → t ≢ i → store array t v i ≡ array i
  unfolding store
  store_other array t i v h = ground arith

  store-Cells :
      (array : ℕ → A) (size h : ℕ) (l : List A) (v : A)
      → h < size
      → length l < size
      → Cells array size h l
      → Cells (store array (place size h (length l)) v) size h (l ++ v ∷ [])
  unfolding store
  store-Cells array size h l v lt room cells i w found = elim (get_elem?-append_one l v w i found) [
    | inl (before, old) ↦
        let other = place-ne size h i (length l) lt before room in
        store_other array (place size h (length l)) (place size h i) v (λ e. other (sym e))
        ∙ cells i w old
    | inr (at, same) ↦
        ap (λ k. store array (place size h (length l)) v (place size h k)) at
        ∙ store_same array (place size h (length l)) v
        ∙ same
  ]

  next-Cells :
      (array : ℕ → A) (size h : ℕ) (v : A) (l : List A)
      → h < size
      → length l + 1 < size
      → Cells array size h (v ∷ l)
      → Cells array size (next size h) l
  next-Cells array size h v l lt room cells i w found =
      let short = get_elem?-lt l i w found in
      ap array (place-next size h i lt (omega arith) ∙ ap (place size h) (omega arith))
      ∙ cells (suc i) w found

  -- The ring holds the values, in order from the head.
  abbrev Stands : ℕ → Fifo A → List A → Type 0
  Stands cap q l = Holds cap q l × Cells q.array q.max_size q.head l

  abbrev Refines : ℕ → Fifo A × Thread A → List A × Thread A → Type 0
  Refines cap (q, t) (l, t') = Stands cap q l × (t ≡ t')

  push-Refines :
      (limit : ℕ) (q : Fifo A) (l : List A) (v : A)
      → Stands limit q l
      → Refines limit (push q v) (bounded limit l (pushes v))
  push-Refines limit q l v (holds, cells) =
      let moved : next q.max_size q.tail ≡ place q.max_size q.head (length l + 1) =
        ap (next q.max_size) holds.ends
        ∙ next-place q.max_size q.head (length l) holds.inside holds.room in
      elim (Bool-cases (length l == limit)) [
        | inl full ↦
            let all : next q.max_size q.tail ≡ q.head = moved ∙ ground (arith, holds) in
            rw (full, push-full q v all) ((holds, cells), refl)
        | inr some_room ↦
            let size = holds.size in
            let lt = holds.room in
            let short : length l + 1 < q.max_size = ground arith in
            let longer : length (l ++ v ∷ []) ≡ length l + 1 = length-append l (v ∷ []) in
            let first = place_zero q.max_size q.head holds.inside in
            let room : next q.max_size q.tail ≢ q.head = λ e.
              place-ne q.max_size q.head 0 (length l + 1) holds.inside (omega arith) short
                (first ∙ sym e ∙ moved) in
            let other : next q.max_size q.tail ≢ q.tail = λ e.
              place-ne q.max_size q.head (length l) (length l + 1) holds.inside (omega arith) short
                (sym holds.ends ∙ sym e ∙ moved) in
            rw (some_room, push-room q v room holds.published other)
              (
                (
                  record {
                    size = size;
                    inside = holds.inside;
                    room = omega arith;
                    ends = moved ∙ ap (place q.max_size q.head) (sym longer);
                    published = refl;
                  },
                  subst (λ t. Cells (store q.array t v) q.max_size q.head (l ++ v ∷ []))
                      (sym holds.ends)
                      (store-Cells q.array q.max_size q.head l v holds.inside holds.room cells),
                ),
                refl,
              )
      ]

  pop-Refines :
      (limit : ℕ) (q : Fifo A) (l : List A)
      → Stands limit q l
      → Refines limit (pop q) (bounded limit l pops)
  pop-Refines limit q [] (holds, cells) =
      let empty : q.head ≡ q.tail =
        sym (place_zero q.max_size q.head holds.inside) ∙ sym holds.ends in
      rw (pop-none q (inl empty)) ((holds, cells), refl)
  pop-Refines limit q (v ∷ l) (holds, cells) =
      let lt = holds.room in
      let first = place_zero q.max_size q.head holds.inside in
      let filled : q.head ≢ q.tail = λ e.
        place-ne q.max_size q.head 0 (length (v ∷ l)) holds.inside (omega arith) holds.room
          (first ∙ e ∙ holds.ends) in
      let read : q.array q.head ≡ v = ap q.array (sym first) ∙ cells 0 v refl in
      rw (pop-some q filled (λ e. filled (e ∙ holds.published))) (
        (
          record {
            size = holds.size;
            inside = next_lt q.max_size q.head holds.inside;
            room = omega arith;
            ends =
                holds.ends
                ∙ ap (place q.max_size q.head) (omega arith)
                ∙ sym (place-next q.max_size q.head (length l) holds.inside (omega arith));
            published = holds.published;
          },
          next-Cells q.array q.max_size q.head v l holds.inside (omega arith) cells,
        ),
        ap (λ (w : A). popped (some w)) read,
      )

  calls-Refines :
      (limit : ℕ) (q : Fifo A) (l : List A) (cs : List (Call A))
      → Stands limit q l
      → calls q cs ≡ bounded_all limit l cs
  unfolding calls bounded_all
  calls-Refines limit q l [] h = refl
  calls-Refines limit q l (pushes v ∷ cs) h =
      let (stands, same) = push-Refines limit q l v h in
      cc (same, calls-Refines limit (push q v).0 (bounded limit l (pushes v)).0 cs stands)
  calls-Refines limit q l (pops ∷ cs) h =
      let (stands, same) = pop-Refines limit q l h in
      cc (same, calls-Refines limit (pop q).0 (bounded limit l pops).0 cs stands)

  -- While calls do not overlap, a FIFO on any memory returns what a queue of at most `limit` values returns:
  -- each call comes to its end in six steps, values come out in the order in which they went in, a push fails just when the
  -- queue is full and a pop just when it is empty.
  pub calls-bounded_all :
      (memory : ℕ → A) (limit : ℕ) (cs : List (Call A))
      → calls (init memory limit) cs ≡ bounded_all limit [] cs
  calls-bounded_all memory limit cs = calls-Refines limit (init memory limit) [] cs (
    record {
      size = refl;
      inside = omega arith;
      room = omega arith;
      ends = sym (place_zero (limit + 1) 0 (omega arith));
      published = refl;
    },
    (λ i v h. cc),
  )
