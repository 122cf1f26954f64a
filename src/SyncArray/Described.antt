-- ===== src/SyncArray/Described.antt =====
-- What changes of an array mean, by recursion on the list alone, apart from std::vector and the log; and
-- that the methods do this to the vector.
use archai_engine.Shared.{
  ℕ, zero, suc, ◌+◌, ◌-◌, ◌≤◌, ◌≡◌, refl, sym, ap, ◌∙◌, some, List, [], ◌∷◌, ◌++◌, arith, length,
  get_elem?, set, get_elem?-set_self, set-set, take, drop, replicate, Bool-cases, inl, inr, ltb,
  leb, ◌==◌,
}
use archai_engine.Shared.Options.{◌>>=◌, >>=-eq-some}
use archai_engine.BitStream.{write_number}
use archai_engine.SyncArray.{
  Serial, SyncArray, insert_at, erase_at, drop_last, resize_to, store_at, insert, erase, push_back,
  pop_back, resize, assign, mark_dirty,
}
use archai_engine.SyncArray.Changes.{
  IsPlain, Change, pushes, pops, inserts, erases, resizes, updates, change,
}

module _ {A : Type 0} where
  pub put_in : ℕ → A → List A → List A
  put_in zero v l = v ∷ l
  put_in (suc i) v [] = v ∷ []
  put_in (suc i) v (a ∷ l) = a ∷ put_in i v l

  pub take_out : ℕ → List A → List A
  take_out i [] = []
  take_out zero (a ∷ l) = l
  take_out (suc i) (a ∷ l) = a ∷ take_out i l

  pub but_last : List A → List A
  but_last [] = []
  but_last (a ∷ []) = []
  but_last (a ∷ b ∷ l) = a ∷ but_last (b ∷ l)

  -- `n` values: those of the list, then `fresh`.
  pub sized : A → ℕ → List A → List A
  sized fresh zero l = []
  sized fresh (suc n) [] = fresh ∷ sized fresh n []
  sized fresh (suc n) (a ∷ l) = a ∷ sized fresh n l

  -- The list after a change, where the change is in range.
  pub described : A → Change A → List A → List A
  unfolding put_in take_out but_last sized
  described fresh (pushes v) l = l ++ v ∷ []
  described fresh pops l = but_last l
  described fresh (inserts i v) l = put_in i v l
  described fresh (erases i) l = take_out i l
  described fresh (resizes n) l = sized fresh n l
  described fresh (updates i v) l = set l i v

  unfoldable pub described_all : A → List (Change A) → List A → List A
  unfolding described
  described_all fresh [] l = l
  described_all fresh (c ∷ cs) l = described_all fresh cs (described fresh c l)

  insert_at-put_in :
      (l : List A) (i : ℕ) (v : A) → i ≤ length l → take i l ++ (v ∷ drop i l) ≡ put_in i v l
  unfolding put_in
  insert_at-put_in l zero v h = refl
  insert_at-put_in [] (suc i) v h = absurd (omega arith)
  insert_at-put_in (a ∷ l) (suc i) v h =
      ap (λ (m : List A). a ∷ m) (insert_at-put_in l i v (omega arith))

  erase_at-take_out : (l : List A) (i : ℕ) → take i l ++ drop (suc i) l ≡ take_out i l
  unfolding take_out
  erase_at-take_out [] zero = refl
  erase_at-take_out [] (suc i) = refl
  erase_at-take_out (a ∷ l) zero = refl
  erase_at-take_out (a ∷ l) (suc i) = ap (λ (m : List A). a ∷ m) (erase_at-take_out l i)

  drop_last-but_last : (l : List A) → take (length l - 1) l ≡ but_last l
  unfolding but_last
  drop_last-but_last [] = refl
  drop_last-but_last (a ∷ []) = refl
  drop_last-but_last (a ∷ b ∷ l) =
      let less : suc (suc (length l)) - 1 ≡ suc (suc (length l) - 1) = omega arith in
      rw less (ap (λ (m : List A). a ∷ m) (drop_last-but_last (b ∷ l)))

  replicate-sized : (n : ℕ) (fresh : A) → replicate n fresh ≡ sized fresh n []
  unfolding sized
  replicate-sized zero fresh = refl
  replicate-sized (suc n) fresh = ap (λ (m : List A). fresh ∷ m) (replicate-sized n fresh)

  resize_to-sized : (l : List A) (n : ℕ) (fresh : A) → resize_to fresh l n ≡ sized fresh n l
  unfolding resize_to sized
  resize_to-sized l zero fresh = let none_left : 0 - length l ≡ 0 = omega arith in rw none_left refl
  resize_to-sized [] (suc n) fresh =
      let all : suc n - 0 ≡ suc n = omega arith in rw all (replicate-sized (suc n) fresh)
  resize_to-sized (a ∷ l) (suc n) fresh =
      let less : suc n - suc (length l) ≡ n - length l = omega arith in
      rw less (ap (λ (m : List A). a ∷ m) (resize_to-sized l n fresh))

module _ (memory : ℕ → ℕ) {A : Type 0} (s : Serial A) where
  push_back-described :
      (a a' : SyncArray A) (v : A) → push_back memory s a v ≡ some a' → a'.vec ≡ a.vec ++ v ∷ []
  unfolding push_back
  push_back-described a a' v h =
      let (log, put, e) = >>=-eq-some (s.put (write_number memory 1 a.dirty_log 1) v) _ h in cc

  insert-described :
      (a a' : SyncArray A) (n : ℕ) (v : A)
      → insert memory s a n v ≡ some a'
      → a'.vec ≡ put_in n v a.vec
  unfolding insert insert_at
  insert-described a a' n v h =
      let (log, put, h') = >>=-eq-some (s.put _ v) _ h in
      let (vec, done, e) = >>=-eq-some (insert_at a.vec n v) _ h' in
      elim (Bool-cases (leb n (length a.vec))) [
        | inl fits ↦
            let done' : some (take n a.vec ++ (v ∷ drop n a.vec)) ≡ some vec =
              rw (insert_at, fits) at done in
            let same = insert_at-put_in a.vec n v (ground arith) in cc
        | inr out ↦ let done' = rw (insert_at, out) at done in cc
      ]

  erase-described :
      (a a' : SyncArray A) (n : ℕ) → erase memory s a n ≡ some a' → a'.vec ≡ take_out n a.vec
  unfolding erase erase_at
  erase-described a a' n h =
      let (vec, done, e) = >>=-eq-some (erase_at a.vec n) _ h in
      elim (Bool-cases (ltb n (length a.vec))) [
        | inl fits ↦
            let done' : some (take n a.vec ++ drop (n + 1) a.vec) ≡ some vec =
              rw (erase_at, fits) at done in
            let one : n + 1 ≡ suc n = omega arith in
            let same : take n a.vec ++ drop (n + 1) a.vec ≡ take_out n a.vec =
              rw one (erase_at-take_out a.vec n) in
            cc
        | inr out ↦ let done' = rw (erase_at, out) at done in cc
      ]

  pop_back-described :
      (a a' : SyncArray A) → pop_back memory s a ≡ some a' → a'.vec ≡ but_last a.vec
  unfolding pop_back drop_last
  pop_back-described a a' h =
      let (vec, done, e) = >>=-eq-some (drop_last a.vec) _ h in
      elim (Bool-cases (length a.vec == 0)) [
        | inl empty ↦ let done' = rw (drop_last, empty) at done in cc
        | inr filled ↦
            let done' : some (take (length a.vec - 1) a.vec) ≡ some vec =
              rw (drop_last, filled) at done in
            let same = drop_last-but_last a.vec in cc
      ]

  update-described :
      IsPlain s
      → (a a' : SyncArray A) (n : ℕ) (v : A)
      → (assign memory s a n v >>= λ b. mark_dirty memory s b n) ≡ some a'
      → a'.vec ≡ set a.vec n v
  unfolding assign mark_dirty
  update-described plain a a' n v h = elim (Bool-cases (ltb n (length a.vec))) [
    | inr out ↦ let h' = rw (assign, store_at, out) at h in cc
    | inl lt ↦
        let h₁ : mark_dirty memory s (record a { vec = set a.vec n v }) n ≡ some a' =
          rw (assign, store_at, lt) at h in
        let (value, got, h₂) = >>=-eq-some (get_elem? (set a.vec n v) n) _ h₁ in
        let ((log, value'), put, e) = >>=-eq-some (s.put_delta _ value) _ h₂ in
        let (_, kept) = plain.delta _ log value value' put in
        let same : value ≡ v = cc (get_elem?-set_self a.vec n v (ground arith)) in
        let twice : set (set a.vec n v) n value' ≡ set a.vec n v =
          set-set a.vec n v value' ∙ ap (set a.vec n) (kept ∙ same) in
        cc
  ]

  resize_vec : (a : SyncArray A) (n : ℕ) → (resize memory s a n).vec ≡ sized s.fresh n a.vec
  unfolding resize
  resize_vec a n = resize_to-sized a.vec n s.fresh

  -- A change that is made does to the vector what it means.
  pub change-described :
      IsPlain s
      → (c : Change A) (a a' : SyncArray A) → change memory s c a ≡ some a'
      → a'.vec ≡ described s.fresh c a.vec
  unfolding change described
  change-described plain (pushes v) a a' h = push_back-described a a' v h
  change-described plain pops a a' h = pop_back-described a a' h
  change-described plain (inserts n v) a a' h = insert-described a a' n v h
  change-described plain (erases n) a a' h = erase-described a a' n h
  change-described plain (resizes n) a a' h =
      let same : resize memory s a n ≡ a' = cc in
      ap (λ (x : SyncArray A). x.vec) (sym same) ∙ resize_vec a n
  change-described plain (updates n v) a a' h = update-described plain a a' n v h
