-- ===== src/SyncArray/Logged.antt =====
-- Each operation of an array logs a change that a copy makes too.
use archai_engine.Shared.{
  ℕ, ◌%◌, ◌^◌, ◌<◌, ◌≡◌, refl, ap, ◌∙◌, some, List, [], ◌∷◌, ◌++◌, arith, length, get_elem?, set,
  get_elem?-set_self, set-set, Bool-cases, inl, inr, ltb,
}
use mathlib.Core.Path.{subst}
use archai_engine.Shared.Options.{◌>>=◌, >>=-eq-some}
use archai_engine.BitStream.{OutputBitStream, write_number}
use archai_engine.BitStream.Growth.{Ok}
use archai_engine.BitStream.Numbers.{Reads-map, Reads-done}
use archai_engine.SyncArray.{
  Serial, SyncArray, insert_at, erase_at, drop_last, resize_to, store_at, insert, erase, push_back,
  pop_back, resize, assign, mark_dirty, apply_one,
}
use archai_engine.SyncArray.Changes.{
  IsPlain, Change, pushes, pops, inserts, erases, resizes, updates, Fits, change, Logs, Logs-op,
  Logs-indexed, op_Ok, index_Ok, nothing,
}

module _ (memory : ℕ → ℕ) {A : Type 0} (s : Serial A) where
  abbrev Took : SyncArray A → SyncArray A → Type 0
  Took a a' = Logs memory s a.dirty_log a'.dirty_log a.vec a'.vec

  module _ (plain : IsPlain s) where
    push_back-Logs :
        (a a' : SyncArray A) (v : A) → Ok a.dirty_log → push_back memory s a v ≡ some a' → Took a a'
    unfolding push_back apply_one
    push_back-Logs a a' v ok h =
        let (log, put, e) = >>=-eq-some (s.put (write_number memory 1 a.dirty_log 1) v) _ h in
        let (bytes, adds, reads) =
          plain.back (write_number memory 1 a.dirty_log 1) log v (op_Ok memory s 1 a.dirty_log ok)
            put in
        let same : record { vec = a.vec ++ v ∷ []; dirty_log = log } ≡ a' = cc in
        subst (Took a) same (
          Logs-op memory s 1 a.dirty_log log a.vec (a.vec ++ v ∷ []) bytes (omega arith) ok adds
            (Reads-map s.get (λ x i. some (a.vec ++ x ∷ [], i)) _ bytes reads (λ i. refl)))

    insert-Logs :
        (a a' : SyncArray A) (n : ℕ) (v : A)
        → Ok a.dirty_log
        → n < 65536
        → insert memory s a n v ≡ some a'
        → Took a a'
    unfolding insert apply_one
    insert-Logs a a' n v ok fits h =
        let o = write_number memory 2 (write_number memory 1 a.dirty_log 3) (n % 2 ^ 16) in
        let (log, put, h') = >>=-eq-some (s.put o v) _ h in
        let (vec, done, e) = >>=-eq-some (insert_at a.vec n v) _ h' in
        let (bytes, adds, reads) =
          plain.back o log v (index_Ok memory s 3 (n % 2 ^ 16) a.dirty_log ok) put in
        let same : record { vec = vec; dirty_log = log } ≡ a' = cc in
        subst (Took a) same (
          Logs-indexed memory s 3 n a.dirty_log log a.vec vec
            (λ x i. s.get i >>= λ (y, i'). insert_at a.vec x y >>= λ vec'. some (vec', i')) bytes
            (omega arith) fits (λ i. refl) ok adds
            (Reads-map s.get (λ y i'. insert_at a.vec n y >>= λ vec'. some (vec', i')) vec bytes
              reads (λ i. rw done refl)))

    mark_dirty-Logs :
        (o : OutputBitStream) (vec : List A) (a' : SyncArray A) (n : ℕ) (v : A)
        → Ok o
        → n < 65536
        → n < length vec
        → mark_dirty memory s (record { vec = set vec n v; dirty_log = o }) n ≡ some a'
        → Logs memory s o a'.dirty_log vec a'.vec
    unfolding mark_dirty apply_one
    mark_dirty-Logs o vec a' n v ok fits lt h =
        let o₂ = write_number memory 2 (write_number memory 1 o 0) (n % 2 ^ 16) in
        let (value, got, h') = >>=-eq-some (get_elem? (set vec n v) n) _ h in
        let ((log, value'), put, e) = >>=-eq-some (s.put_delta o₂ value) _ h' in
        let (put', kept) = plain.delta o₂ log value value' put in
        let same : value ≡ v = cc (get_elem?-set_self vec n v lt) in
        let (bytes, adds, reads) =
          plain.back o₂ log v (index_Ok memory s 0 (n % 2 ^ 16) o ok) (rw same at put') in
        let twice : set (set vec n v) n value' ≡ set vec n v =
          set-set vec n v value' ∙ ap (set vec n) (kept ∙ same) in
        let whole : record { vec = set (set vec n v) n value'; dirty_log = log } ≡ a' = cc in
        let stored : store_at vec n v ≡ some (set vec n v) = ground arith in
        subst (λ (x : SyncArray A). Logs memory s o x.dirty_log vec x.vec) whole
          (rw twice (
            Logs-indexed memory s 0 n o log vec (set vec n v)
              (λ x i. s.get i >>= λ (y, i'). store_at vec x y >>= λ vec'. some (vec', i')) bytes
              (omega arith) fits (λ i. refl) ok adds
              (Reads-map s.get (λ y i'. store_at vec n y >>= λ vec'. some (vec', i')) (set vec n v)
                bytes reads (λ i. rw stored refl))))

    update-Logs :
        (a a' : SyncArray A) (n : ℕ) (v : A)
        → Ok a.dirty_log
        → n < 65536
        → (assign memory s a n v >>= λ b. mark_dirty memory s b n) ≡ some a'
        → Took a a'
    unfolding assign
    update-Logs a a' n v ok fits h = elim (Bool-cases (ltb n (length a.vec))) [
      | inl lt ↦
          mark_dirty-Logs a.dirty_log a.vec a' n v ok fits (ground arith)
            (rw (assign, store_at, lt) at h)
      | inr out ↦ let h' = rw (assign, store_at, out) at h in cc
    ]

  pop_back-Logs : (a a' : SyncArray A) → Ok a.dirty_log → pop_back memory s a ≡ some a' → Took a a'
  unfolding pop_back apply_one
  pop_back-Logs a a' ok h =
      let (vec, done, e) = >>=-eq-some (drop_last a.vec) _ h in
      let o = write_number memory 1 a.dirty_log 2 in
      let same : record { vec = vec; dirty_log = o } ≡ a' = cc in
      subst (Took a) same (
        Logs-op memory s 2 a.dirty_log o a.vec vec [] (omega arith) ok
          (nothing memory s o (op_Ok memory s 2 a.dirty_log ok))
          (Reads-done vec (λ i. rw done refl)))

  erase-Logs :
      (a a' : SyncArray A) (n : ℕ)
      → Ok a.dirty_log
      → n < 65536
      → erase memory s a n ≡ some a'
      → Took a a'
  unfolding erase apply_one
  erase-Logs a a' n ok fits h =
      let (vec, done, e) = >>=-eq-some (erase_at a.vec n) _ h in
      let o = write_number memory 2 (write_number memory 1 a.dirty_log 4) (n % 2 ^ 16) in
      let same : record { vec = vec; dirty_log = o } ≡ a' = cc in
      subst (Took a) same (
        Logs-indexed memory s 4 n a.dirty_log o a.vec vec
          (λ x i. erase_at a.vec x >>= λ vec'. some (vec', i)) [] (omega arith) fits (λ i. refl) ok
          (nothing memory s o (index_Ok memory s 4 (n % 2 ^ 16) a.dirty_log ok))
          (Reads-done vec (λ i. rw done refl)))

  resize-Logs :
      (a : SyncArray A) (n : ℕ) → Ok a.dirty_log → n < 65536 → Took a (resize memory s a n)
  unfolding resize apply_one
  resize-Logs a n ok fits =
      let o = write_number memory 2 (write_number memory 1 a.dirty_log 6) (n % 2 ^ 16) in
      Logs-indexed memory s 6 n a.dirty_log o a.vec (resize_to s.fresh a.vec n)
        (λ x i. some (resize_to s.fresh a.vec x, i)) [] (omega arith) fits (λ i. refl) ok
        (nothing memory s o (index_Ok memory s 6 (n % 2 ^ 16) a.dirty_log ok))
        (Reads-done _ (λ i. refl))

  -- Each change that is made and whose index fits.
  pub change-Logs :
      IsPlain s
      → (c : Change A) (a a' : SyncArray A) → Ok a.dirty_log
      → Fits c
      → change memory s c a ≡ some a'
      → Took a a'
  unfolding change
  change-Logs plain (pushes v) a a' ok fits h = push_back-Logs plain a a' v ok h
  change-Logs plain pops a a' ok fits h = pop_back-Logs a a' ok h
  change-Logs plain (inserts n v) a a' ok fits h = insert-Logs plain a a' n v ok fits h
  change-Logs plain (erases n) a a' ok fits h = erase-Logs a a' n ok fits h
  change-Logs plain (resizes n) a a' ok fits h =
      let same : resize memory s a n ≡ a' = cc in subst (Took a) same (resize-Logs a n ok fits)
  change-Logs plain (updates n v) a a' ok fits h = update-Logs plain a a' n v ok fits h
