-- ===== src/SyncArray/Entries.antt =====
-- One entry of a SyncArray: what an assignment and a mark leave in the array.
use archai_engine.Shared.{
  ℕ, ◌<◌, ◌≡◌, ltb, some, arith, get_elem?, set, length, Bool-cases, inl, inr,
}
use archai_engine.Shared.Options.{>>=-eq-some}
use archai_engine.BitStream.{OutputBitStream}
use archai_engine.SyncArray.{
  Serial, SyncArray, assign, mark_dirty, store_at, put_index, put_op, update_op,
}

module _ (memory : ℕ → ℕ) {A : Type 0} (s : Serial A) where
  pub assign-stores :
      (a b : SyncArray A) (i : ℕ) (v : A)
      → assign memory s a i v ≡ some b
      → (b.vec ≡ set a.vec i v) × (i < length a.vec)
  unfolding assign store_at
  assign-stores a b i v h = elim (Bool-cases (ltb i (length a.vec))) [
    | inl e ↦ let h' = rw e at h in ground arith
    | inr e ↦ let h' = rw e at h in cc
  ]

  pub mark_dirty-stores :
      (a b : SyncArray A) (i : ℕ)
      → mark_dirty memory s a i ≡ some b
      → (v v' : A) × (log : OutputBitStream) × (get_elem? a.vec i ≡ some v)
        × (s.put_delta (put_index memory s (put_op memory s a update_op) i) v ≡ some (log, v'))
        × (b.vec ≡ set a.vec i v')
  unfolding mark_dirty
  mark_dirty-stores a b i h =
      let (v, found, logged) = >>=-eq-some _ _ h in
      let ((log, v'), written, done) = >>=-eq-some _ _ logged in (v, v', log, found, written, cc)
