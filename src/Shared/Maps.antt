-- ===== src/Shared/Maps.antt =====
-- Maps with numbers for keys, as association lists, and sets of numbers, as lists.
use Prim.Native.Nat.{ℕ}
use mathlib.Core.Path.{◌≡◌, refl}
use mathlib.Core.Bool.{Bool, true, false, ◌||◌}
use mathlib.Core.Option.{Option, none, some}
use mathlib.Core.List.{List, [], ◌∷◌, ◌++◌}
use native.Mathlib.Omega.{arith}
use archai_engine.Shared.Tests.{◌==◌, if◌then◌else◌}

module _ {ℓ} {V : Type ℓ} where
  unfoldable pub find : ℕ → List (ℕ × V) → Option V
  find k [] = none
  find k ((j, v) ∷ m) = if j == k then some v else find k m

  -- The value of a key, which is added at the end if it is new.
  unfoldable pub put : ℕ → V → List (ℕ × V) → List (ℕ × V)
  put k v [] = (k, v) ∷ []
  put k v ((j, w) ∷ m) = if j == k then (k, v) ∷ m else (j, w) ∷ put k v m

  unfoldable pub remove : ℕ → List (ℕ × V) → List (ℕ × V)
  remove k [] = []
  remove k ((j, w) ∷ m) = let rest = remove k m in if j == k then rest else (j, w) ∷ rest

  pub find-put :
      (k j : ℕ) (v : V) (m : List (ℕ × V))
      → find j (put k v m) ≡ (if k == j then some v else find j m)
  unfolding find put
  find-put k j v [] = refl
  find-put k j v ((i, w) ∷ m) = ground (arith, find-put k j v m)

  pub find-remove :
      (k j : ℕ) (m : List (ℕ × V)) → find j (remove k m) ≡ (if k == j then none else find j m)
  unfolding find remove
  find-remove k j [] = ground arith
  find-remove k j ((i, w) ∷ m) = ground (arith, find-remove k j m)

unfoldable pub elem : ℕ → List ℕ → Bool
elem a [] = false
elem a (b ∷ l) = b == a || elem a l

unfoldable pub include : ℕ → List ℕ → List ℕ
unfolding elem
include a l = if elem a l then l else a ∷ l

unfoldable pub exclude : ℕ → List ℕ → List ℕ
exclude a [] = []
exclude a (b ∷ l) = let rest = exclude a l in if b == a then rest else b ∷ rest

pub elem-include :
    (a b : ℕ) (l : List ℕ) → elem a (include b l) ≡ (if b == a then true else elem a l)
unfolding include
elem-include a b l = ground arith

pub elem-exclude :
    (a b : ℕ) (l : List ℕ) → elem a (exclude b l) ≡ (if b == a then false else elem a l)
unfolding elem exclude
elem-exclude a b [] = ground arith
elem-exclude a b (c ∷ l) = ground (arith, elem-exclude a b l)

pub elem-append : (a : ℕ) (l m : List ℕ) → elem a (l ++ m) ≡ (elem a l || elem a m)
unfolding elem
elem-append a [] m = refl
elem-append a (b ∷ l) m = ground (arith, elem-append a l m)
