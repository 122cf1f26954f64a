-- ===== src/Fifo/Tests.antt =====
-- The queue of util/fifo_test.cpp, and one in which two pushes overlap.
use archai_engine.Shared.{
  ℕ, ◌+◌, ◌≤◌, ◌≡◌, refl, true, false, none, some, List, [], ◌∷◌, length, arith,
}
use archai_engine.Fifo.{pushed, popped, init, alone}
use archai_engine.Fifo.Queue.{Call, pushes, pops, calls, bounded_all, Holds, calls-bounded_all}
use archai_engine.Fifo.Lag.{overlap, values, overlap-values}

abbrev memory : ℕ → ℕ
memory i = 0

abbrev uses : List (Call ℕ)
uses = pushes 1 ∷ pushes 2 ∷ pushes 3 ∷ pops ∷ pops ∷ pops ∷ []

run-uses :
    calls (init memory 2) uses
    ≡ pushed true
      ∷ pushed true
      ∷ pushed false
      ∷ popped (some 1)
      ∷ popped (some 2)
      ∷ popped none
      ∷ []
unfolding calls alone
run-uses = refl

calls-bounded_all_example : calls (init memory 2) uses ≡ bounded_all 2 [] uses
calls-bounded_all_example = calls-bounded_all memory 2 uses

four-Holds : Holds 4 (init memory 4) []
four-Holds = record {
  size = refl;
  inside = omega arith;
  room = omega arith;
  ends = refl;
  published = refl;
}

overlap-values_example :
    ((overlap (init memory 4) 7 8).1 ≡ pushed true)
    × ((overlap (init memory 4) 7 8).2 ≡ pushed true)
    × (values (calls (overlap (init memory 4) 7 8).0 (pops ∷ pops ∷ pushes 9 ∷ pops ∷ []))
        ≤ length {A = ℕ} [] + 1)
overlap-values_example =
    overlap-values 4 (init memory 4) [] 7 8 (pops ∷ pops ∷ pushes 9 ∷ pops ∷ []) four-Holds
      (omega arith)
