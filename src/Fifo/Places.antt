-- ===== src/Fifo/Places.antt =====
-- The cells of the ring, counted from the head.
use archai_engine.Shared.{ℕ, ◌+◌, ◌-◌, ◌≤◌, ◌<◌, ◌≡◌, ◌≢◌, ◌==◌, ltb, if◌then◌else◌, arith}
use archai_engine.Fifo.{next}

pub next_lem : (size t : ℕ) → t < size → next size t ≡ (if t + 1 == size then 0 else t + 1)
next_lem size t h = grind arith

-- The cell `k` places on from `h`.
abbrev pub place : ℕ → ℕ → ℕ → ℕ
place size h k = if ltb (h + k) size then h + k else h + k - size

pub place_lt : (size h k : ℕ) → h < size → k ≤ size → place size h k < size
place_lt size h k lt le = ground arith

pub place_zero : (size h : ℕ) → h < size → place size h 0 ≡ h
place_zero size h lt = ground arith

pub next-place :
    (size h k : ℕ) → h < size → k < size → next size (place size h k) ≡ place size h (k + 1)
next-place size h k lt le = ground (arith, next_lem size (place size h k))

pub next_lt : (size h : ℕ) → h < size → next size h < size
next_lt size h lt = ground (arith, next_lem size h)

-- From the next cell on, everything is one place nearer.
pub place-next :
    (size h k : ℕ) → h < size → k < size → place size (next size h) k ≡ place size h (k + 1)
place-next size h k lt le = ground (arith, next_lem size h)

pub place-ne : (size h k n : ℕ) → h < size → k < n → n < size → place size h k ≢ place size h n
place-ne size h k n lt le lt' = ground arith
