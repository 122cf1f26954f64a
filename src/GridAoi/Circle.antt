-- ===== src/GridAoi/Circle.antt =====
-- A query by circle finds the entities that are within it, and no others.
use archai_engine.Shared.{
  ℕ, zero, suc, ◌+◌, ◌<◌, ◌≡◌, refl, ◌∙◌, Bool, true, false, ◌&&◌, ◌||◌, Option, none, some, List,
  [], ◌∷◌, ◌++◌, map, arith, Bool-cases, Option-cases, inl, inr,
}
use native.Mathlib.Decide.{ℕ_discrete}
use archai_engine.Shared.Int.{ℤ, pos, pos_part, neg_part, ◌+ℤ◌, ◌-ℤ◌, ◌≤ℤ◌, eq_ℤ}
use archai_engine.Shared.Maps.{find, elem, elem-append}
use archai_engine.GridAoi.{
  Plane, AoiEntity, Grids, Entities, members, upwards, range, cells_of, in_grid, in_grids, circle,
}
use archai_engine.GridAoi.Cells.{Agree}

elem_ℤ : ℤ → List ℤ → Bool
elem_ℤ i [] = false
elem_ℤ i (j ∷ l) = eq_ℤ i j || elem_ℤ i l

elem-upwards :
    (i lo : ℤ) (n : ℕ)
    → lo ≤ℤ i
    → pos_part i + neg_part lo < pos_part lo + neg_part i + n
    → elem_ℤ i (upwards lo n) ≡ true
unfolding elem_ℤ upwards ◌+ℤ◌
elem-upwards i lo zero h k = absurd (omega arith)
elem-upwards i lo (suc n) h k = elim (Bool-cases (eq_ℤ i lo)) [
  | inl e ↦ rw e refl
  | inr e ↦ rw e (elem-upwards i (lo +ℤ pos 1) n (ground arith) (ground arith))
]

elem-range : (i lo hi : ℤ) → lo ≤ℤ i → i ≤ℤ hi → elem_ℤ i (range lo hi) ≡ true
unfolding range ◌+ℤ◌ ◌-ℤ◌
elem-range i lo hi h k = elem-upwards i lo (pos_part (hi +ℤ pos 1 -ℤ lo)) h (ground arith)

-- A cell is among those of two ranges.
elem_cell : ℤ → ℤ → List (ℤ × ℤ) → Bool
elem_cell i j [] = false
elem_cell i j ((i', j') ∷ l) = (eq_ℤ i i' && eq_ℤ j j') || elem_cell i j l

elem_cell-append :
    (i j : ℤ) (l m : List (ℤ × ℤ)) → elem_cell i j (l ++ m) ≡ (elem_cell i j l || elem_cell i j m)
unfolding elem_cell
elem_cell-append i j [] m = refl
elem_cell-append i j ((i', j') ∷ l) m = rw (elem_cell-append i j l m) (ground arith)

elem_cell-map :
    (i j i' : ℤ) (js : List ℤ)
    → eq_ℤ i i' ≡ true
    → elem_cell i j (map (λ k. (i', k)) js) ≡ elem_ℤ j js
unfolding elem_cell elem_ℤ
elem_cell-map i j i' [] h = refl
elem_cell-map i j i' (k ∷ js) h = rw (h, elem_cell-map i j i' js h) refl

elem-cells_of :
    (i j : ℤ) (is js : List ℤ)
    → elem_ℤ i is ≡ true
    → elem_ℤ j js ≡ true
    → elem_cell i j (cells_of is js) ≡ true
unfolding cells_of elem_ℤ
elem-cells_of i j [] js h k = cc
elem-cells_of i j (i' ∷ is) js h k =
    rw (elem_cell-append i j (map (λ k. (i', k)) js) (cells_of is js))
      (elim (Bool-cases (eq_ℤ i i')) [
        | inl e ↦ rw (elem_cell-map i j i' js e, k) refl
        | inr e ↦ rw (elem-cells_of i j is js (rw e at h) k) (ground arith)
      ])

module _ (p : Plane) (x y radius : p.Coord) (live : Entities p.Coord) where
  open p use {Coord, cell, within, plus, minus, within_x, within_y}

  abbrev pub inside : Option (AoiEntity Coord) → Bool
  inside none = false
  inside (some e) = within x y e.x e.y radius

  abbrev Present : List ℕ → Type 0
  Present l = (a : ℕ) → elem a l ≡ true → (e : AoiEntity Coord) × (find a live ≡ some e)

  -- What is found among `l`, and that `_entities` stays.
  in_grid-elem :
      (l : List ℕ) (a : ℕ)
      → Present l
      → ((in_grid p x y radius l live).1 ≡ live)
        × (elem a (in_grid p x y radius l live).0 ≡ (elem a l && inside (find a live)))
  unfolding in_grid elem
  in_grid-elem [] a h = (refl, refl)
  in_grid-elem (eid ∷ l) a h =
      let (e, found) = h eid (ground arith) in
      let (kept, rest) = in_grid-elem l a (λ b k. h b (ground arith)) in
      rw (in_grid, found)
        (
          kept,
          (elim (ℕ_discrete eid a) [
            | yes same ↦ let found' : find a live ≡ some e = rw same at found in ground arith
            | no other ↦ ground arith
          ]),
        )

  abbrev among : Option (AoiEntity Coord) → List (ℤ × ℤ) → Bool
  among none cells = false
  among (some e) cells = within x y e.x e.y radius && elem_cell (cell e.x) (cell e.y) cells

  -- The cells of the query are all those where an entity within the circle can stand.
  covered :
      (o : Option (AoiEntity Coord))
      → among o (
          cells_of
            (range (cell (minus x radius)) (cell (plus x radius)))
            (range (cell (minus y radius)) (cell (plus y radius))))
        ≡ inside o
  covered none = refl
  covered (some e) = elim (Bool-cases (within x y e.x e.y radius)) [
    | inr out ↦ rw out refl
    | inl near ↦
        let (left, right) = within_x x y e.x e.y radius near in
        let (low, high) = within_y x y e.x e.y radius near in
        rw
          (
            near,
            elem-cells_of (cell e.x) (cell e.y)
                (range (cell (minus x radius)) (cell (plus x radius)))
                (range (cell (minus y radius)) (cell (plus y radius)))
                (elem-range (cell e.x) _ _ left right) (elem-range (cell e.y) _ _ low high),
          )
          refl
  ]

  module _ (grids : Grids) (agree : Agree p grids live) where
    grid-Present : (i j : ℤ) → Present (members (grids i j))
    grid-Present i j a h = elim (Option-cases (find a live)) [
      | inl out ↦
          let e = agree a i j in let e' : elem a (members (grids i j)) ≡ false = rw out at e in cc
      | inr (e, found) ↦ (e, found)
    ]

    in_grids-elem :
        (cells : List (ℤ × ℤ)) (a : ℕ)
        → ((in_grids p x y radius grids cells live).1 ≡ live)
          × (elem a (in_grids p x y radius grids cells live).0 ≡ among (find a live) cells)
    unfolding in_grids elem elem_cell
    in_grids-elem [] a = (refl, ground arith)
    in_grids-elem ((i, j) ∷ cells) a =
        let (kept, here) = in_grid-elem (members (grids i j)) a (grid-Present i j) in
        let (kept', more) = in_grids-elem cells a in
        let stood = agree a i j in
        rw kept (
          kept',
          rw
              (
                elem-append a (in_grid p x y radius (members (grids i j)) live).0
                    (in_grids p x y radius grids cells live).0,
                here,
                more,
                stood,
              )
              (elim (Option-cases (find a live)) [
                | inl out ↦ rw out refl
                | inr (e, found) ↦ rw found (ground arith)
              ]),
        )

    pub circle-elem :
        (a : ℕ)
        → ((circle p x y radius grids live).1 ≡ live)
          × (elem a (circle p x y radius grids live).0 ≡ inside (find a live))
    unfolding circle
    circle-elem a =
        let is = range (cell (minus x radius)) (cell (plus x radius)) in
        let js = range (cell (minus y radius)) (cell (plus y radius)) in
        let (kept, found) = in_grids-elem (cells_of is js) a in
        (kept, found ∙ covered (find a live))
