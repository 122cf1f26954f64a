-- ===== src/GridAoi/Tests.antt =====
-- The grid on whole numbers, with cells of one point and the circles of the greater coordinate.
use archai_engine.Shared.{◌≡◌, Bool, true, ◌&&◌, none, List, [], ◌∷◌, arith}
use archai_engine.Shared.Int.{ℤ, pos, negsuc, ◌+ℤ◌, ◌-ℤ◌, ◌≤ℤ◌, ltb_ℤ}
use archai_engine.Shared.Maps.{elem}
use archai_engine.GridAoi.{Plane, init, get_entities_in_circle}
use archai_engine.GridAoi.Queries.{
  AoiCall, adds, dels, moves, calls, near, where_is, circle-where_is,
}

abbrev pub close : ℤ → ℤ → ℤ → Bool
close x ex r = ltb_ℤ (x -ℤ r) ex && ltb_ℤ ex (x +ℤ r)

pub close-bounds : (x ex r : ℤ) → close x ex r ≡ true → (x -ℤ r ≤ℤ ex) × (ex ≤ℤ x +ℤ r)
close-bounds x ex r h = ground arith

pub and_left : (a b : Bool) → (a && b) ≡ true → a ≡ true
and_left a b h = ground arith

pub and_right : (a b : Bool) → (a && b) ≡ true → b ≡ true
and_right a b h = ground arith

abbrev pub points : Plane
points = record {
  Coord = ℤ;
  origin = pos 0;
  plus = λ a b. a +ℤ b;
  minus = λ a b. a -ℤ b;
  cell = λ a. a;
  within = λ x y ex ey r. close x ex r && close y ey r;
  over = λ a b. ltb_ℤ b a;
  max_view_radius = pos 3;
  within_x = λ x y ex ey r h. close-bounds x ex r (and_left _ _ h);
  within_y = λ x y ex ey r h. close-bounds y ey r (and_right (close x ex r) _ h);
}

abbrev tour : List (AoiCall ℤ)
tour =
    adds 1 (pos 0) (pos 0) (pos 2)
    ∷ adds 2 (pos 1) (negsuc 0) (pos 2)
    ∷ adds 3 (pos 1) (pos 1) (pos 2)
    ∷ moves 2 (pos 3) (pos 0)
    ∷ dels 3
    ∷ []

circle-where_is_example :
    (elem 2 (get_entities_in_circle points (calls points init tour) (pos 2) (pos 0) (pos 2)).0
      ≡ near points (pos 2) (pos 0) (pos 2) (where_is points 2 none tour))
    × ((get_entities_in_circle points (calls points init tour) (pos 2) (pos 0) (pos 2)).1
        ≡ calls points init tour)
circle-where_is_example = circle-where_is points tour (pos 2) (pos 0) (pos 2) 2
