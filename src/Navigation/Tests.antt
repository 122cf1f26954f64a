-- ===== src/Navigation/Tests.antt =====
-- A walk along three points, with whole numbers for coordinates.
use archai_engine.Shared.{
  true, ◌⊎◌, get_elem?, length, ◌∙◌, ℕ, ◌+◌, ◌-◌, ◌*◌, ◌/◌, ◌==◌, leb, ◌≡◌, refl, inl, some, List,
  [], ◌∷◌, arith,
}
use archai_engine.Shared.Int.{negsuc, ℤ, pos}
use archai_engine.Movement.{Vector3f, MovementComponent}
use archai_engine.Navigation.{Reals, NavEffect, NavigationComponent, update}
use archai_engine.GridAoi.Tests.{points}
use archai_engine.Service.{Space}
use archai_engine.Movement.Tests.{standing, arrived, arrived-inside, arrived-InStep}
use archai_engine.Navigation.Arrive.{apply_effects, Stands, Shown, reals, update-arrives}
use archai_engine.Navigation.Walk.{UnderWay}
use archai_engine.Navigation.Calls.{
  NavEvent, goes_to, ticks, new_component, nav_steps, Sound, nav_steps-Sound,
}

abbrev whole : Reals
whole = record {
  Real = ℕ;
  nought = 0;
  one = 1;
  plus = λ a b. a + b;
  minus = λ a b. a - b;
  times = λ a b. a * b;
  over = λ a b. a / b;
  root = λ a. a;
  at_least = λ a b. leb b a;
  is_zero = λ a. a == 0;
}

abbrev at_x : ℕ → Vector3f ℕ
at_x x = record { x = x; y = 0; z = 0 }

abbrev corners : List (Vector3f ℕ)
corners = at_x 0 ∷ at_x 3 ∷ at_x 5 ∷ []

abbrev orders : List (NavEvent ℕ)
orders = goes_to corners 7 ∷ ticks 5 ∷ ticks 1 ∷ goes_to (at_x 1 ∷ []) 8 ∷ ticks 1 ∷ []

nav_steps-Sound_example :
    (n' : NavigationComponent ℕ) × (nav_steps whole (new_component whole 2) orders ≡ some n')
    × Sound whole n'
nav_steps-Sound_example =
    nav_steps-Sound whole (new_component whole 2) orders (inl refl)
      (omega arith, (tt, (tt, (omega arith, (tt, tt)))))

abbrev at_z : ℕ → Vector3f ℤ
at_z z = record { x = pos 1; y = pos 0; z = pos z }

abbrev hike : List (Vector3f ℤ)
hike = at_z 1 ∷ at_z 2 ∷ at_z 4 ∷ []

abbrev hiker : NavigationComponent ℤ
hiker = record {
  update_timer = pos 7;
  move_speed = pos 2;
  cumulate_t = pos 0;
  segment_t = pos 0;
  cur_path_idx = 1;
  path = hike;
}

abbrev first : ℤ → ℤ → ℤ
first a b = a

abbrev steps_of : Reals
steps_of = reals points (pos 1) first first (λ a. a) (λ a b. true) (λ a. true)

hiker-UnderWay : UnderWay steps_of hike 7 hiker
hiker-UnderWay = (refl, refl, omega arith, omega arith)

abbrev body : MovementComponent ℤ × Space ℤ
body = (standing, arrived.space)

body-Stands : Stands points first (pos 9) 2 body
body-Stands = (arrived-inside, arrived-InStep 2 ∙ arrived-inside)

update-arrives_example :
    (n' : NavigationComponent ℤ) × (effects : List (NavEffect ℤ)) × (update steps_of 1 hiker (pos 1)
      ≡ some (n', effects))
    × (UnderWay steps_of hike 7 n'
        ⊎ ((n'.update_timer ≡ negsuc 0)
            × (get_elem? hike (length hike - 1)
                ≡ some (apply_effects points first (pos 9) 2 body effects).0.position)
            × Shown points first (pos 9) 2 (apply_effects points first (pos 9) 2 body effects)))
update-arrives_example =
    update-arrives points (pos 1) first first (λ a. a) (λ a b. true) (λ a. true) first (pos 9) 2
      hike 7 1 hiker (pos 1) body hiker-UnderWay (omega arith) body-Stands
