-- ===== src/Navigation.antt =====
-- navigation_component.h and .cpp: a monster that walks a path. float is a parameter, and so is the path that
-- Space::find_path gives. What the component does to its MovementComponent and to G_Timer is a list of effects,
-- in order. `none` is an index out of range.
pub mod Walk
pub mod Calls
pub mod Arrive
mod Tests
use archai_engine.Shared.{
  ℕ, zero, suc, ◌+◌, ◌-◌, ◌%◌, ◌^◌, Bool, true, false, Option, none, some, List, [], ◌∷◌, ◌++◌, leb,
  if◌then◌else◌, length, get_elem?,
}
use archai_engine.Shared.Options.{◌>>=◌}
use archai_engine.Shared.Int.{ℤ, pos, negsuc, eq_ℤ}
use archai_engine.Movement.{Vector3f}

-- float, as far as the code uses it; `at_least` is `>=`, `is_zero` is `== 0`.
pub record Reals : Type 1 where
  pub Real : Type 0
  pub nought : Real
  pub one : Real
  pub plus : Real → Real → Real
  pub minus : Real → Real → Real
  pub times : Real → Real → Real
  pub over : Real → Real → Real
  pub root : Real → Real
  pub at_least : Real → Real → Bool
  pub is_zero : Real → Bool

pub data NavEffect (R : Type 0) : Type 0 where
  looks_at : Vector3f R → NavEffect R
  moves_to : Vector3f R → NavEffect R
  stamps : NavEffect R
  starts_timer : ℕ → NavEffect R
  stops_timer : ℤ → NavEffect R

pub record NavigationComponent (R : Type 0) : Type 0 where
  pub update_timer : ℤ
  pub move_speed : R
  pub cumulate_t : R
  pub segment_t : R
  pub cur_path_idx : ℕ
  pub path : List (Vector3f R)

-- `_path.size() - 2`, of a size_t
abbrev pub last_leg : {R : Type 0} → List (Vector3f R) → ℕ
last_leg path = (length path + 2 ^ 64 - 2) % 2 ^ 64

module _ (f : Reals) where
  open f use {Real, nought, one, plus, minus, times, over, root, at_least, is_zero}

  pub vec_plus : Vector3f Real → Vector3f Real → Vector3f Real
  vec_plus a b = record { x = plus a.x b.x; y = plus a.y b.y; z = plus a.z b.z }

  pub vec_minus : Vector3f Real → Vector3f Real → Vector3f Real
  vec_minus a b = record { x = minus a.x b.x; y = minus a.y b.y; z = minus a.z b.z }

  pub scale : Real → Vector3f Real → Vector3f Real
  scale rate v = record { x = times v.x rate; y = times v.y rate; z = times v.z rate }

  pub lenght : Vector3f Real → Real
  lenght v = root (plus (plus (times v.x v.x) (times v.y v.y)) (times v.z v.z))

  pub reset : NavigationComponent Real → NavigationComponent Real × List (NavEffect Real)
  reset n = (
    record n {
      update_timer = negsuc 0;
      cur_path_idx = 0;
      cumulate_t = nought;
      segment_t = nought;
      path = [];
    },
    if eq_ℤ n.update_timer (negsuc 0) then [] else stops_timer n.update_timer ∷ [],
  )

  -- `found` is the path of find_path, and `timer` the id that add_timer gives.
  pub move_to :
      NavigationComponent Real
      → List (Vector3f Real)
      → ℕ
      → NavigationComponent Real × List (NavEffect Real)
  unfolding reset
  move_to n [] timer = reset n
  move_to n (at ∷ []) timer =
      let (n', stopped) = reset n in
      (record n' { path = at ∷ [] }, stopped ++ (looks_at at ∷ moves_to at ∷ []))
  move_to n (from ∷ to ∷ found) timer =
      let (n', stopped) = reset n in
      (
        record n' { path = from ∷ to ∷ found; update_timer = pos timer },
        stopped ++ (starts_timer 33 ∷ []),
      )

  -- The function calls itself at most once for each point of the path; the fuel is that.
  pub update :
      ℕ
      → NavigationComponent Real
      → Real
      → Option (NavigationComponent Real × List (NavEffect Real))
  unfolding reset vec_plus vec_minus scale lenght
  update zero n delta_t = none
  update (suc fuel) n delta_t = do
    start_pos ← get_elem? n.path n.cur_path_idx
    end_pos ← get_elem? n.path (n.cur_path_idx + 1)
    let begins = is_zero n.cumulate_t
    let looked = (if begins then looks_at end_pos ∷ [] else [])
    let segment_t =
        (if begins then over (lenght (vec_minus end_pos start_pos)) n.move_speed else n.segment_t)
    let cumulate_t = plus n.cumulate_t delta_t
    let now = record n { segment_t = segment_t; cumulate_t = cumulate_t }
    let (ended, stopped) = reset now
    let next = record n {
      segment_t = nought;
      cumulate_t = nought;
      cur_path_idx = n.cur_path_idx + 1;
    }
    let rest = (do
      (n', effects) ← update fuel next (minus cumulate_t segment_t)
      some (n', looked ++ effects))
    let factor = over cumulate_t segment_t
    let between = vec_plus (scale (minus one factor) start_pos) (scale factor end_pos)
    if at_least cumulate_t segment_t
        then (if leb (last_leg n.path) n.cur_path_idx
            then some (ended, looked ++ (moves_to end_pos ∷ stamps ∷ stopped))
            else rest)
        else some (now, looked ++ (moves_to between ∷ stamps ∷ []))
