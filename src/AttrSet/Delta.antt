-- ===== src/AttrSet/Delta.antt =====
-- The delta of the attributes: it has the fields that were set, and no others.
use archai_engine.Shared.{
  ℕ, zero, suc, ◌/◌, ◌<◌, ◌≡◌, refl, sym, ap, ◌∙◌, Bool, true, false, not, ◌||◌, ◌&&◌, List, [],
  ◌∷◌, ◌++◌, bit_and, bit_or, if◌then◌else◌, ◌==◌, arith, Bool-cases, inl, inr, append-nil,
}
use mathlib.Core.Path.{fun_ext, subst}
use archai_engine.Shared.Int.{ℤ}
use archai_engine.BitStream.{OutputBitStream, write_number, bytes_of}
use archai_engine.BitStream.Growth.{contents, Ok}
use archai_engine.BitStream.Numbers.{Adds, Adds-then, write_number-Adds}
use archai_engine.AttrSet.{
  AttrSet, set_max_health, set_health, set_max_mana, set_mana, pattern_of, write_if_dirty,
  net_delta_serialize,
}

pub data Field : Type 0 where
  max_health health max_mana mana : Field

abbrev pub mask : Field → ℕ
mask max_health = 1
mask health = 2
mask max_mana = 4
mask mana = 8

abbrev pub same_field : Field → Field → Bool
same_field a b = mask a == mask b

abbrev pub value : {F : Type 0} → AttrSet F → Field → ℤ
value a max_health = a.max_health
value a health = a.health
value a max_mana = a.max_mana
value a mana = a.mana

module _ {F : Type 0} where
  unfoldable pub set_field : AttrSet F → Field × ℤ → AttrSet F
  unfolding set_max_health set_health set_max_mana set_mana
  set_field a (max_health, v) = set_max_health a v
  set_field a (health, v) = set_health a v
  set_field a (max_mana, v) = set_max_mana a v
  set_field a (mana, v) = set_mana a v

  unfoldable pub set_fields : AttrSet F → List (Field × ℤ) → AttrSet F
  unfolding set_field
  set_fields a [] = a
  set_fields a (s ∷ sets) = set_fields (set_field a s) sets

-- Whether a field is among those that are set, and the value that it has then.
abbrev pub is_set : Field → List (Field × ℤ) → Bool
is_set x [] = false
is_set x ((y, v) ∷ sets) = same_field x y || is_set x sets

abbrev pub last_of : Field → ℤ → List (Field × ℤ) → ℤ
last_of x v [] = v
last_of x v ((y, w) ∷ sets) = last_of x (if same_field x y then w else v) sets

-- The flags, over the 16 values that four of them have.
marked : ℕ → Field → Bool
marked flag x = not (bit_and flag (mask x) == 0)

all_below : ℕ → (ℕ → Bool) → Bool
all_below zero p = true
all_below (suc n) p = p n && all_below n p

all_below_sound : (n : ℕ) (p : ℕ → Bool) (k : ℕ) → all_below n p ≡ true → k < n → p k ≡ true
unfolding all_below
all_below_sound zero p k h lt = absurd (omega arith)
all_below_sound (suc n) p k h lt = ground (arith, all_below_sound n p k)

abbrev same_bool : Bool → Bool → Bool
same_bool true b = b
same_bool false b = not b

same_bool_sound : (a b : Bool) → same_bool a b ≡ true → a ≡ b
same_bool_sound true b h = sym h
same_bool_sound false true h = cc
same_bool_sound false false h = refl

abbrev or_holds : Field → Field → ℕ → Bool
or_holds x y flag =
    same_bool (marked (bit_or flag (mask y)) x) (same_field x y || marked flag x)
    && (bit_or flag (mask y) / 16 == 0)

or_table : (x y : Field) → all_below 16 (or_holds x y) ≡ true
unfolding all_below marked
or_table max_health max_health = refl
or_table max_health health = refl
or_table max_health max_mana = refl
or_table max_health mana = refl
or_table health max_health = refl
or_table health health = refl
or_table health max_mana = refl
or_table health mana = refl
or_table max_mana max_health = refl
or_table max_mana health = refl
or_table max_mana max_mana = refl
or_table max_mana mana = refl
or_table mana max_health = refl
or_table mana health = refl
or_table mana max_mana = refl
or_table mana mana = refl

or_marked :
    (x y : Field) (flag : ℕ)
    → flag < 16
    → (marked (bit_or flag (mask y)) x ≡ (same_field x y || marked flag x))
      × (bit_or flag (mask y) < 16)
or_marked x y flag h =
    let found = all_below_sound 16 (or_holds x y) flag (or_table x y) h in
    let both = and_true _ _ found in (same_bool_sound _ _ both.0, ground arith)
  where
    and_true : (a b : Bool) → (a && b) ≡ true → (a ≡ true) × (b ≡ true)
    and_true true b h = (refl, h)
    and_true false b h = cc

set_field-value :
    {F : Type 0} (a : AttrSet F) (y : Field) (v : ℤ) (x : Field)
    → value (set_field a (y, v)) x ≡ (if same_field x y then v else value a x)
unfolding set_field
set_field-value a max_health v max_health = refl
set_field-value a max_health v health = refl
set_field-value a max_health v max_mana = refl
set_field-value a max_health v mana = refl
set_field-value a health v max_health = refl
set_field-value a health v health = refl
set_field-value a health v max_mana = refl
set_field-value a health v mana = refl
set_field-value a max_mana v max_health = refl
set_field-value a max_mana v health = refl
set_field-value a max_mana v max_mana = refl
set_field-value a max_mana v mana = refl
set_field-value a mana v max_health = refl
set_field-value a mana v health = refl
set_field-value a mana v max_mana = refl
set_field-value a mana v mana = refl

set_field-flag :
    {F : Type 0} (a : AttrSet F) (y : Field) (v : ℤ)
    → (set_field a (y, v)).dirty_flag ≡ bit_or a.dirty_flag (mask y)
unfolding set_field
set_field-flag a max_health v = refl
set_field-flag a health v = refl
set_field-flag a max_mana v = refl
set_field-flag a mana v = refl

-- After some fields are set.
set_fields-marked :
    {F : Type 0} (sets : List (Field × ℤ)) (a : AttrSet F) (x : Field)
    → a.dirty_flag < 16
    → (marked (set_fields a sets).dirty_flag x ≡ (is_set x sets || marked a.dirty_flag x))
      × ((set_fields a sets).dirty_flag < 16)
      × (value (set_fields a sets) x ≡ last_of x (value a x) sets)
unfolding set_fields
set_fields-marked [] a x h = (refl, h, refl)
set_fields-marked ((y, v) ∷ sets) a x h =
    let (one, fits) = or_marked x y a.dirty_flag h in
    let flag = set_field-flag a y v in
    let (more, small, kept) = set_fields-marked sets (set_field a (y, v)) x (rw flag fits) in
    (
      more
          ∙ ap (λ (n : ℕ). is_set x sets || marked n x) flag
          ∙ ap (◌||◌ (is_set x sets)) one
          ∙ swap_or (is_set x sets) (same_field x y) (marked a.dirty_flag x),
      small,
      kept ∙ ap (λ (w : ℤ). last_of x w sets) (set_field-value a y v x),
    )
  where
    swap_or : (a b c : Bool) → (a || (b || c)) ≡ ((b || a) || c)
    swap_or true true c = refl
    swap_or true false c = refl
    swap_or false true c = refl
    swap_or false false c = refl

module _ (memory : ℕ → ℕ) where
  -- What is written of a field.
  abbrev pub part : Bool → ℤ → List ℕ
  part true v = bytes_of 4 (pattern_of v)
  part false v = []

  write_if_dirty-Adds :
      (flag : ℕ) (x : Field) (v : ℤ) (bs : OutputBitStream)
      → Ok bs
      → Adds bs (write_if_dirty memory flag (mask x) v bs) (part (marked flag x) v)
  unfolding write_if_dirty marked
  write_if_dirty-Adds flag x v bs ok = elim (Bool-cases (bit_and flag (mask x) == 0)) [
    | inl e ↦ rw (write_if_dirty, e) (sym (append-nil (contents bs)), ok)
    | inr e ↦ rw (write_if_dirty, e) (write_number-Adds 4 (pattern_of v) memory bs ok)
  ]

  -- The fields of a delta, in the order of the code.
  abbrev pub delta_of : (Field → Bool) → (Field → ℤ) → List ℕ
  delta_of p v =
      part (p max_health) (v max_health)
      ++ (part (p health) (v health) ++ (part (p max_mana) (v max_mana) ++ part (p mana) (v mana)))

  net_delta_serialize-Adds :
      {F : Type 0} (a : AttrSet F) (bs : OutputBitStream)
      → Ok bs
      → Adds bs
          (net_delta_serialize memory a bs).0
          (bytes_of 4 a.dirty_flag ++ delta_of (marked a.dirty_flag) (value a))
  unfolding net_delta_serialize marked
  net_delta_serialize-Adds a bs ok = elim (Bool-cases (flag == 0)) [
    | inl e ↦
        let clean : flag ≡ 0 = ground arith in
        let nothing : delta_of (marked flag) (value a) ≡ [] = rw (clean, marked) refl in
        rw (net_delta_serialize, e, nothing, append-nil (bytes_of 4 flag)) flagged
    | inr e ↦
        rw (net_delta_serialize, e)
          (Adds-then bs _ _ (bytes_of 4 flag) _ flagged (
            Adds-then o₀ o₁ _ _ _ first
              (Adds-then o₁ o₂ _ _ _ second (Adds-then o₂ o₃ o₄ _ _ third fourth))))
  ]
    where
      flag : ℕ
      flag = a.dirty_flag

      o₀ : OutputBitStream
      o₀ = write_number memory 4 bs flag

      flagged : Adds bs o₀ (bytes_of 4 flag)
      flagged = write_number-Adds 4 flag memory bs ok

      o₁ : OutputBitStream
      o₁ = write_if_dirty memory flag 1 a.max_health o₀

      first : Adds o₀ o₁ (part (marked flag max_health) a.max_health)
      first = write_if_dirty-Adds flag max_health a.max_health o₀ flagged.1

      o₂ : OutputBitStream
      o₂ = write_if_dirty memory flag 2 a.health o₁

      second : Adds o₁ o₂ (part (marked flag health) a.health)
      second = write_if_dirty-Adds flag health a.health o₁ first.1

      o₃ : OutputBitStream
      o₃ = write_if_dirty memory flag 4 a.max_mana o₂

      third : Adds o₂ o₃ (part (marked flag max_mana) a.max_mana)
      third = write_if_dirty-Adds flag max_mana a.max_mana o₂ second.1

      o₄ : OutputBitStream
      o₄ = write_if_dirty memory flag 8 a.mana o₃

      fourth : Adds o₃ o₄ (part (marked flag mana) a.mana)
      fourth = write_if_dirty-Adds flag mana a.mana o₃ third.1

-- After a reset, attributes are set any number of times. Then the delta that is written to a stream
-- whose position is within its buffer has the flags and, in the order of the code, just the attributes
-- that were set, each with the value that it was set to last.
pub net_delta_serialize-set_fields :
    (memory : ℕ → ℕ) {F : Type 0} (sets : List (Field × ℤ)) (a : AttrSet F) (bs : OutputBitStream)
    → a.dirty_flag ≡ 0
    → Ok bs
    → Adds bs (net_delta_serialize memory (set_fields a sets) bs).0 (
        bytes_of 4 (set_fields a sets).dirty_flag
        ++ delta_of memory (λ x. is_set x sets) (λ x. last_of x (value a x) sets))
unfolding marked
net_delta_serialize-set_fields memory sets a bs clean ok =
    let start : a.dirty_flag < 16 = omega arith in
    let said : marked (set_fields a sets).dirty_flag ≡ (λ x. is_set x sets) = fun_ext (λ x.
      (set_fields-marked sets a x start).0
      ∙ ap (λ (n : ℕ). is_set x sets || marked n x) clean
      ∙ unmarked x (is_set x sets)) in
    let kept : value (set_fields a sets) ≡ (λ x. last_of x (value a x) sets) =
      fun_ext (λ x. (set_fields-marked sets a x start).2) in
    let a' = set_fields a sets in
    let out = (net_delta_serialize memory a' bs).0 in
    subst
      (λ (v : Field → ℤ).
        Adds bs out (bytes_of 4 a'.dirty_flag ++ delta_of memory (λ x. is_set x sets) v))
      kept
      (subst
        (λ (p : Field → Bool).
          Adds bs out (bytes_of 4 a'.dirty_flag ++ delta_of memory p (value a')))
        said (net_delta_serialize-Adds memory a' bs ok))
  where
    unmarked : (x : Field) (b : Bool) → (b || marked 0 x) ≡ b
    unmarked x true = refl
    unmarked max_health false = refl
    unmarked health false = refl
    unmarked max_mana false = refl
    unmarked mana false = refl

pub net_delta_serialize-flag :
    {F : Type 0} (memory : ℕ → ℕ) (a : AttrSet F) (bs : OutputBitStream)
    → (net_delta_serialize memory a bs).1 ≡ not (a.dirty_flag == 0)
unfolding net_delta_serialize
net_delta_serialize-flag memory a bs = elim (Bool-cases (a.dirty_flag == 0)) [
  | inl e ↦ rw e refl
  | inr e ↦ rw e refl
]
