-- ===== src/Combat/Cast.antt =====
-- What a cast leaves: the infos of the skills but for one time, and the mana.
use archai_engine.Shared.{
  ℕ, zero, suc, ◌<◌, ◌≡◌, refl, sym, ap, ◌∙◌, Option, none, some, List, [], ◌∷◌, ◌==◌, arith,
  get_elem?, set, length, get_elem?-set_self, set-set, Bool-cases, Option-cases, inl, inr,
}
use archai_engine.Shared.Options.{>>=-eq-some}
use archai_engine.Shared.Int.{ℤ, pos, ◌+ℤ◌, ◌-ℤ◌}
use archai_engine.BitStream.{OutputBitStream, InputBitStream, write_number}
use archai_engine.SyncArray.{SyncArray}
use archai_engine.SyncArray.Entries.{assign-stores, mark_dirty-stores}
use archai_engine.AttrSet.{add_mana}
use archai_engine.Combat.{
  SkillInfo, CombatComponent, Effect, change_info, set_next_cast_time, find_info, to_int, put_dirty,
  put_info_delta, start_skill, get_or_create_skill_instance,
}

-- A SkillInfo again, but for the time and the flags.
abbrev pub Renewed : ℤ → SkillInfo → SkillInfo → Type 0
Renewed time info info' =
    (info'.skill_id ≡ info.skill_id)
    × (info'.next_cast_time ≡ time)
    × (info'.local_predicated ≡ info.local_predicated)

put_info_delta-kept :
    (memory : ℕ → ℕ) (o o' : OutputBitStream) (info info' : SkillInfo)
    → put_info_delta memory o info ≡ some (o', info')
    → Renewed info.next_cast_time info info'
unfolding put_info_delta
put_info_delta-kept memory o o' info info' h = elim (Bool-cases (info.dirty_flag == 0)) [
  | inl e ↦ let h' = rw (put_info_delta, e) at h in ground arith
  | inr e ↦ elim (Option-cases (put_dirty memory (write_number memory 1 o info.dirty_flag) info)) [
    | inl none_e ↦ let h' = rw (put_info_delta, e, none_e) at h in cc
    | inr (bs, some_e) ↦ let h' = rw (put_info_delta, e, some_e) at h in ground arith
  ]
]

get_elem?-lt : {A : Type 0} (l : List A) (i : ℕ) (a : A) → get_elem? l i ≡ some a → i < length l
get_elem?-lt [] i a h = cc
get_elem?-lt (x ∷ l) zero a h = omega arith
get_elem?-lt (x ∷ l) (suc i) a h = omega (arith, get_elem?-lt l i a h)

-- The place of a skill stays when its info is replaced.
pub find_info-set :
    (id : ℕ) (infos : List SkillInfo) (i : ℕ) (info info' : SkillInfo)
    → get_elem? infos i ≡ some info
    → info'.skill_id ≡ info.skill_id
    → find_info id (set infos i info') ≡ find_info id infos
unfolding find_info
find_info-set id [] i info info' h e = cc
find_info-set id (x ∷ infos) zero info info' h e =
    let same : x ≡ info = cc in
    let same_id : info'.skill_id ≡ x.skill_id = e ∙ sym (ap (λ (y : SkillInfo). y.skill_id) same) in
    rw same_id refl
find_info-set id (x ∷ infos) (suc i) info info' h e =
    rw (find_info-set id infos i info info' h e) refl

module _ (memory : ℕ → ℕ) (get : InputBitStream → Option (SkillInfo × InputBitStream))
    (fresh : SkillInfo) where
  change_info-stores :
      (a a' : SyncArray SkillInfo) (i : ℕ) (info : SkillInfo)
      → change_info memory get fresh a i info ≡ some a'
      → (info' : SkillInfo) × Renewed info.next_cast_time info info'
        × (a'.vec ≡ set a.vec i info')
        × (i < length a.vec)
  unfolding change_info
  change_info-stores a a' i info h =
      let (b, assigned, marked) = >>=-eq-some _ _ h in
      let (stored, inside) = assign-stores memory _ a b i info assigned in
      let (v, v', log, found, written, kept) = mark_dirty-stores memory _ b a' i marked in
      let found_info : some v ≡ some info =
        sym found
        ∙ ap (λ (l : List SkillInfo). get_elem? l i) stored
        ∙ get_elem?-set_self a.vec i info inside in
      let renewed : Renewed v.next_cast_time v v' = put_info_delta-kept memory _ log v v' written in
      let same : v ≡ info = cc in
      let (ids, times, predicated) = renewed in
      (
        v',
        (cc, cc, cc),
        kept ∙ ap (λ (l : List SkillInfo). set l i v') stored ∙ set-set a.vec i info v',
        inside,
      )

  module _ {F : Type 0} where
    abbrev component_of :
        CombatComponent F → Option (CombatComponent F × List Effect) → CombatComponent F
    component_of c none = c
    component_of c (some (c', effects)) = c'

    -- What a cast that starts leaves.
    pub start_skill-leaves :
        (c c' : CombatComponent F) (now : ℕ) (timer : ℤ) (i : ℕ) (info : SkillInfo)
        (effects : List Effect)
        → start_skill memory get fresh c now timer i info ≡ some (c', effects)
        → (info' : SkillInfo) × Renewed (to_int now +ℤ info.cool_down) info info'
          × (c'.skill_infos.vec ≡ set c.skill_infos.vec i info')
          × (i < length c.skill_infos.vec)
          × (c'.attr_set ≡ add_mana c.attr_set (pos 0 -ℤ info.cost_mana))
    unfolding start_skill
    start_skill-leaves c c' now timer i info effects h =
        let (infos, changed, h1) =
          >>=-eq-some
            (change_info memory get fresh c.skill_infos i
              (set_next_cast_time info (to_int now +ℤ info.cool_down)))
            _ h in
        let (skill, created, made) =
          >>=-eq-some (get_or_create_skill_instance c info.skill_id info.instance_per_entity) _
            h1 in
        let (info', renewed, vec_eq, inside) = change_info-stores c.skill_infos infos i _ changed in
        (
          info',
          renewed,
          ap (λ (o : Option (CombatComponent F × List Effect)). (component_of c o).skill_infos.vec)
                (sym made)
              ∙ vec_eq,
          inside,
          ap (λ (o : Option (CombatComponent F × List Effect)). (component_of c o).attr_set)
              (sym made),
        )
