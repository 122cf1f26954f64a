-- ===== src/Combat/CoolDown.antt =====
-- combat_component.cpp: a skill that is cast: what it costs, and how it cools down.
use archai_engine.Shared.{
  subst, ℕ, suc, leb, ◌+◌, ◌-◌, ◌%◌, ◌^◌, ◌≤◌, ◌<◌, ◌≡◌, refl, sym, ap, ◌∙◌, true, false, Option,
  some, List, [], ltb, arith, get_elem?, get_elem?-set_self,
}
use archai_engine.Shared.Int.{ℤ, pos, ◌+ℤ◌, ◌-ℤ◌, ◌≤ℤ◌}
use archai_engine.BitStream.{InputBitStream}
use archai_engine.AttrSet.{AttrSet, add_mana, set_mana}
use archai_engine.Combat.{
  Skill, SkillInfo, CombatComponent, Effect, find_info, to_int, to_size, can_cast_skill, cast_at,
  cast_skill, start_skill,
}
use archai_engine.Combat.Cast.{start_skill-leaves, find_info-set}

-- The skill `id` is the info at place `i`.
abbrev pub Has : {F : Type 0} → CombatComponent F → ℕ → ℕ → SkillInfo → Type 0
Has c id i info =
    (find_info id c.skill_infos.vec ≡ some i) × (get_elem? c.skill_infos.vec i ≡ some info)

-- The fighter at a later time: nothing has touched the infos of its skills.
abbrev pub later :
    {F : Type 0} → CombatComponent F → AttrSet F → List (ℕ × Skill) → CombatComponent F
later c attr_set running_skills = record c { attr_set = attr_set; running_skills = running_skills }

next_time-small :
    (now cool_down : ℕ)
    → now + cool_down < 2 ^ 31
    → to_size (to_int now +ℤ pos cool_down) ≡ now + cool_down
unfolding to_int to_size ◌+ℤ◌
next_time-small now cool_down h =
    let low : now % 2 ^ 32 ≡ now = omega arith in
    let below : ltb now (2 ^ 31) ≡ true = ground arith in
    let positive : leb 0 (now + cool_down) ≡ true = ground arith in
    rw (low, below, positive) (omega arith)

next_time-late :
    (now cool_down : ℕ)
    → 2 ^ 31 ≤ now
    → now + cool_down < 2 ^ 32
    → 2 ^ 63 ≤ to_size (to_int now +ℤ pos cool_down)
unfolding to_int to_size ◌+ℤ◌
next_time-late now cool_down late h =
    let low : now % 2 ^ 32 ≡ now = omega arith in
    let below : ltb now (2 ^ 31) ≡ false = ground arith in
    let negative : leb (suc (4294967295 - now) + 0) (0 + cool_down) ≡ false = ground arith in
    rw (low, below, negative) (omega arith)

module _ (memory : ℕ → ℕ) (get : InputBitStream → Option (SkillInfo × InputBitStream))
    (fresh : SkillInfo) {F : Type 0} where
  cast_skill-Has :
      (c : CombatComponent F) (now id i : ℕ) (timer : ℤ) (info : SkillInfo)
      → Has c id i info
      → cast_skill memory get fresh c now timer id ≡ cast_at memory get fresh c now timer i info
  unfolding cast_skill
  cast_skill-Has c now id i timer info (found, entry) = rw (cast_skill, found, entry) refl

  can_cast_skill-early :
      (c : CombatComponent F) (now : ℕ) (info : SkillInfo)
      → now < to_size info.next_cast_time
      → can_cast_skill c now info ≡ false
  unfolding can_cast_skill
  can_cast_skill-early c now info h = ground arith

  cast_at-refused :
      (c : CombatComponent F) (now i : ℕ) (timer : ℤ) (info : SkillInfo)
      → can_cast_skill c now info ≡ false
      → info.local_predicated ≡ false
      → cast_at memory get fresh c now timer i info ≡ some (c, [])
  unfolding cast_at
  cast_at-refused c now i timer info h l = rw (h, l) refl

  cast_at-started :
      (c : CombatComponent F) (now i : ℕ) (timer : ℤ) (info : SkillInfo)
      → can_cast_skill c now info ≡ true
      → cast_at memory get fresh c now timer i info
        ≡ start_skill memory get fresh c now timer i info
  unfolding cast_at
  cast_at-started c now i timer info h = rw h refl

  started :
      (c c' : CombatComponent F) (now id i : ℕ) (timer : ℤ) (info : SkillInfo)
      (effects : List Effect)
      → Has c id i info
      → can_cast_skill c now info ≡ true
      → cast_skill memory get fresh c now timer id ≡ some (c', effects)
      → start_skill memory get fresh c now timer i info ≡ some (c', effects)
  started c c' now id i timer info effects has can cast =
      sym (cast_at-started c now i timer info can)
      ∙ sym (cast_skill-Has c now id i timer info has)
      ∙ cast

  can_cast_skill-enough :
      (c : CombatComponent F) (now : ℕ) (info : SkillInfo)
      → can_cast_skill c now info ≡ true
      → info.cost_mana ≤ℤ c.attr_set.mana
  unfolding can_cast_skill
  can_cast_skill-enough c now info h = ground arith

  paid :
      (a : AttrSet F) (cost : ℕ)
      → pos cost ≤ℤ a.mana
      → a.mana ≤ℤ a.max_mana
      → ((add_mana a (pos 0 -ℤ pos cost)).mana ≡ a.mana -ℤ pos cost)
        × (pos 0 ≤ℤ (add_mana a (pos 0 -ℤ pos cost)).mana)
  unfolding add_mana set_mana ◌+ℤ◌ ◌-ℤ◌
  paid a cost enough bounded = let goal = a.mana in ground arith

  cast_skill-cools_down :
      (c c' : CombatComponent F) (now id i : ℕ) (timer : ℤ) (info : SkillInfo)
      (effects : List Effect)
      → Has c id i info
      → info.local_predicated ≡ false
      → can_cast_skill c now info ≡ true
      → cast_skill memory get fresh c now timer id ≡ some (c', effects)
      → (attrs : AttrSet F) (running : List (ℕ × Skill)) (now' : ℕ) (timer' : ℤ)
      → now' < to_size (to_int now +ℤ info.cool_down)
      → cast_skill memory get fresh (later c' attrs running) now' timer' id
        ≡ some (later c' attrs running, [])
  cast_skill-cools_down c c' now id i timer info effects has at_server can cast attrs running now'
        timer' early =
      let (info', (ids, time, predicated), infos, inside, paid_attrs) =
        start_skill-leaves memory get fresh c c' now timer i info effects
          (started c c' now id i timer info effects has can cast) in
      let c'' = later c' attrs running in
      let has' : Has c'' id i info' = (
        ap (find_info id) infos
            ∙ find_info-set id c.skill_infos.vec i info info' (has.1) ids
            ∙ has.0,
        ap (λ (l : List SkillInfo). get_elem? l i) infos
            ∙ get_elem?-set_self c.skill_infos.vec i info' inside,
      ) in
      cast_skill-Has c'' now' id i timer' info' has'
      ∙ cast_at-refused c'' now' i timer' info'
          (can_cast_skill-early c'' now' info' (rw time early)) (predicated ∙ at_server)

  -- A fighter has cast a skill at a time below 2^31 ms. Until its cool-down has passed a cast of it is refused, and
  -- changes nothing, whatever the attributes are by then and whichever skills are running: also when the effect of
  -- the cast is over and the mana is there. The skill is found, the client does not run it first, nothing else has changed the
  -- infos of the skills, and the time plus the cool-down is below 2^31.
  pub cast_skill-refused_while_cooling :
      (c c' : CombatComponent F) (now id i cool_down : ℕ) (timer : ℤ) (info : SkillInfo)
      (effects : List Effect)
      → Has c id i info
      → info.local_predicated ≡ false
      → info.cool_down ≡ pos cool_down
      → now + cool_down < 2 ^ 31
      → can_cast_skill c now info ≡ true
      → cast_skill memory get fresh c now timer id ≡ some (c', effects)
      → (attrs : AttrSet F) (running : List (ℕ × Skill)) (now' : ℕ) (timer' : ℤ)
      → now' < now + cool_down
      → cast_skill memory get fresh (later c' attrs running) now' timer' id
        ≡ some (later c' attrs running, [])
  cast_skill-refused_while_cooling c c' now id i cool_down timer info effects has at_server cools
        small can cast attrs running now' timer' early =
      cast_skill-cools_down c c' now id i timer info effects has at_server can cast attrs running
        now' timer' (rw cools (omega (arith, next_time-small now cool_down small)))

  -- A fighter has cast a skill at a time from 2^31 ms on, with the time plus the cool-down below 2^32. Then a cast of it is
  -- refused, and changes nothing, at every time below 2^63 ms, whatever the attributes are by then and whichever skills
  -- are running: also when the effect of the cast is over and the cool-down has long passed. The skill is found, the client does
  -- not run it first, and nothing else has changed the infos of the skills.
  pub cast_skill-refused_for_ever :
      (c c' : CombatComponent F) (now id i cool_down : ℕ) (timer : ℤ) (info : SkillInfo)
      (effects : List Effect)
      → Has c id i info
      → info.local_predicated ≡ false
      → info.cool_down ≡ pos cool_down
      → 2 ^ 31 ≤ now
      → now + cool_down < 2 ^ 32
      → can_cast_skill c now info ≡ true
      → cast_skill memory get fresh c now timer id ≡ some (c', effects)
      → (attrs : AttrSet F) (running : List (ℕ × Skill)) (now' : ℕ) (timer' : ℤ) → now' < 2 ^ 63
      → cast_skill memory get fresh (later c' attrs running) now' timer' id
        ≡ some (later c' attrs running, [])
  cast_skill-refused_for_ever c c' now id i cool_down timer info effects has at_server cools late
        small can cast attrs running now' timer' early =
      cast_skill-cools_down c c' now id i timer info effects has at_server can cast attrs running
        now' timer' (rw cools (omega (arith, next_time-late now cool_down late small)))

  -- A cast that is accepted takes its cost from the mana, which stays 0 or more. The skill is found, its
  -- cost is not negative, and the mana is at most max_mana.
  pub cast_skill-costs :
      (c c' : CombatComponent F) (now id i cost : ℕ) (timer : ℤ) (info : SkillInfo)
      (effects : List Effect)
      → Has c id i info
      → info.cost_mana ≡ pos cost
      → c.attr_set.mana ≤ℤ c.attr_set.max_mana
      → can_cast_skill c now info ≡ true
      → cast_skill memory get fresh c now timer id ≡ some (c', effects)
      → (c'.attr_set.mana ≡ c.attr_set.mana -ℤ pos cost) × (pos 0 ≤ℤ c'.attr_set.mana)
  cast_skill-costs c c' now id i cost timer info effects has costs bounded can cast =
      let (info', renewed, infos, inside, attrs) =
        start_skill-leaves memory get fresh c c' now timer i info effects
          (started c c' now id i timer info effects has can cast) in
      let has_enough : info.cost_mana ≤ℤ c.attr_set.mana = can_cast_skill-enough c now info can in
      let enough : pos cost ≤ℤ c.attr_set.mana =
        subst (λ v. v ≤ℤ c.attr_set.mana) costs has_enough in
      let (mana, positive) = paid c.attr_set cost enough bounded in
      let after = attrs ∙ ap (λ v. add_mana c.attr_set (pos 0 -ℤ v)) costs in
      (ap (λ (a : AttrSet F). a.mana) after ∙ mana, rw after positive)
