-- ===== src/Entity/Components.antt =====
-- The components of an entity, as a map from the names of their classes.
use archai_engine.Shared.{
  ◌≡◌, refl, sym, ap, ◌∙◌, true, false, ◌⊎◌, inl, inr, none, some, List, [], ◌∷◌, ◌==◌,
  if◌then◌else◌, arith, if_true, if_false, Option-cases, Bool-cases,
}
use archai_engine.Entity.{
  ComponentName, class_index, Component, Entity, find_component, erase_component, add_component,
  remove_component, get_component, has_component,
}

module _ {C F : Type 0} where
  erase_component-absent :
      (name : ComponentName) (l : List (ComponentName × Component C F))
      → find_component name l ≡ none
      → erase_component name l ≡ l
  unfolding find_component erase_component
  erase_component-absent name [] h = refl
  erase_component-absent name ((n, c) ∷ l) h =
      elim (Bool-cases (class_index n == class_index name)) [
        | inl e ↦ (absurd cc)
        | inr e ↦
            rw
              (
                e,
                erase_component-absent name l
                    (sym (if_false (some c) (find_component name l) e) ∙ h),
              )
              refl
      ]

  abbrev with_components : Entity C F → List (ComponentName × Component C F) → Entity C F
  with_components e l = record e { components = l }

  remove-erase_component :
      (e : Entity C F) (name : ComponentName)
      → remove_component e name ≡ with_components e (erase_component name e.components)
  unfolding remove_component
  remove-erase_component e name = elim (Option-cases (find_component name e.components)) [
    | inl h ↦
        rw (h, remove_component)
          (ap (with_components e) (sym (erase_component-absent name e.components h)))
    | inr (c, h) ↦ rw (h, remove_component) refl
  ]

  -- Adding a component fails exactly when the entity has one of the class. Otherwise the entity has this one of its
  -- class, its other components are what they were, and removing it gives the entity back.
  add_component_cases :
      (e : Entity C F) (name other : ComponentName) (comp : Component C F)
      → ((has_component e name ≡ true) × (add_component e name comp ≡ none))
        ⊎ ((e' : Entity C F) × (has_component e name ≡ false)
            × (add_component e name comp ≡ some e')
            × (get_component e' other ≡ (
                if class_index name == class_index other then some comp else get_component e other))
            × (remove_component e' name ≡ e))
  unfolding add_component find_component erase_component
  add_component_cases e name other comp =
      let here : (class_index name == class_index name) ≡ true = ground arith in
      elim (Option-cases (find_component name e.components)) [
        | inl h ↦ inr (
          record e { components = (name, comp) ∷ e.components },
          rw (h, has_component) refl,
          rw (h, add_component) refl,
          refl,
          remove-erase_component (with_components e ((name, comp) ∷ e.components)) name
              ∙ ap (with_components e)
                  (if_true _ _ here ∙ erase_component-absent name e.components h),
        )
        | inr (c, h) ↦ inl (rw (h, has_component) refl, rw (h, add_component) refl)
      ]
