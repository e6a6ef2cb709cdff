-- ===== src/Worker/Fields.antt =====
-- What field/FieldManager.cpp promises of its fields.
use mmorpg_server_rl_portfol.Prelude.{
  ℕ, ℤ, int_eq, ◌≡◌, ◌∙◌, sym, ap, inl, inr, Bool-cases, Option, none, some, Option-cases,
  update_self, if_true, if_false,
}
use mathlib.Core.Path.{subst}
use mmorpg_server_rl_portfol.Worker.Registry.{
  FieldManager, create_field, create_found, create_absent, get_field,
}

create_field-at :
    (mgr : FieldManager) (id : ℤ) (o : Option ℕ)
    → mgr.fields id ≡ o
    → create_field mgr id ≡ create_found mgr id o
unfolding create_field
create_field-at mgr id o at = ap (create_found mgr id) at

-- What a second call does and what is found after the first, by the outcome of the first.
IsMade : ℤ → FieldManager × Option ℕ → Type 0
IsMade id r = (create_field r.0 id ≡ r) × (get_field r.0 id ≡ r.1)

-- Creating a field twice makes one: the second call changes nothing and returns the first one's
-- answer, and so does a lookup, also when there is no storage and no field can be made.
pub create_field-again :
    (mgr : FieldManager) (id : ℤ)
    → (create_field (create_field mgr id).0 id ≡ create_field mgr id)
      × (get_field (create_field mgr id).0 id ≡ (create_field mgr id).1)
unfolding IsMade create_found create_absent get_field
create_field-again mgr id = elim (Option-cases (mgr.fields id)) [
  | inr (field, at) ↦
      subst (IsMade id) (sym (create_field-at mgr id (some field) at))
        (create_field-at mgr id (some field) at, at)
  | inl at ↦
      subst (IsMade id) (sym (create_field-at mgr id none at)) (elim (Bool-cases mgr.has_storage) [
        | inl stored ↦ subst (IsMade id) (sym (if_true _ (mgr, none) stored)) (
          create_field-at _ id (some mgr.fresh) (update_self mgr.fields id (some mgr.fresh)),
          update_self mgr.fields id (some mgr.fresh),
        )
        | inr bare ↦
            subst (IsMade id) (sym (if_false _ (mgr, none) bare))
              (create_field-at mgr id none at ∙ if_false _ (mgr, none) bare, at)
      ])
]
