-- ===== src/Accounts/Roles/Frame.antt =====
-- What an assignment of roles leaves alone: whatever every change of the table of mappings keeps.
use recommendation_trip_plat.Base.{
  eqb, Bool-cases, Option-cases, length, find?, any, filter, after, Keeps, ℕ, String, inl, inr,
  Bool, true, false, not, Option, none, some, List, [], ◌∷◌, distinct, find_last,
}
use recommendation_trip_plat.Accounts.Roles.{
  UserRole, Role, RoleWorld, is_active, active_of, has_id, with_role, has_code, mappings_with_roles,
  mappings_including_deleted, assert_user_exists, make_primary, update_primary_role,
  restore_mapping, create_mapping, restore_or_create, assign_role, assign_roles, desired_primary,
  assign_distinct, assign_roles_by_codes,
}

module _ {S : Type 0} (world : RoleWorld S) (P : S → Type 0)
    (inserted : (r : UserRole) (s : S) → P s → P (world.mappings.insert r s))
    (updated : (p : UserRole → Bool) (f : UserRole → UserRole) (s : S)
      → P s
      → P (world.mappings.update p f s)) where
  assign_roles-frame :
      (now : ℕ) (user_id : String) (existing deleted : List UserRole) (roles : List Role) (s : S)
      → P s
      → P (assign_roles world now user_id existing deleted roles s)
  unfolding assign_roles assign_role restore_mapping create_mapping
  assign_roles-frame now user_id existing deleted [] s h = h
  assign_roles-frame now user_id existing deleted (role ∷ roles) s h =
      assign_roles-frame now user_id existing deleted roles
        (assign_role world now user_id existing deleted role s) one
    where
      found : (o : Option UserRole) → P (restore_or_create world now user_id role o s)
      found none =
          inserted
            (record {
              id = world.new_id s;
              user_id = user_id;
              role_id = role.id;
              is_primary = false;
              created_at = now;
              deleted_at = none;
            })
            s h
      found (some m) =
          updated (has_id m.id) (λ n. record n { is_primary = false })
            (world.mappings.update (has_id m.id) (λ n. record n { deleted_at = none }) s)
            (updated (has_id m.id) (λ n. record n { deleted_at = none }) s h)

      one : P (assign_role world now user_id existing deleted role s)
      one = elim (Bool-cases (any (with_role role) existing)) [
        | inl e ↦ rw e h
        | inr e ↦ rw e (found (find_last (with_role role) deleted))
      ]

  update_primary_role-frame :
      (user_id code : String) (ms : List UserRole)
      → Keeps P (update_primary_role world user_id code ms)
  unfolding update_primary_role make_primary
  update_primary_role-frame user_id code ms s h = elim (Bool-cases (eqb (length ms) 0)) [
    | inl e ↦ rw e h
    | inr e ↦ elim (Option-cases (find? (has_code world s code) ms)) [
      | inl miss ↦ rw e (rw miss h)
      | inr (target, found) ↦ rw e (
          rw found (
            updated (has_id target.id) (λ m. record m { is_primary = true })
              (world.mappings.update (active_of user_id) (λ m. record m { is_primary = false }) s)
              (updated (active_of user_id) (λ m. record m { is_primary = false }) s h)))
    ]
  ]

  pub assign_roles_by_codes-frame :
      (now : ℕ) (user_id : String) (codes : List String) (primary : Option String)
      → Keeps P (assign_roles_by_codes world now user_id codes primary)
  unfolding assign_roles_by_codes assign_distinct assert_user_exists
  assign_roles_by_codes-frame now user_id codes primary s h =
      elim (Bool-cases (not (world.user_exists user_id s))) [
        | inl e ↦ rw e h
        | inr e ↦ rw e (go (distinct codes))
      ]
    where
      go : (cs : List String) → P (after (assign_distinct world now user_id cs primary s))
      go [] = h
      go (c ∷ cs) =
          elim (Bool-cases
            (not (eqb (length (world.roles_by_code (c ∷ cs) s)) (length (c ∷ cs))))) [
              | inl e ↦ rw e h
              | inr e ↦ rw e (
                  let roles : List Role = world.roles_by_code (c ∷ cs) s in
                  let existing : List UserRole = mappings_with_roles world user_id s in
                  let deleted : List UserRole =
                    filter (λ m. not (is_active m)) (mappings_including_deleted world user_id s) in
                  let t : S = assign_roles world now user_id existing deleted roles s in
                  let ms : List UserRole = mappings_with_roles world user_id t in
                  update_primary_role-frame user_id (desired_primary world t primary ms c) ms t
                    (assign_roles-frame now user_id existing deleted roles s h))
            ]
