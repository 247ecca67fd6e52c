-- ===== src/Accounts/Roles.antt =====
-- modules/permission/services/user-role.service.ts: the mappings between users and roles, one of
-- which is the user's primary one. The database is an argument.
pub mod Laws
pub mod Primary
pub mod Requests
pub mod Choice
pub mod Removal
pub mod Frame
use recommendation_trip_plat.Base.{
  distinct, find_last, eqb, if◌then◌else◌, or_else, is_some, length, find?, any, filter, Method,
  pure, throw, modify, get, reject_if, or_throw, when, ℕ, ◌-◌, ◌/◌, String, Bool, true, false, not,
  ◌&&◌, Option, none, some, List, [], ◌∷◌, map, ◌==◌, resource_not_found, untyped_error,
  bad_request, ◌>>=◌, ◌>>◌,
}
use recommendation_trip_plat.Base.Repository.{Repository}

-- entities/user-role.entity.ts, with the columns of the base entity.
pub record UserRole : Type 0 where
  pub id : String
  pub user_id : String
  pub role_id : String
  pub is_primary : Bool
  pub created_at : ℕ
  pub deleted_at : Option ℕ

-- entities/role.entity.ts
pub record Role : Type 0 where
  pub id : String
  pub code : String

-- The tables: `role_code` is the code of the role that a mapping is joined with, and `new_id` the
-- identifier that the next insert gets.
pub record RoleWorld (S : Type 0) : Type 0 where
  pub mappings : Repository S UserRole
  pub user_exists : String → S → Bool
  pub roles_by_code : List String → S → List Role
  pub role_code : String → S → String
  pub new_id : S → String

abbrev pub is_active : UserRole → Bool
is_active mapping = not (is_some mapping.deleted_at)

abbrev pub of_user : String → UserRole → Bool
of_user user_id mapping = mapping.user_id == user_id

abbrev pub active_of : String → UserRole → Bool
active_of user_id mapping = of_user user_id mapping && is_active mapping

abbrev pub has_id : String → UserRole → Bool
has_id id mapping = mapping.id == id

abbrev pub with_role : Role → UserRole → Bool
with_role role mapping = mapping.role_id == role.id

module _ {S : Type 0} (world : RoleWorld S) where
  abbrev pub code_of : S → UserRole → String
  code_of s mapping = world.role_code mapping.role_id s

  abbrev pub has_code : S → String → UserRole → Bool
  has_code s code mapping = code_of s mapping == code

  -- `getMappingsWithRoles` and `getMappingsWithRolesIncludingDeleted`
  unfoldable pub mappings_with_roles : String → S → List UserRole
  mappings_with_roles user_id s = world.mappings.find (active_of user_id) s

  unfoldable pub mappings_including_deleted : String → S → List UserRole
  mappings_including_deleted user_id s = world.mappings.find (of_user user_id) s

  unfoldable pub role_codes_by_user_id : String → S → List String
  unfolding mappings_with_roles
  role_codes_by_user_id user_id s = map (code_of s) (mappings_with_roles user_id s)

  unfoldable pub assert_user_exists : String → Method S (Unit {0})
  assert_user_exists user_id = do
    s ← get
    reject_if (not (world.user_exists user_id s)) (resource_not_found "RESOURCE_NOT_FOUND")

  -- The two updates: no active mapping of the user is primary, then the target is.
  unfoldable pub make_primary : String → UserRole → S → S
  make_primary user_id target s =
      world.mappings.update (has_id target.id) (λ m. record m { is_primary = true })
        (world.mappings.update (active_of user_id) (λ m. record m { is_primary = false }) s)

  unfoldable pub update_primary_role : String → String → List UserRole → Method S (Unit {0})
  unfolding make_primary
  update_primary_role user_id code mappings = do
    s ← get
    reject_if (eqb (length mappings) 0) (resource_not_found "RESOURCE_NOT_FOUND")
    target ← or_throw (resource_not_found "RESOURCE_NOT_FOUND") (find? (has_code s code) mappings)
    modify (make_primary user_id target)

  -- The body of the loop over the roles to assign.
  unfoldable pub restore_mapping : UserRole → S → S
  restore_mapping deleted s =
      world.mappings.update (has_id deleted.id) (λ m. record m { is_primary = false })
        (world.mappings.update (has_id deleted.id) (λ m. record m { deleted_at = none }) s)

  unfoldable pub create_mapping : ℕ → String → Role → S → S
  create_mapping now user_id role s =
      world.mappings.insert
        (record {
          id = world.new_id s;
          user_id = user_id;
          role_id = role.id;
          is_primary = false;
          created_at = now;
          deleted_at = none;
        })
        s

  abbrev pub restore_or_create : ℕ → String → Role → Option UserRole → S → S
  unfolding restore_mapping create_mapping
  restore_or_create now user_id role none s = create_mapping now user_id role s
  restore_or_create now user_id role (some deleted) s = restore_mapping deleted s

  unfoldable pub assign_role : ℕ → String → List UserRole → List UserRole → Role → S → S
  unfolding find_last restore_mapping create_mapping
  assign_role now user_id existing deleted role s =
      if any (with_role role) existing
      then s
      else restore_or_create now user_id role (find_last (with_role role) deleted) s

  unfoldable pub assign_roles : ℕ → String → List UserRole → List UserRole → List Role → S → S
  unfolding assign_role
  assign_roles now user_id existing deleted [] s = s
  assign_roles now user_id existing deleted (role ∷ roles) s =
      assign_roles now user_id existing deleted roles
        (assign_role now user_id existing deleted role s)

  abbrev pub code_of_primary : S → List UserRole → Option String
  code_of_primary s mappings = elim (find? (λ m. m.is_primary) mappings) [
    | none ↦ none
    | some m ↦ some (code_of s m)
  ]

  -- The asked primary role, else the one there is, else the first of the assigned ones.
  abbrev pub desired_primary : S → Option String → List UserRole → String → String
  desired_primary s (some code) mappings first = code
  desired_primary s none mappings first = or_else (code_of_primary s mappings) first

  abbrev pub assign_distinct : ℕ → String → List String → Option String → Method S (Unit {0})
  unfolding assign_roles mappings_with_roles mappings_including_deleted update_primary_role
  assign_distinct now user_id [] primary = pure tt
  assign_distinct now user_id (code ∷ codes) primary = do
    s ← get
    let roles = world.roles_by_code (code ∷ codes) s
    reject_if (not (eqb (length roles) (length (code ∷ codes))))
        (resource_not_found "RESOURCE_NOT_FOUND")
    let existing = mappings_with_roles user_id s
    let deleted = filter (λ m. not (is_active m)) (mappings_including_deleted user_id s)
    modify (assign_roles now user_id existing deleted roles)
    merged ← get
    let mappings = mappings_with_roles user_id merged
    update_primary_role user_id (desired_primary merged primary mappings code) mappings

  unfoldable pub assign_roles_by_codes :
      ℕ → String → List String → Option String → Method S (Unit {0})
  unfolding assert_user_exists distinct
  assign_roles_by_codes now user_id codes primary = do
    assert_user_exists user_id
    assign_distinct now user_id (distinct codes) primary

  unfoldable pub remove_all : ℕ → String → S → S
  remove_all now user_id =
      world.mappings.update (of_user user_id) (λ m. record m { deleted_at = some now })

  unfoldable pub replace_roles_by_codes :
      ℕ → String → List String → Option String → Method S (Unit {0})
  unfolding assert_user_exists assign_roles_by_codes remove_all
  replace_roles_by_codes now user_id codes primary = do
    assert_user_exists user_id
    modify (remove_all now user_id)
    when (not (eqb (length codes) 0)) (assign_roles_by_codes now user_id codes primary)

  unfoldable pub set_primary_role_by_code : String → String → Method S (Unit {0})
  unfolding assert_user_exists update_primary_role mappings_with_roles
  set_primary_role_by_code user_id code = do
    assert_user_exists user_id
    s ← get
    update_primary_role user_id code (mappings_with_roles user_id s)

  -- `remainings[0]` is there: the guard has seen another mapping.
  abbrev pub promote_first : String → List UserRole → Method S (Unit {0})
  unfolding update_primary_role
  promote_first user_id [] = throw (untyped_error "TypeError")
  promote_first user_id (m ∷ ms) = do s ← get; update_primary_role user_id (code_of s m) (m ∷ ms)

  unfoldable pub remove_role_by_code : ℕ → String → String → Method S (Unit {0})
  unfolding assert_user_exists mappings_with_roles
  remove_role_by_code now user_id code = do
    assert_user_exists user_id
    s ← get
    let mappings = mappings_with_roles user_id s
    target ← or_throw (resource_not_found "RESOURCE_NOT_FOUND") (find? (has_code s code) mappings)
    reject_if (eqb (length mappings) 1) (bad_request "VALIDATION_FAILED")
    modify (world.mappings.update (has_id target.id) (λ m. record m { deleted_at = some now }))
    when target.is_primary (promote_first user_id (filter (λ m. not (has_id target.id m)) mappings))
