-- ===== src/Accounts/Users.antt =====
-- modules/user: users.service.ts over users.repository.ts, with entities/user.entity.ts, the two DTOs
-- of updates and the profile of interfaces/user-identity.interface.ts.
use recommendation_trip_plat.Base.{
  or_else, is_some, AppError, Method, pure, modify, get, ◌>>=◌, or_throw, ℕ, String, Bool, true,
  false, not, ◌&&◌, Option, none, some, ◌==◌, resource_not_found, done,
}
use recommendation_trip_plat.Base.Repository.{Repository}

pub record User : Type 0 where
  pub id : String
  pub email : String
  pub password_hash : Option String
  pub username : Option String
  pub avatar_url : Option String
  pub gender : Option String
  pub birth_date : Option String
  pub location : Option String
  pub bio : Option String
  pub is_active : Bool
  pub provider : Option String
  pub provider_id : Option String
  pub deleted_at : Option ℕ

pub record UpdateUser : Type 0 where
  pub username : Option String
  pub avatar_url : Option String
  pub gender : Option String
  pub birth_date : Option String
  pub location : Option String
  pub bio : Option String

pub record AdminUpdateUser : Type 0 where
  pub email : Option String
  pub profile : UpdateUser
  pub is_active : Option Bool

pub record LocalUser : Type 0 where
  pub email : String
  pub password_hash : String
  pub username : Option String
  pub is_active : Option Bool

pub record ExternalUserProfile : Type 0 where
  pub provider : String
  pub provider_id : String
  pub email : String
  pub username : Option String
  pub avatar_url : Option String

-- The table of the users, and the identifier that the next insert gets.
pub record UserWorld (S : Type 0) : Type 0 where
  pub users : Repository S User
  pub new_user_id : S → String

-- `{ ...dto }` in an update: a field that is undefined leaves its column.
abbrev pub assign {ℓ} : {A : Type ℓ} → Option A → Option A → Option A
assign none column = column
assign (some a) column = some a

unfoldable pub with_profile : UpdateUser → User → User
with_profile dto user = record user {
  username = assign dto.username user.username;
  avatar_url = assign dto.avatar_url user.avatar_url;
  gender = assign dto.gender user.gender;
  birth_date = assign dto.birth_date user.birth_date;
  location = assign dto.location user.location;
  bio = assign dto.bio user.bio;
}

unfoldable pub with_admin_update : AdminUpdateUser → User → User
unfolding with_profile
with_admin_update dto user = record (with_profile dto.profile user) {
  email = or_else dto.email user.email;
  is_active = or_else dto.is_active user.is_active;
}

abbrev pub is_present : User → Bool
is_present user = not (is_some user.deleted_at)

abbrev pub has_user_id : String → User → Bool
has_user_id id user = user.id == id

abbrev pub has_text : String → Option String → Bool
has_text text none = false
has_text text (some column) = column == text

abbrev not_found : AppError
not_found = resource_not_found "RESOURCE_NOT_FOUND"

-- The columns that a new row has unless they are given.
abbrev pub new_user : String → User
new_user email = record {
  id = "";
  email = email;
  password_hash = none;
  username = none;
  avatar_url = none;
  gender = none;
  birth_date = none;
  location = none;
  bio = none;
  is_active = true;
  provider = none;
  provider_id = none;
  deleted_at = none;
}

module _ {S : Type 0} (world : UserWorld S) where
  unfoldable pub find_by_id : String → S → Option User
  find_by_id id s = world.users.find_one (λ u. has_user_id id u && is_present u) s

  unfoldable pub find_by_id_including_deleted : String → S → Option User
  find_by_id_including_deleted id s = world.users.find_one (has_user_id id) s

  unfoldable pub find_by_email : String → S → Option User
  find_by_email email s = world.users.find_one (λ u. (u.email == email) && is_present u) s

  unfoldable pub find_by_provider_id : String → String → S → Option User
  find_by_provider_id provider provider_id s =
      world.users.find_one
        (λ u. has_text provider u.provider && has_text provider_id u.provider_id && is_present u) s

  unfoldable pub create : User → Method S User
  create entity s =
      let user : User = record entity { id = world.new_user_id s } in
      done user (world.users.insert user s)

  -- `update`, which reads the row again.
  unfoldable pub update : String → (User → User) → Method S (Option User)
  unfolding find_by_id
  update id columns s =
      let t = world.users.update (has_user_id id) columns s in done (find_by_id id t) t

  unfoldable pub soft_delete : ℕ → String → S → S
  soft_delete now id = world.users.update (has_user_id id) (λ u. record u { deleted_at = some now })

  unfoldable pub restore : String → S → S
  restore id = world.users.update (has_user_id id) (λ u. record u { deleted_at = none })

  unfoldable pub create_local_user : LocalUser → Method S User
  unfolding create
  create_local_user input = create (record (new_user input.email) {
    password_hash = some input.password_hash;
    username = input.username;
    is_active = or_else input.is_active true;
  })

  -- A user who is there, or an error.
  unfoldable pub get_current_user_profile : String → Method S User
  unfolding find_by_id
  get_current_user_profile id = do s ← get; or_throw not_found (find_by_id id s)

  unfoldable pub activate_user : String → Method S (Unit {0})
  unfolding find_by_id update
  activate_user id = do
    s ← get
    _ ← or_throw not_found (find_by_id id s)
    _ ← update id (λ u. record u { is_active = true })
    pure tt

  unfoldable pub update_profile : String → UpdateUser → Method S User
  unfolding find_by_id update with_profile
  update_profile id dto = do
    s ← get
    _ ← or_throw not_found (find_by_id id s)
    updated ← update id (with_profile dto)
    or_throw not_found updated

  unfoldable pub update_user : String → AdminUpdateUser → Method S User
  unfolding find_by_id update with_admin_update
  update_user id dto = do
    s ← get
    _ ← or_throw not_found (find_by_id id s)
    updated ← update id (with_admin_update dto)
    or_throw not_found updated

  unfoldable pub delete_user : ℕ → String → Method S (Unit {0})
  unfolding find_by_id soft_delete
  delete_user now id = do
    s ← get
    _ ← or_throw not_found (find_by_id id s)
    modify (soft_delete now id)

  unfoldable pub restore_user : String → Method S (Unit {0})
  unfolding find_by_id_including_deleted restore
  restore_user id = do
    s ← get
    _ ← or_throw not_found (find_by_id_including_deleted id s)
    modify (restore id)

  -- `save` of the read entity, which has every column but the hash of the password.
  abbrev pub link_identity : ExternalUserProfile → User → Method S User
  link_identity profile existing s =
      let linked : User = record existing {
        provider = some profile.provider;
        provider_id = some profile.provider_id;
        avatar_url = assign existing.avatar_url profile.avatar_url;
      } in
      done linked (
        world.users.update (has_user_id existing.id)
          (λ u. record linked { password_hash = u.password_hash }) s)

  abbrev pub link_or_create : ExternalUserProfile → Option User → Method S User
  unfolding create
  link_or_create profile (some existing) = link_identity profile existing
  link_or_create profile none = create (record (new_user profile.email) {
    username = profile.username;
    avatar_url = profile.avatar_url;
    provider = some profile.provider;
    provider_id = some profile.provider_id;
  })

  abbrev pub find_or_link : ExternalUserProfile → Option User → Method S User
  unfolding find_by_email
  find_or_link profile (some existing) = pure existing
  find_or_link profile none = do s ← get; link_or_create profile (find_by_email profile.email s)

  unfoldable pub find_or_create_from_external_identity : ExternalUserProfile → Method S User
  unfolding find_by_provider_id
  find_or_create_from_external_identity profile = do
    s ← get
    find_or_link profile (find_by_provider_id profile.provider profile.provider_id s)
