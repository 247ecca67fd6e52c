-- ===== src/Accounts/Auth.antt =====
-- core/auth/auth.service.ts, with modules/user/entities/user-token.entity.ts. The tables, the hashes,
-- the random tokens, the signature of a token and the notifications are arguments; the clock is read
-- once in a request. Numbers in the texts of expiries stay below 2 ^ 53.
pub mod Expiry
pub mod Tokens
pub mod Blocking
pub mod Validity
pub mod Sessions
pub mod Verification
use recommendation_trip_plat.Base.{
  ltb, if◌then◌else◌, is_some, AppError, Method, pure, modify, get, reject_if, or_throw, ℕ, ◌+◌,
  ◌-◌, ◌*◌, ◌/◌, String, Bool, true, false, not, ◌&&◌, ◌||◌, Option, none, some, List, [], ◌∷◌,
  ◌==◌, bad_request, unauthorized, conflict, ◌>>=◌, ◌>>◌,
}
use recommendation_trip_plat.Base.Repository.{Repository}
use recommendation_trip_plat.Accounts.Roles.{
  RoleWorld, role_codes_by_user_id, assign_roles_by_codes,
}
use recommendation_trip_plat.Accounts.Users.{
  User, UserWorld, find_by_id, find_by_email, create_local_user, activate_user,
}
use recommendation_trip_plat.Accounts.Auth.Expiry.{parse_expiry_to_seconds}

pub data TokenType : Type 0 where
  refresh_token verify_email : TokenType

pub record UserToken : Type 0 where
  pub id : String
  pub user_id : String
  pub token_hash : String
  pub token_type : TokenType
  pub expires_at : ℕ
  pub last_used_at : Option ℕ
  pub revoked_at : Option ℕ
  pub consumed_at : Option ℕ

pub record TokenConfig : Type 0 where
  pub access_secret : String
  pub access_expires_in : String
  pub refresh_expires_in : String

pub record AccessPayload : Type 0 where
  pub sub : String
  pub email : String
  pub role_code : Option String
  pub role_codes : List String

pub record TokenPair : Type 0 where
  pub access_token : String
  pub refresh_token : String
  pub expires_in : ℕ

pub record RegisterDto : Type 0 where
  pub email : String
  pub username : String
  pub password : String
  pub password_confirmation : String

pub record LoginDto : Type 0 where
  pub email : String
  pub password : String

pub record AuthWorld (S : Type 0) : Type 0 where
  pub accounts : UserWorld S
  pub roles : RoleWorld S
  pub tokens : Repository S UserToken
  pub new_token_id : S → String
  pub hash_token : String → String
  pub hashing : String → S → String
  pub compare_password : String → String → Bool
  pub sign : AccessPayload → String → String → String
  -- To whom, the name of the user, and the token.
  pub notify_verify_email : String → String → String → S → S
  pub token_config : TokenConfig
  pub verify_token_ttl_seconds : ℕ
  pub default_role_code : String

abbrev pub is_type : TokenType → TokenType → Bool
is_type refresh_token refresh_token = true
is_type verify_email verify_email = true
is_type _ _ = false

-- Neither revoked nor consumed.
abbrev pub is_unused : UserToken → Bool
is_unused t = not (is_some t.revoked_at) && not (is_some t.consumed_at)

-- The `where` of the look-up of a token.
abbrev pub is_valid : TokenType → String → ℕ → UserToken → Bool
is_valid type hash now t =
    is_type t.token_type type && (t.token_hash == hash) && is_unused t && ltb now t.expires_at

abbrev pub has_token_id : String → UserToken → Bool
has_token_id id t = t.id == id

abbrev pub unauthorized_error : AppError
unauthorized_error = unauthorized "UNAUTHORIZED"

abbrev pub first_code : List String → Option String
first_code [] = none
first_code (c ∷ codes) = some c

-- The user whose password is asked for, and the stored hash.
abbrev pub with_password : Option User → Option (User × String)
with_password none = none
with_password (some user) = elim user.password_hash [
  | none ↦ none
  | some hash ↦ if hash == "" then none else some (user, hash)
]

abbrev pub invalid_credentials : AppError
invalid_credentials = unauthorized "INVALID_CREDENTIALS"

abbrev pub may_refresh : Option User → Option User
may_refresh none = none
may_refresh (some user) = if not user.is_active || is_some user.deleted_at then none else some user

module _ {S : Type 0} (world : AuthWorld S) where
  unfoldable pub find_valid : TokenType → String → ℕ → S → Option UserToken
  find_valid type raw now s = world.tokens.find_one (is_valid type (world.hash_token raw) now) s

  -- `save` of a token that was read.
  unfoldable pub save_token : UserToken → S → S
  save_token t = world.tokens.update (has_token_id t.id) (λ _. t)

  unfoldable pub issue_token : TokenType → String → String → ℕ → S → S
  issue_token type user_id raw expires_at s =
      world.tokens.insert
        (record {
          id = world.new_token_id s;
          user_id = user_id;
          token_hash = world.hash_token raw;
          token_type = type;
          expires_at = expires_at;
          last_used_at = none;
          revoked_at = none;
          consumed_at = none;
        })
        s

  unfoldable pub revoke_active_tokens_by_type : String → TokenType → ℕ → S → S
  revoke_active_tokens_by_type user_id type now =
      world.tokens.update (λ t. (t.user_id == user_id) && is_type t.token_type type && is_unused t)
        (λ t. record t { revoked_at = some now })

  unfoldable pub generate_token_pair :
      String → String → String → List String → ℕ → Method S TokenPair
  unfolding issue_token
  generate_token_pair raw user_id email role_codes now = do
    modify (
        issue_token refresh_token user_id raw
          (now + parse_expiry_to_seconds world.token_config.refresh_expires_in * 1000))
    pure (record {
      access_token =
          world.sign
            (record {
              sub = user_id;
              email = email;
              role_code = first_code role_codes;
              role_codes = role_codes;
            })
            world.token_config.access_secret world.token_config.access_expires_in;
      refresh_token = raw;
      expires_in = parse_expiry_to_seconds world.token_config.access_expires_in;
    })

  unfoldable pub issue_verify_email_token : String → String → String → String → ℕ → S → S
  unfolding issue_token revoke_active_tokens_by_type
  issue_verify_email_token raw user_id email username now s =
      world.notify_verify_email email username raw (
        issue_token verify_email user_id raw (now + world.verify_token_ttl_seconds * 1000)
          (revoke_active_tokens_by_type user_id verify_email now s))

  unfoldable pub register : String → RegisterDto → ℕ → Method S (Unit {0})
  unfolding issue_verify_email_token find_by_email create_local_user assign_roles_by_codes
  register random dto now = do
    s ← get
    reject_if (is_some (find_by_email world.accounts dto.email s)) (conflict "CONFLICT")
    reject_if (not (dto.password == dto.password_confirmation)) (bad_request "VALIDATION_FAILED")
    created ← create_local_user world.accounts (record {
      email = dto.email;
      password_hash = world.hashing dto.password s;
      username = some dto.username;
      is_active = some false;
    })
    assign_roles_by_codes world.roles now created.id (world.default_role_code ∷ []) none
    modify (issue_verify_email_token random created.id dto.email dto.username now)

  unfoldable pub login : String → LoginDto → ℕ → Method S (User × TokenPair)
  unfolding generate_token_pair find_by_email role_codes_by_user_id
  login random dto now = do
    s ← get
    found ← or_throw invalid_credentials (with_password (find_by_email world.accounts dto.email s))
    reject_if (not (world.compare_password dto.password found.1)) invalid_credentials
    reject_if (not found.0.is_active) unauthorized_error
    reject_if (is_some found.0.deleted_at) (unauthorized "RESOURCE_NOT_FOUND")
    tokens ←
        generate_token_pair random found.0.id found.0.email
          (role_codes_by_user_id world.roles found.0.id s) now
    pure (found.0, tokens)

  unfoldable pub refresh_tokens : String → String → ℕ → Method S TokenPair
  unfolding find_valid save_token generate_token_pair find_by_id role_codes_by_user_id
  refresh_tokens random raw now = do
    s ← get
    token ← or_throw unauthorized_error (find_valid refresh_token raw now s)
    user ← or_throw unauthorized_error (may_refresh (find_by_id world.accounts token.user_id s))
    modify (save_token (record token { last_used_at = some now; revoked_at = some now }))
    t ← get
    generate_token_pair random user.id user.email (role_codes_by_user_id world.roles user.id t) now

  unfoldable pub logout : String → ℕ → Method S (Unit {0})
  logout user_id now = modify (
      world.tokens.update
        (λ t.
          (t.user_id == user_id)
          && is_type t.token_type refresh_token
          && not (is_some t.revoked_at))
        (λ t. record t { revoked_at = some now }))

  unfoldable pub verify_email_token : String → ℕ → Method S (Unit {0})
  unfolding find_valid save_token activate_user revoke_active_tokens_by_type
  verify_email_token raw now = do
    s ← get
    token ← or_throw (bad_request "VALIDATION_FAILED") (find_valid verify_email raw now s)
    modify (save_token (record token { consumed_at = some now; last_used_at = some now }))
    activate_user world.accounts token.user_id
    modify (revoke_active_tokens_by_type token.user_id verify_email now)
