-- ===== src/Accounts/Auth/Tokens.antt =====
-- The laws of the tables of the accounts, and tokens that no request can make valid again.
use recommendation_trip_plat.Base.{
  if◌then◌else◌, Bool-cases, All, All-append, Method, pure, ◌>>◌, Keeps, ℕ, ◌+◌, ◌*◌, String, ◌≡◌,
  refl, sym, subst, inl, inr, Bool, true, false, ◌&&◌, none, some, List, [], ◌∷◌, ◌==◌,
}
use recommendation_trip_plat.Accounts.Auth.{
  parse_expiry_to_seconds, refresh_token, TokenType, UserToken, RegisterDto, LoginDto, AuthWorld,
  is_type, is_unused, find_valid, issue_token, revoke_active_tokens_by_type, generate_token_pair,
  issue_verify_email_token, register, login, refresh_tokens, logout, verify_email_token,
  verify_email,
}
use recommendation_trip_plat.Base.Repository.{RepositoryLaws}
use recommendation_trip_plat.Base.Repository.Laws.{All-change_rows}
use recommendation_trip_plat.Accounts.Roles.{UserRole}
use recommendation_trip_plat.Accounts.Users.{User, find_by_id, find_by_email}

-- The tables are apart: a write to another one leaves the tokens alone, and so does a notification.
pub record AuthWorldLaws {S : Type 0} (world : AuthWorld S) : Type 1 where
  pub table : RepositoryLaws world.tokens
  pub accounts : RepositoryLaws world.accounts.users
  pub tokens_insert_user :
      (r : User) (s : S) → table.rows (world.accounts.users.insert r s) ≡ table.rows s
  pub tokens_update_user :
      (p : User → Bool) (f : User → User) (s : S)
      → table.rows (world.accounts.users.update p f s) ≡ table.rows s
  pub tokens_insert_mapping :
      (r : UserRole) (s : S) → table.rows (world.roles.mappings.insert r s) ≡ table.rows s
  pub tokens_update_mapping :
      (p : UserRole → Bool) (f : UserRole → UserRole) (s : S)
      → table.rows (world.roles.mappings.update p f s) ≡ table.rows s
  pub tokens_notify :
      (to name raw : String) (s : S)
      → table.rows (world.notify_verify_email to name raw s) ≡ table.rows s
  pub users_update_token :
      (p : UserToken → Bool) (f : UserToken → UserToken) (s : S)
      → accounts.rows (world.tokens.update p f s) ≡ accounts.rows s

pub data AuthRequest : Type 0 where
  register_request : RegisterDto → AuthRequest
  login_request : LoginDto → AuthRequest
  refresh_request verify_request logout_request : String → AuthRequest

module _ {S : Type 0} (world : AuthWorld S) where
  abbrev pub forget : {A : Type 0} → Method S A → Method S (Unit {0})
  forget m = m >> pure tt

  unfoldable pub handle_auth : AuthRequest → String → ℕ → Method S (Unit {0})
  unfolding register login refresh_tokens verify_email_token logout
  handle_auth (register_request dto) random now = register world random dto now
  handle_auth (login_request dto) random now = forget (login world random dto now)
  handle_auth (refresh_request raw) random now = forget (refresh_tokens world random raw now)
  handle_auth (verify_request raw) random now = verify_email_token world raw now
  handle_auth (logout_request user_id) random now = logout world user_id now

module _ {S : Type 0} (world : AuthWorld S) (laws : AuthWorldLaws world)
    (p : UserToken → Bool) where
  -- The tokens that the test picks out are all revoked or consumed.
  unfoldable pub Blocked : S → Type 0
  Blocked s = All (λ t. p t ≡ true → is_unused t ≡ false) (laws.table.rows s)

  pub same-Blocked : (s t : S) → laws.table.rows t ≡ laws.table.rows s → Blocked s → Blocked t
  unfolding Blocked
  same-Blocked s t e h = subst (All (λ t. p t ≡ true → is_unused t ≡ false)) (sym e) h

  pub update-Blocked :
      (q : UserToken → Bool) (f : UserToken → UserToken) (s : S)
      → ((t : UserToken) → is_unused (f t) ≡ false)
      → Blocked s
      → Blocked (world.tokens.update q f s)
  unfolding Blocked
  update-Blocked q f s k h =
      subst (All (λ t. p t ≡ true → is_unused t ≡ false)) (sym (laws.table.rows_update q f s)) (
        All-change_rows (λ t. p t ≡ true → is_unused t ≡ false)
          (λ t. p t ≡ true → is_unused t ≡ false) q f (laws.table.rows s) step h)
    where
      step :
          (t : UserToken)
          → (p t ≡ true → is_unused t ≡ false)
          → p (if q t then f t else t) ≡ true
          → is_unused (if q t then f t else t) ≡ false
      step t k' = elim (Bool-cases (q t)) [ inl e ↦ rw e (λ _. k t) | inr e ↦ rw e k' ]

  issue_token-Blocked :
      (type : TokenType) (user_id raw : String) (expires_at : ℕ) (s : S)
      → ((t : UserToken)
          → t.token_type ≡ type
          → t.user_id ≡ user_id
          → t.token_hash ≡ world.hash_token raw
          → p t ≡ false)
      → Blocked s
      → Blocked (issue_token world type user_id raw expires_at s)
  unfolding issue_token Blocked
  issue_token-Blocked type user_id raw expires_at s other h =
      let t : UserToken = record {
        id = world.new_token_id s;
        user_id = user_id;
        token_hash = world.hash_token raw;
        token_type = type;
        expires_at = expires_at;
        last_used_at = none;
        revoked_at = none;
        consumed_at = none;
      } in
      subst (All (λ t. p t ≡ true → is_unused t ≡ false)) (sym (laws.table.rows_insert t s)) (
        All-append (λ t. p t ≡ true → is_unused t ≡ false) (laws.table.rows s) (t ∷ []) h
          ((λ e. let no : p t ≡ false = other t refl refl refl in cc), tt))

  -- A random token of the user with the type is none that the test picks out.
  abbrev pub Harmless : String → TokenType → String → Type 0
  Harmless random type user_id =
      (t : UserToken)
      → t.token_type ≡ type
      → t.user_id ≡ user_id
      → t.token_hash ≡ world.hash_token random
      → p t ≡ false

  pub generate_token_pair-Blocked :
      (random user_id email : String) (codes : List String) (now : ℕ)
      → Harmless random refresh_token user_id
      → Keeps Blocked (generate_token_pair world random user_id email codes now)
  unfolding generate_token_pair
  generate_token_pair-Blocked random user_id email codes now k s h =
      issue_token-Blocked refresh_token user_id random
        (now + parse_expiry_to_seconds world.token_config.refresh_expires_in * 1000) s
        (λ t a b c. k t a b c) h

  -- For whom a request may issue a refresh token.
  abbrev pub MayIssue : AuthRequest → String → ℕ → S → Type 0
  MayIssue (login_request dto) random now s =
      (u : User)
      → find_by_email world.accounts dto.email s ≡ some u
      → Harmless random refresh_token u.id
  MayIssue (refresh_request raw) random now s =
      (t : UserToken) (u : User)
      → find_valid world refresh_token raw now s ≡ some t
      → find_by_id world.accounts t.user_id s ≡ some u
      → Harmless random refresh_token u.id
  MayIssue _ random now s = Unit

  pub revoke-Blocked :
      (user_id : String) (type : TokenType) (now : ℕ) (s : S)
      → Blocked s
      → Blocked (revoke_active_tokens_by_type world user_id type now s)
  unfolding revoke_active_tokens_by_type
  revoke-Blocked user_id type now s h =
      update-Blocked (λ t. (t.user_id == user_id) && is_type t.token_type type && is_unused t)
        (λ t. record t { revoked_at = some now }) s (λ t. refl) h

  pub issue_verify_email_token-Blocked :
      (raw user_id email name : String) (now : ℕ) (s : S)
      → Harmless raw verify_email user_id
      → Blocked s
      → Blocked (issue_verify_email_token world raw user_id email name now s)
  unfolding issue_verify_email_token
  issue_verify_email_token-Blocked raw user_id email name now s k h =
      let t : S = revoke_active_tokens_by_type world user_id verify_email now s in
      let u : S =
        issue_token world verify_email user_id raw (now + world.verify_token_ttl_seconds * 1000)
          t in
      same-Blocked u (world.notify_verify_email email name raw u)
        (laws.tokens_notify email name raw u)
        (issue_token-Blocked verify_email user_id raw (now + world.verify_token_ttl_seconds * 1000)
          t k (revoke-Blocked user_id verify_email now s h))
