-- ===== src/Accounts/Auth/Blocking.antt =====
-- The requests to the authentication keep blocked tokens blocked.
use recommendation_trip_plat.Accounts.Auth.{
  refresh_token, UserToken, TokenPair, RegisterDto, LoginDto, AuthWorld, is_type, has_token_id,
  unauthorized_error, with_password, invalid_credentials, find_valid, save_token,
  revoke_active_tokens_by_type, generate_token_pair, issue_verify_email_token, register, login,
  refresh_tokens, logout, verify_email_token, verify_email,
}
use recommendation_trip_plat.Base.{
  is_some, Bool-cases, Option-cases, Method, pure, after, modify, get, ◌>>=◌, ◌>>◌, reject_if,
  Keeps, after-continue, ℕ, String, ◌≡◌, refl, ap, inl, inr, Bool, true, false, not, ◌&&◌, ◌||◌,
  Option, none, some, [], ◌∷◌, arith, ◌==◌, unauthorized,
}
use recommendation_trip_plat.Accounts.Roles.{assign_roles_by_codes, role_codes_by_user_id}
use recommendation_trip_plat.Accounts.Roles.Frame.{assign_roles_by_codes-frame}
use recommendation_trip_plat.Accounts.Users.{
  User, has_user_id, find_by_id, find_by_email, update, create_local_user, activate_user,
}
use recommendation_trip_plat.Accounts.Auth.Tokens.{
  AuthWorldLaws, AuthRequest, handle_auth, Blocked, same-Blocked, update-Blocked, Harmless,
  generate_token_pair-Blocked, MayIssue, revoke-Blocked, issue_verify_email_token-Blocked,
  register_request, login_request, refresh_request, verify_request, logout_request,
}

module _ {S : Type 0} (world : AuthWorld S) (laws : AuthWorldLaws world)
    (p : UserToken → Bool) where
  abbrev Kept : S → Type 0
  Kept s = Blocked world laws p s

  register-Blocked :
      (random : String) (dto : RegisterDto) (now : ℕ)
      → ((user_id : String) → Harmless world laws p random verify_email user_id)
      → Keeps Kept (register world random dto now)
  unfolding register
  register-Blocked random dto now k s h =
      elim (Bool-cases (is_some (find_by_email world.accounts dto.email s))) [
        | inl e ↦ rw e h
        | inr e ↦ elim (Bool-cases (not (dto.password == dto.password_confirmation))) [
          | inl d ↦ rw e (rw d h)
          | inr d ↦ rw e (rw d (made (world.hashing dto.password s)))
        ]
      ]
    where
      made :
          (hash : String)
          → Kept (
              after (
                ((create_local_user world.accounts (record {
                  email = dto.email;
                  password_hash = hash;
                  username = some dto.username;
                  is_active = some false;
                }))
                    >>= (λ created.
                        assign_roles_by_codes world.roles now created.id
                          (world.default_role_code ∷ [])
                          none
                        >> modify (
                            issue_verify_email_token world random created.id dto.email dto.username
                              now)))
                  s))
      made hash =
          let id : String = world.accounts.new_user_id s in
          let t : S = after (
            create_local_user world.accounts
              (record {
                email = dto.email;
                password_hash = hash;
                username = some dto.username;
                is_active = some false;
              })
              s) in
          after-continue Kept
            (assign_roles_by_codes world.roles now id (world.default_role_code ∷ []) none t)
            (λ _. modify (issue_verify_email_token world random id dto.email dto.username now))
            (assign_roles_by_codes-frame world.roles Kept
              (λ r z.
                same-Blocked world laws p z (world.roles.mappings.insert r z)
                  (laws.tokens_insert_mapping r z))
              (λ q f z.
                same-Blocked world laws p z (world.roles.mappings.update q f z)
                  (laws.tokens_update_mapping q f z))
              now id (world.default_role_code ∷ []) none t
              (same-Blocked world laws p s t (laws.tokens_insert_user _ s) h))
            (λ _ z hz.
              issue_verify_email_token-Blocked world laws p random id dto.email dto.username now z
                (k id) hz)

  with_password-user :
      (o : Option User) (found : User × String) → with_password o ≡ some found → o ≡ some found.0
  with_password-user none found e = cc
  with_password-user (some u) found e = elim (Option-cases u.password_hash) [
    | inl miss ↦ let q : none ≡ some found = rw miss at e in cc
    | inr (hash, there) ↦ elim (Bool-cases (hash == "")) [
      | inl empty ↦ let q : none ≡ some found = rw empty at (rw there at e) in cc
      | inr given ↦
          let q : some (u, hash) ≡ some found = rw given at (rw there at e) in
          let same : (u, hash) ≡ found = cc in ap (λ (z : User × String). some z.0) same
    ]
  ]

  login-Blocked :
      (random : String) (dto : LoginDto) (now : ℕ) (s : S)
      → MayIssue world laws p (login_request dto) random now s
      → Kept s
      → Kept (after (login world random dto now s))
  unfolding login
  login-Blocked random dto now s k h =
      elim (Option-cases (with_password (find_by_email world.accounts dto.email s))) [
        | inl miss ↦ rw miss h
        | inr (found, e) ↦ rw e (
            checked found
              (k found.0 (with_password-user (find_by_email world.accounts dto.email s) found e))
              (not (world.compare_password dto.password found.1)) (not found.0.is_active)
              (is_some found.0.deleted_at))
      ]
    where
      pairing : User × String → Method S (User × TokenPair)
      pairing found =
          generate_token_pair world random found.0.id found.0.email
            (role_codes_by_user_id world.roles found.0.id s) now
          >>= (λ tokens. pure (found.0, tokens))

      issued :
          (found : User × String)
          → Harmless world laws p random refresh_token found.0.id
          → Kept (after (pairing found s))
      issued found k =
          after-continue Kept {B = User × TokenPair}
            (generate_token_pair world random found.0.id found.0.email
              (role_codes_by_user_id world.roles found.0.id s) now s)
            (λ tokens. pure (found.0, tokens))
            (generate_token_pair-Blocked world laws p random found.0.id found.0.email
              (role_codes_by_user_id world.roles found.0.id s) now k s h)
            (λ _ u hu. hu)

      checked :
          (found : User × String)
          → Harmless world laws p random refresh_token found.0.id
          → (wrong inactive deleted : Bool)
          → Kept (
              after (
                (reject_if wrong invalid_credentials
                    >> (reject_if inactive unauthorized_error
                        >> (reject_if deleted (unauthorized "RESOURCE_NOT_FOUND")
                            >> pairing found)))
                  s))
      checked found k true inactive deleted = h
      checked found k false true deleted = h
      checked found k false false true = h
      checked found k false false false = issued found k

  refresh-Blocked :
      (random raw : String) (now : ℕ) (s : S)
      → MayIssue world laws p (refresh_request raw) random now s
      → Kept s
      → Kept (after (refresh_tokens world random raw now s))
  unfolding refresh_tokens save_token
  refresh-Blocked random raw now s k h =
      elim (Option-cases (find_valid world refresh_token raw now s)) [
        | inl miss ↦ rw miss h
        | inr (t, found) ↦ elim (Option-cases (find_by_id world.accounts t.user_id s)) [
          | inl gone ↦ rw found (rw gone h)
          | inr (u, there) ↦ elim (Bool-cases (not u.is_active || is_some u.deleted_at)) [
            | inl out ↦ rw found (rw there (rw out h))
            | inr ok_user ↦ rw found (rw there (rw ok_user (issued t u (k t u found there))))
          ]
        ]
      ]
    where
      issued :
          (t : UserToken) (u : User)
          → Harmless world laws p random refresh_token u.id
          → Kept (
              after (
                (modify (
                      save_token world
                        (record t { last_used_at = some now; revoked_at = some now }))
                    >> (get >>= (λ z.
                        generate_token_pair world random u.id u.email
                          (role_codes_by_user_id world.roles u.id z)
                          now)))
                  s))
      issued t u k =
          let z : S =
            save_token world (record t { last_used_at = some now; revoked_at = some now }) s in
          generate_token_pair-Blocked world laws p random u.id u.email
            (role_codes_by_user_id world.roles u.id z) now k z
            (update-Blocked world laws p (has_token_id t.id)
              (λ _. record t { last_used_at = some now; revoked_at = some now }) s (λ _. refl) h)

  logout-Blocked : (user_id : String) (now : ℕ) → Keeps Kept (logout world user_id now)
  unfolding logout
  logout-Blocked user_id now s h =
      update-Blocked world laws p
        (λ t.
          (t.user_id == user_id)
          && is_type t.token_type refresh_token
          && not (is_some t.revoked_at))
        (λ t. record t { revoked_at = some now }) s (λ t. refl) h

  pub activate-Blocked : (id : String) → Keeps Kept (activate_user world.accounts id)
  unfolding activate_user update
  activate-Blocked id s h = elim (Option-cases (find_by_id world.accounts id s)) [
    | inl miss ↦ rw miss h
    | inr (u, found) ↦ rw found (
        same-Blocked world laws p s _
          (laws.tokens_update_user (has_user_id id) (λ u. record u { is_active = true }) s) h)
  ]

  verify-Blocked : (raw : String) (now : ℕ) → Keeps Kept (verify_email_token world raw now)
  unfolding verify_email_token save_token
  verify-Blocked raw now s h = elim (Option-cases (find_valid world verify_email raw now s)) [
    | inl miss ↦ rw miss h
    | inr (t, found) ↦ rw found (consumed t)
  ]
    where
      consumed :
          (t : UserToken)
          → Kept (
              after (
                (modify (
                      save_token world
                        (record t { consumed_at = some now; last_used_at = some now }))
                    >> (activate_user world.accounts t.user_id
                        >> modify (revoke_active_tokens_by_type world t.user_id verify_email now)))
                  s))
      consumed t =
          let z : S =
            save_token world (record t { consumed_at = some now; last_used_at = some now }) s in
          after-continue Kept (activate_user world.accounts t.user_id z)
            (λ _. modify (revoke_active_tokens_by_type world t.user_id verify_email now))
            (activate-Blocked t.user_id z (
              update-Blocked world laws p (has_token_id t.id)
                (λ _. record t { consumed_at = some now; last_used_at = some now }) s
                (λ _. ground arith) h))
            (λ _ u hu. revoke-Blocked world laws p t.user_id verify_email now u hu)

  pub handle_auth-Blocked :
      (q : AuthRequest) (random : String) (now : ℕ) (s : S)
      → ((user_id : String) → Harmless world laws p random verify_email user_id)
      → MayIssue world laws p q random now s
      → Kept s
      → Kept (after (handle_auth world q random now s))
  unfolding handle_auth
  handle_auth-Blocked (register_request dto) random now s v k h =
      register-Blocked random dto now v s h
  handle_auth-Blocked (login_request dto) random now s v k h =
      after-continue Kept (login world random dto now s) (λ _. pure tt)
        (login-Blocked random dto now s k h) (λ _ u hu. hu)
  handle_auth-Blocked (refresh_request raw) random now s v k h =
      after-continue Kept (refresh_tokens world random raw now s) (λ _. pure tt)
        (refresh-Blocked random raw now s k h) (λ _ u hu. hu)
  handle_auth-Blocked (verify_request raw) random now s v k h = verify-Blocked raw now s h
  handle_auth-Blocked (logout_request user_id) random now s v k h = logout-Blocked user_id now s h
