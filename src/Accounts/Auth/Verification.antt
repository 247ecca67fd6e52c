-- ===== src/Accounts/Auth/Verification.antt =====
-- The link that verifies an address of mail: it makes the account active, and works once.
use recommendation_trip_plat.Base.{
  Bool-cases, Option-cases, All, All-every, after, ℕ, String, ◌≡◌, refl, sym, ap, subst, ◌∙◌, inl,
  inr, true, false, ◌&&◌, none, some, arith, ◌==◌, resource_not_found, bad_request, done, fail,
}
use recommendation_trip_plat.Base.Repository.Laws.{All-change_rows}
use recommendation_trip_plat.Accounts.Users.{has_user_id, find_by_id, update, activate_user}
use recommendation_trip_plat.Accounts.Auth.{
  UserToken, AuthWorld, is_type, is_unused, find_valid, save_token, revoke_active_tokens_by_type,
  verify_email_token, verify_email,
}
use recommendation_trip_plat.Accounts.Auth.Tokens.{
  AuthWorldLaws, Blocked, same-Blocked, revoke-Blocked,
}
use recommendation_trip_plat.Accounts.Auth.Validity.{
  hashed, is_valid-hash, Requests, NotAgain, UniqueHashes, Blocked-find_valid, save_token-Blocked,
  hashed_by_requests,
}

module _ {S : Type 0} (world : AuthWorld S) (laws : AuthWorldLaws world) where
  -- Every row of the user is active.
  abbrev pub Activated : String → S → Type 0
  Activated id s = All (λ u. has_user_id id u ≡ true → u.is_active ≡ true) (laws.accounts.rows s)

  activated :
      (id : String) (now : ℕ) (z : S)
      → Activated id (
          revoke_active_tokens_by_type world id verify_email now
            (world.accounts.users.update (has_user_id id) (λ u. record u { is_active = true }) z))
  unfolding revoke_active_tokens_by_type
  activated id now z =
      subst (All (λ u. has_user_id id u ≡ true → u.is_active ≡ true))
        (sym (
          laws.users_update_token
            (λ t. (t.user_id == id) && is_type t.token_type verify_email && is_unused t)
            (λ t. record t { revoked_at = some now })
            (world.accounts.users.update (has_user_id id) (λ u. record u { is_active = true }) z)
          ∙ laws.accounts.rows_update (has_user_id id) (λ u. record u { is_active = true }) z))
        (All-change_rows (λ u. Unit {0}) (λ u. has_user_id id u ≡ true → u.is_active ≡ true)
          (has_user_id id) (λ u. record u { is_active = true }) (laws.accounts.rows z)
          (λ u _. elim (Bool-cases (has_user_id id u)) [
            | inl e ↦ rw e (λ h. refl)
            | inr e ↦ rw e (λ h. let f : true ≡ false = sym h ∙ e in cc)
          ])
          (All-every (λ u. Unit {0}) (λ u. tt) (laws.accounts.rows z)))

  verify_email_token-Blocked :
      (raw : String) (now : ℕ) (s t : S)
      → UniqueHashes world laws s
      → verify_email_token world raw now s ≡ done tt t
      → Blocked world laws (hashed (world.hash_token raw)) t
        × ((x : UserToken) × (find_valid world verify_email raw now s ≡ some x)
            × Activated x.user_id t)
  unfolding verify_email_token activate_user update
  verify_email_token-Blocked raw now s t unique returns =
      elim (Option-cases (find_valid world verify_email raw now s)) [
        | inl miss ↦
            let q : fail (bad_request "VALIDATION_FAILED") s ≡ done tt t = rw miss at returns in cc
        | inr (x, found) ↦ elim (Option-cases (find_by_id world.accounts x.user_id (consumed x))) [
          | inl gone ↦
              let q : fail (resource_not_found "RESOURCE_NOT_FOUND") (consumed x) ≡ done tt t =
                rw gone at (rw found at returns) in
              cc
          | inr (a, there) ↦
              let q : done tt (final x) ≡ done tt t = rw there at (rw found at returns) in
              subst
                (λ r.
                  Blocked world laws (hashed (world.hash_token raw)) r
                  × ((y : UserToken) × (find_valid world verify_email raw now s ≡ some y)
                      × Activated y.user_id r))
                (ap after q) (blocked x found, (x, found, activated x.user_id now (consumed x)))
        ]
      ]
    where
      consumed : UserToken → S
      consumed x = save_token world (record x { consumed_at = some now; last_used_at = some now }) s

      active : UserToken → S
      active x =
          world.accounts.users.update (has_user_id x.user_id) (λ u. record u { is_active = true })
            (consumed x)

      final : UserToken → S
      final x = revoke_active_tokens_by_type world x.user_id verify_email now (active x)

      blocked :
          (x : UserToken)
          → find_valid world verify_email raw now s ≡ some x
          → Blocked world laws (hashed (world.hash_token raw)) (final x)
      blocked x found =
          revoke-Blocked world laws (hashed (world.hash_token raw)) x.user_id verify_email now
            (active x)
            (same-Blocked world laws (hashed (world.hash_token raw)) (consumed x) (active x)
              (laws.tokens_update_user (has_user_id x.user_id) (λ u. record u { is_active = true })
                (consumed x))
              (save_token-Blocked world laws verify_email raw now s x
                (record x { consumed_at = some now; last_used_at = some now }) unique found refl
                (ground arith)))

  -- A verification that returns has made the account of its token active and has used the token up:
  -- whatever requests come after it, at any time, it is refused and changes nothing, if the random
  -- tokens of those requests have other hashes.
  pub verify_once :
      (raw : String) (now : ℕ) (s t : S)
      → UniqueHashes world laws s
      → verify_email_token world raw now s ≡ done tt t
      → (u : S) → Requests world (NotAgain world raw) t u
      → (later : ℕ)
      → ((x : UserToken) × (find_valid world verify_email raw now s ≡ some x)
          × Activated x.user_id t)
        × (verify_email_token world raw later u ≡ fail (bad_request "VALIDATION_FAILED") u)
  unfolding verify_email_token
  verify_once raw now s t unique returns u run later =
      let (b, done_for) = verify_email_token-Blocked raw now s t unique returns in
      let none_valid : find_valid world verify_email raw later u ≡ none =
        Blocked-find_valid world laws (hashed (world.hash_token raw)) verify_email raw later u
          (λ x v. is_valid-hash verify_email (world.hash_token raw) later x v)
          (hashed_by_requests world laws raw t u run b) in
      (done_for, rw none_valid refl)
