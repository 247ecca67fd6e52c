-- ===== src/Accounts/Auth/Sessions.antt =====
-- Sessions: a refresh token is used once, and a logout ends what was open, whatever requests come
-- after.
use recommendation_trip_plat.Accounts.Auth.{
  refresh_token, UserToken, TokenPair, AuthWorld, is_type, is_unused, is_valid, unauthorized_error,
  find_valid, save_token, generate_token_pair, refresh_tokens, logout, verify_email,
}
use recommendation_trip_plat.Base.{
  if◌then◌else◌, is_some, Bool-cases, Option-cases, filter, All, All-every, All-filter, All-map,
  All-zip, after, ℕ, String, ◌≡◌, refl, sym, ap, subst, ◌∙◌, inl, inr, Bool, true, false, not, ◌&&◌,
  ◌||◌, none, some, arith, ◌==◌, eq_iff, done, fail,
}
use recommendation_trip_plat.Base.Repository.Laws.{All-test, All-change_rows}
use recommendation_trip_plat.Accounts.Users.{User, is_present, has_user_id, find_by_id}
use recommendation_trip_plat.Accounts.Auth.Tokens.{
  AuthWorldLaws, AuthRequest, Blocked, Harmless, generate_token_pair-Blocked, MayIssue,
  register_request, login_request, refresh_request, verify_request, logout_request,
}
use recommendation_trip_plat.Accounts.Auth.Validity.{
  hashed, session_of, is_valid-hash, is_valid-unused, is_valid-type, Requests, NoLoginOf, NotAgain,
  UniqueHashes, kept_by_requests, Blocked-find_valid, hashed-Harmless, save_token-Blocked,
  hashed_by_requests,
}
use recommendation_trip_plat.Accounts.Roles.{role_codes_by_user_id}

module _ {S : Type 0} (world : AuthWorld S) (laws : AuthWorldLaws world) where
  issued-Blocked :
      (raw random : String) (now : ℕ) (s : S) (x : UserToken) (u : User)
      → UniqueHashes world laws s
      → (world.hash_token random == world.hash_token raw) ≡ false
      → find_valid world refresh_token raw now s ≡ some x
      → (z : S)
      → z ≡ save_token world (record x { last_used_at = some now; revoked_at = some now }) s
      → Blocked world laws (hashed (world.hash_token raw)) (
          after (
            generate_token_pair world random u.id u.email
              (role_codes_by_user_id world.roles u.id z)
              now
              z))
  issued-Blocked raw random now s x u unique other found z e =
      generate_token_pair-Blocked world laws (hashed (world.hash_token raw)) random u.id u.email
        (role_codes_by_user_id world.roles u.id z) now
        (hashed-Harmless world laws raw random refresh_token u.id other) z
        (subst (Blocked world laws (hashed (world.hash_token raw))) (sym e) (
          save_token-Blocked world laws refresh_token raw now s x
            (record x { last_used_at = some now; revoked_at = some now }) unique found refl refl))

  refresh_tokens-Blocked :
      (raw random : String) (now : ℕ) (s t : S) (pair : TokenPair)
      → UniqueHashes world laws s
      → (world.hash_token random == world.hash_token raw) ≡ false
      → refresh_tokens world random raw now s ≡ done pair t
      → Blocked world laws (hashed (world.hash_token raw)) t
  unfolding refresh_tokens
  refresh_tokens-Blocked raw random now s t pair unique other returns =
      elim (Option-cases (find_valid world refresh_token raw now s)) [
        | inl miss ↦ let q : fail unauthorized_error s ≡ done pair t = rw miss at returns in cc
        | inr (x, found) ↦ elim (Option-cases (find_by_id world.accounts x.user_id s)) [
          | inl gone ↦
              let q : fail unauthorized_error s ≡ done pair t = rw gone at (rw found at returns) in
              cc
          | inr (u, there) ↦ elim (Bool-cases (not u.is_active || is_some u.deleted_at)) [
            | inl out ↦
                let q : fail unauthorized_error s ≡ done pair t =
                  rw out at (rw there at (rw found at returns)) in
                cc
            | inr user_ok ↦
                let z : S =
                  save_token world (record x { last_used_at = some now; revoked_at = some now })
                    s in
                let q : generate_token_pair world random u.id u.email
                      (role_codes_by_user_id world.roles u.id z) now z
                    ≡ done pair t =
                  rw user_ok at (rw there at (rw found at returns)) in
                subst (Blocked world laws (hashed (world.hash_token raw))) (ap after q)
                  (issued-Blocked raw random now s x u unique other found z refl)
          ]
        ]
      ]

  -- A refresh that returns has used its token up: whatever requests come after it, at any time, the
  -- same token is refused and changes nothing, if the random tokens of the refresh and of those
  -- requests have other hashes.
  pub refresh_once :
      (raw random : String) (now : ℕ) (s t : S) (pair : TokenPair)
      → UniqueHashes world laws s
      → (world.hash_token random == world.hash_token raw) ≡ false
      → refresh_tokens world random raw now s ≡ done pair t
      → (u : S) → Requests world (NotAgain world raw) t u
      → (another : String) (later : ℕ)
      → refresh_tokens world another raw later u ≡ fail unauthorized_error u
  unfolding refresh_tokens
  refresh_once raw random now s t pair unique other returns u run another later =
      let b : Blocked world laws (hashed (world.hash_token raw)) u =
        hashed_by_requests world laws raw t u run
          (refresh_tokens-Blocked raw random now s t pair unique other returns) in
      let none_valid : find_valid world refresh_token raw later u ≡ none =
        Blocked-find_valid world laws (hashed (world.hash_token raw)) refresh_token raw later u
          (λ x v. is_valid-hash refresh_token (world.hash_token raw) later x v) b in
      rw none_valid refl

  logout-Blocked :
      (user_id : String) (now : ℕ) (s : S)
      → Blocked world laws (session_of user_id) (after (logout world user_id now s))
  unfolding logout Blocked
  logout-Blocked user_id now s =
      subst (All (λ t. session_of user_id t ≡ true → is_unused t ≡ false))
        (sym (laws.table.rows_update open_session (λ t. record t { revoked_at = some now }) s))
        (All-change_rows (λ t. Unit {0}) (λ t. session_of user_id t ≡ true → is_unused t ≡ false)
          open_session (λ t. record t { revoked_at = some now }) (laws.table.rows s) step
          (All-every (λ t. Unit {0}) (λ t. tt) (laws.table.rows s)))
    where
      open_session : UserToken → Bool
      open_session t =
          (t.user_id == user_id) && is_type t.token_type refresh_token && not (is_some t.revoked_at)

      step :
          (t : UserToken)
          → Unit {0}
          → session_of user_id (if open_session t then record t { revoked_at = some now } else t)
            ≡ true
          → is_unused (if open_session t then record t { revoked_at = some now } else t) ≡ false
      step t _ = elim (Bool-cases (open_session t)) [
        | inl e ↦ rw e (λ _. refl)
        | inr e ↦ rw e (λ h. ground arith)
      ]

  session-Harmless :
      (user_id random i : String)
      → (i == user_id) ≡ false
      → Harmless world laws (session_of user_id) random refresh_token i
  session-Harmless user_id random i other t a b c =
      let no : (t.user_id == user_id) ≡ false = ap (λ z. z == user_id) b ∙ other in rw no refl

  verify-Harmless :
      (user_id random i : String) → Harmless world laws (session_of user_id) random verify_email i
  verify-Harmless user_id random i t a b c = rw a (ground arith)

  find_by_id-id :
      (id : String) (s : S) (a : User) → find_by_id world.accounts id s ≡ some a → a.id ≡ id
  unfolding find_by_id
  find_by_id-id id s a e =
      let test : User → Bool = λ u. has_user_id id u && is_present u in
      laws.accounts.find_one-All (λ u. u.id ≡ id) test s a e
        (All-map (λ u h. (eq_iff u.id id).0 (ground arith)) (filter test (laws.accounts.rows s))
          (All-test test (laws.accounts.rows s)))

  -- A token that is accepted is none of a user whose sessions are blocked.
  found_other :
      (user_id raw : String) (now : ℕ) (s : S) (x : UserToken)
      → Blocked world laws (session_of user_id) s
      → find_valid world refresh_token raw now s ≡ some x
      → (x.user_id == user_id) ≡ false
  unfolding Blocked find_valid
  found_other user_id raw now s x b found =
      let hash : String = world.hash_token raw in
      let valid : UserToken → Bool = is_valid refresh_token hash now in
      laws.table.find_one-All (λ t. (t.user_id == user_id) ≡ false) valid s x found
        (All-zip step (filter valid (laws.table.rows s)) (All-test valid (laws.table.rows s)) (
          All-filter (λ t. session_of user_id t ≡ true → is_unused t ≡ false) valid
            (laws.table.rows s) b))
    where
      step :
          (t : UserToken)
          → is_valid refresh_token (world.hash_token raw) now t ≡ true
          → (session_of user_id t ≡ true → is_unused t ≡ false)
          → (t.user_id == user_id) ≡ false
      step t v k = elim (Bool-cases (t.user_id == user_id)) [
        | inl e ↦
            let type : is_type t.token_type refresh_token ≡ true =
              is_valid-type refresh_token (world.hash_token raw) now t v in
            let used : is_unused t ≡ false = k (rw e (rw type refl)) in
            let unused : is_unused t ≡ true =
              is_valid-unused refresh_token (world.hash_token raw) now t v in
            cc
        | inr e ↦ e
      ]

  -- After a logout and any requests but a login as the user, every refresh token that is still
  -- accepted, at whatever time, belongs to somebody else.
  pub logout_ends_sessions :
      (user_id : String) (now : ℕ) (s u : S)
      → Requests world (NoLoginOf world user_id) (after (logout world user_id now s)) u
      → (raw : String) (later : ℕ) (x : UserToken)
      → find_valid world refresh_token raw later u ≡ some x
      → (x.user_id == user_id) ≡ false
  logout_ends_sessions user_id now s u run raw later x found =
      found_other user_id raw later u x
        (kept_by_requests world laws (session_of user_id) (NoLoginOf world user_id)
          (λ q random now z a b. ((λ i. verify-Harmless user_id random i), may q random now z a b))
          (after (logout world user_id now s)) u run (logout-Blocked user_id now s))
        found
    where
      may :
          (q : AuthRequest) (random : String) (now : ℕ) (z : S)
          → NoLoginOf world user_id q random now z
          → Blocked world laws (session_of user_id) z
          → MayIssue world laws (session_of user_id) q random now z
      may (login_request dto) random now z other b =
          λ a e. session-Harmless user_id random a.id (other a e)
      may (refresh_request r) random now z _ b = λ t a e f. session-Harmless user_id random a.id (
          ap (λ i. i == user_id) (find_by_id-id t.user_id z a f)
          ∙ found_other user_id r now z t b e)
      may (register_request dto) random now z _ b = tt
      may (verify_request r) random now z _ b = tt
      may (logout_request r) random now z _ b = tt
