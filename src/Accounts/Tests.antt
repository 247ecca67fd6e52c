-- ===== src/Accounts/Tests.antt =====
-- Runs of the services of the accounts on tables in memory.
use recommendation_trip_plat.Base.Repository.Tables.{table_laws}
use recommendation_trip_plat.Accounts.Auth.Validity.{next, start, UniqueHashes}
use recommendation_trip_plat.Accounts.Auth.{
  refresh_token, TokenType, UserToken, TokenPair, unauthorized_error, find_valid, save_token,
  issue_token, revoke_active_tokens_by_type, generate_token_pair, refresh_tokens, logout,
  verify_email_token, verify_email,
}
use recommendation_trip_plat.Accounts.Auth.Expiry.{
  match_digits, match_expiry, parse_expiry_to_seconds,
}
use recommendation_trip_plat.Base.{
  length, find?, any, filter, Outcome, after, String, ◌≡◌, refl, ◌≢◌, true, false, none, some, [],
  ◌∷◌, arith, ◌==◌, resource_not_found, bad_request, done, fail, distinct,
}
use recommendation_trip_plat.Accounts.Roles.{
  UserRole, mappings_with_roles, role_codes_by_user_id, assign_roles_by_codes,
  replace_roles_by_codes,
}
use recommendation_trip_plat.Accounts.Roles.Laws.{UniqueIds, primaries}
use recommendation_trip_plat.Accounts.Roles.Choice.{
  handle_roles, AtMostOnePrimary, Chooses, Removed, assign_request,
}
use recommendation_trip_plat.Accounts.Roles.Removal.{handle_roles-Chooses, replace_unknown}
use recommendation_trip_plat.Accounts.Users.{User, new_user, find_by_id, update, activate_user}
use recommendation_trip_plat.Accounts.Auth.Tokens.{handle_auth, login_request}
use recommendation_trip_plat.Accounts.Auth.Sessions.{refresh_once, logout_ends_sessions}
use recommendation_trip_plat.Accounts.Auth.Verification.{Activated, verify_once}
use recommendation_trip_plat.Accounts.Memory.{
  Memory, memory_roles, memory_accounts, memory_roles_laws, memory_accounts_laws,
}

abbrev an : User
an = record (new_user "an@mail") { id = "u1"; password_hash = some "hash-secret" }

abbrev binh : User
binh = record (new_user "binh@mail") { id = "u2"; is_active = false }

abbrev an_is_user : UserRole
an_is_user = record {
  id = "m1";
  user_id = "u1";
  role_id = "r1";
  is_primary = true;
  created_at = 1;
  deleted_at = none;
}

abbrev token : String → String → String → TokenType → UserToken
token id user_id hash type = record {
  id = id;
  user_id = user_id;
  token_hash = hash;
  token_type = type;
  expires_at = 1000;
  last_used_at = none;
  revoked_at = none;
  consumed_at = none;
}

abbrev before : Memory
before = record {
  mappings = an_is_user ∷ [];
  users = an ∷ binh ∷ [];
  tokens = token "t1" "u1" "link" refresh_token ∷ token "t2" "u2" "other" refresh_token ∷ [];
  mails = [];
}

before-AtMostOnePrimary : AtMostOnePrimary memory_roles memory_roles_laws before
unfolding AtMostOnePrimary UniqueIds primaries memory_roles_laws table_laws filter
before-AtMostOnePrimary = ((tt, tt), λ v. ground arith)

handle_roles-Chooses_example :
    Chooses memory_roles memory_roles_laws
      (assign_request ("ADMIN" ∷ []) (some "ADMIN"))
      "u1"
      before
      (handle_roles memory_roles (assign_request ("ADMIN" ∷ []) (some "ADMIN")) 5 "u1" before)
handle_roles-Chooses_example =
    handle_roles-Chooses memory_roles memory_roles_laws
      (assign_request ("ADMIN" ∷ []) (some "ADMIN")) 5 "u1" before before-AtMostOnePrimary

an_exists : memory_roles.user_exists "u1" before ≡ true
unfolding any
an_exists = refl

no_ghost :
    length (memory_roles.roles_by_code (distinct ("GHOST" ∷ [])) before)
    ≢ length (distinct ("GHOST" ∷ []))
unfolding distinct filter any
no_ghost = omega arith

replace_unknown_example :
    (assign_roles_by_codes memory_roles 5 "u1" ("GHOST" ∷ []) none before
      ≡ fail (resource_not_found "RESOURCE_NOT_FOUND") before)
    × ((t : Memory) × (replace_roles_by_codes memory_roles 5 "u1" ("GHOST" ∷ []) none before
          ≡ fail (resource_not_found "RESOURCE_NOT_FOUND") t)
        × Removed memory_roles memory_roles_laws "u1" t)
replace_unknown_example =
    replace_unknown memory_roles memory_roles_laws 5 "u1" "GHOST" [] none before an_exists no_ghost

before-UniqueHashes : UniqueHashes memory_accounts memory_accounts_laws before
unfolding UniqueHashes memory_accounts_laws table_laws
before-UniqueHashes = ((refl, tt), (tt, tt))

abbrev refreshed : Outcome Memory TokenPair
refreshed = refresh_tokens memory_accounts "second" "link" 10 before

abbrev new_pair : TokenPair
new_pair = record { access_token = "u1secret"; refresh_token = "second"; expires_in = 86400 }

refreshed_returns :
    refresh_tokens memory_accounts "second" "link" 10 before ≡ done new_pair (after refreshed)
unfolding refresh_tokens find_valid save_token find_by_id generate_token_pair issue_token
    role_codes_by_user_id mappings_with_roles parse_expiry_to_seconds match_expiry match_digits
    find? filter
refreshed_returns = refl

refresh_once_example :
    refresh_tokens memory_accounts "fourth" "link" 30 (
      after (
        handle_auth memory_accounts
          (login_request (record { email = "an@mail"; password = "secret" }))
          "third"
          20
          (after refreshed)))
    ≡ fail unauthorized_error (
        after (
          handle_auth memory_accounts
            (login_request (record { email = "an@mail"; password = "secret" }))
            "third"
            20
            (after refreshed)))
refresh_once_example =
    refresh_once memory_accounts memory_accounts_laws "link" "second" 10 before (after refreshed)
      new_pair before-UniqueHashes refl refreshed_returns
      (after (
        handle_auth memory_accounts
          (login_request (record { email = "an@mail"; password = "secret" })) "third" 20
          (after refreshed)))
      (next start (login_request (record { email = "an@mail"; password = "secret" })) "third" 20
        refl)
      "fourth" 30

logged_out_finds :
    find_valid memory_accounts refresh_token "other" 30
      (after (logout memory_accounts "u1" 20 before))
    ≡ some (token "t2" "u2" "other" refresh_token)
unfolding find_valid logout find?
logged_out_finds = refl

logout_ends_sessions_example : ("u2" == "u1") ≡ false
logout_ends_sessions_example =
    logout_ends_sessions memory_accounts memory_accounts_laws "u1" 20 before
      (after (logout memory_accounts "u1" 20 before)) start "other" 30
      (token "t2" "u2" "other" refresh_token) logged_out_finds

abbrev invited : Memory
invited = record before { tokens = token "t3" "u2" "link" verify_email ∷ [] }

invited-UniqueHashes : UniqueHashes memory_accounts memory_accounts_laws invited
unfolding UniqueHashes memory_accounts_laws table_laws
invited-UniqueHashes = (tt, tt)

abbrev verified : Memory
verified = after (verify_email_token memory_accounts "link" 10 invited)

verified_returns : verify_email_token memory_accounts "link" 10 invited ≡ done tt verified
unfolding verify_email_token find_valid save_token activate_user find_by_id update
    revoke_active_tokens_by_type find?
verified_returns = refl

verify_once_example :
    ((x : UserToken) × (find_valid memory_accounts verify_email "link" 10 invited ≡ some x)
      × Activated memory_accounts memory_accounts_laws x.user_id verified)
    × (verify_email_token memory_accounts "link" 20 verified
        ≡ fail (bad_request "VALIDATION_FAILED") verified)
verify_once_example =
    verify_once memory_accounts memory_accounts_laws "link" 10 invited verified invited-UniqueHashes
      verified_returns verified start 20
