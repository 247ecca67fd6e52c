-- ===== src/Accounts/Auth/Validity.antt =====
-- Requests one after another, and tokens that stay invalid through all of them.
use recommendation_trip_plat.Accounts.Auth.{
  refresh_token, ℕ, TokenType, UserToken, AuthWorld, is_type, is_unused, is_valid, has_token_id,
  find_valid, save_token, verify_email,
}
use recommendation_trip_plat.Base.{
  AllPairs, if◌then◌else◌, Bool-cases, Option-cases, filter, All, All-filter, All-map, All-zip,
  after, String, ◌≡◌, sym, ap, subst, ◌∙◌, inl, inr, Bool, true, false, ◌&&◌, none, some, arith,
  ◌==◌, eq_iff, eq_refl,
}
use recommendation_trip_plat.Base.Repository.Laws.{
  All-test, All-change_rows, DifferentKeys, All-keyed,
}
use recommendation_trip_plat.Accounts.Users.{User, find_by_email}
use recommendation_trip_plat.Accounts.Auth.Tokens.{
  AuthWorldLaws, AuthRequest, handle_auth, Blocked, Harmless, MayIssue, register_request,
  login_request, refresh_request, verify_request, logout_request,
}
use recommendation_trip_plat.Accounts.Auth.Blocking.{handle_auth-Blocked}

abbrev pub hashed : String → UserToken → Bool
hashed hash t = t.token_hash == hash

abbrev pub session_of : String → UserToken → Bool
session_of user_id t = (t.user_id == user_id) && is_type t.token_type refresh_token

pub is_valid-hash :
    (type : TokenType) (hash : String) (now : ℕ) (t : UserToken)
    → is_valid type hash now t ≡ true
    → (t.token_hash == hash) ≡ true
is_valid-hash type hash now t h = elim (Bool-cases (t.token_hash == hash)) [
  | inl e ↦ e
  | inr e ↦ ground arith
]

pub is_valid-unused :
    (type : TokenType) (hash : String) (now : ℕ) (t : UserToken)
    → is_valid type hash now t ≡ true
    → is_unused t ≡ true
is_valid-unused type hash now t h = ground arith

pub is_valid-type :
    (type : TokenType) (hash : String) (now : ℕ) (t : UserToken)
    → is_valid type hash now t ≡ true
    → is_type t.token_type type ≡ true
is_valid-type type hash now t h = ground arith

module _ {S : Type 0} (world : AuthWorld S) where
  -- Requests one after another, each with the random token that it may issue, and of a kind that is
  -- allowed in its state.
  pub data Requests (Allowed : AuthRequest → String → ℕ → S → Type 0) (s : S) : S → Type 0 where
    start : Requests Allowed s s
    next :
        {u : S}
        → Requests Allowed s u
        → (q : AuthRequest) (random : String) (now : ℕ) → Allowed q random now u
        → Requests Allowed s (after (handle_auth world q random now u))

  -- No login as this user.
  abbrev pub NoLoginOf : String → AuthRequest → String → ℕ → S → Type 0
  NoLoginOf user_id (login_request dto) random now s =
      (u : User) → find_by_email world.accounts dto.email s ≡ some u → (u.id == user_id) ≡ false
  NoLoginOf user_id _ random now s = Unit

  -- The random token of the request has another hash than `raw`.
  abbrev pub NotAgain : String → AuthRequest → String → ℕ → S → Type 0
  NotAgain raw q random now s = (world.hash_token random == world.hash_token raw) ≡ false

module _ {S : Type 0} (world : AuthWorld S) (laws : AuthWorldLaws world) where
  -- The column `tokenHash` is unique.
  unfoldable pub UniqueHashes : S → Type 0
  UniqueHashes s = AllPairs (DifferentKeys (λ (t : UserToken). t.token_hash)) (laws.table.rows s)

  pub kept_by_requests :
      (p : UserToken → Bool) (Allowed : AuthRequest → String → ℕ → S → Type 0)
      → ((q : AuthRequest) (random : String) (now : ℕ) (s : S)
          → Allowed q random now s
          → Blocked world laws p s
          → ((user_id : String) → Harmless world laws p random verify_email user_id)
            × MayIssue world laws p q random now s)
      → (s t : S) → Requests world Allowed s t
      → Blocked world laws p s
      → Blocked world laws p t
  kept_by_requests p Allowed m s _ start h = h
  kept_by_requests p Allowed m s _ (next {u} r q random now a) h =
      let k : Blocked world laws p u = kept_by_requests p Allowed m s u r h in
      let (v, may) = m q random now u a k in handle_auth-Blocked world laws p q random now u v may k

  -- A blocked token is not found any more.
  pub Blocked-find_valid :
      (p : UserToken → Bool) (type : TokenType) (raw : String) (now : ℕ) (s : S)
      → ((t : UserToken) → is_valid type (world.hash_token raw) now t ≡ true → p t ≡ true)
      → Blocked world laws p s
      → find_valid world type raw now s ≡ none
  unfolding Blocked find_valid
  Blocked-find_valid p type raw now s k h =
      elim (Option-cases (world.tokens.find_one (is_valid type (world.hash_token raw) now) s)) [
        | inl e ↦ e
        | inr (t, e) ↦ let f : true ≡ false = no t e in cc
      ]
    where
      no :
          (t : UserToken)
          → world.tokens.find_one (is_valid type (world.hash_token raw) now) s ≡ some t
          → true ≡ false
      no t e =
          let valid : UserToken → Bool = is_valid type (world.hash_token raw) now in
          let used : is_unused t ≡ false =
            laws.table.find_one-All (λ t. is_unused t ≡ false) valid s t e
              (All-zip (λ x v b. b (k x v)) (filter valid (laws.table.rows s))
                (All-test valid (laws.table.rows s))
                (All-filter (λ t. p t ≡ true → is_unused t ≡ false) valid (laws.table.rows s) h)) in
          let passes : valid t ≡ true =
            laws.table.find_one-All (λ t. valid t ≡ true) valid s t e
              (All-test valid (laws.table.rows s)) in
          sym (is_valid-unused type (world.hash_token raw) now t passes) ∙ used

  pub hashed-Harmless :
      (raw random : String) (type : TokenType) (user_id : String)
      → (world.hash_token random == world.hash_token raw) ≡ false
      → Harmless world laws (hashed (world.hash_token raw)) random type user_id
  hashed-Harmless raw random type user_id other t a b c = rw c other

  -- The token that is found is the only one with its hash.
  pub save_token-Blocked :
      (type : TokenType) (raw : String) (now : ℕ) (s : S) (t x : UserToken)
      → UniqueHashes s
      → find_valid world type raw now s ≡ some t
      → x.id ≡ t.id
      → is_unused x ≡ false
      → Blocked world laws (hashed (world.hash_token raw)) (save_token world x s)
  unfolding UniqueHashes find_valid save_token Blocked
  save_token-Blocked type raw now s t x unique found same used =
      subst (All (λ y. hashed hash y ≡ true → is_unused y ≡ false))
        (sym (laws.table.rows_update (has_token_id x.id) (λ _. x) s))
        (All-change_rows (λ y. (y.token_hash == t.token_hash) ≡ true → y ≡ t)
          (λ y. hashed hash y ≡ true → is_unused y ≡ false) (has_token_id x.id) (λ _. x)
          (laws.table.rows s) step known)
    where
      hash : String
      hash = world.hash_token raw

      valid : UserToken → Bool
      valid = is_valid type hash now

      known : All (λ y. (y.token_hash == t.token_hash) ≡ true → y ≡ t) (laws.table.rows s)
      known =
          laws.table.find_one-All
            (λ z. All (λ y. (y.token_hash == z.token_hash) ≡ true → y ≡ z) (laws.table.rows s))
            valid s t found
            (All-filter _ valid (laws.table.rows s) (
              All-map (λ z a. a.1) (laws.table.rows s)
                (All-keyed (λ (z : UserToken). z.token_hash) (laws.table.rows s) unique)))

      passes : valid t ≡ true
      passes =
          laws.table.find_one-All (λ z. valid z ≡ true) valid s t found
            (All-test valid (laws.table.rows s))

      the_hash : hash ≡ t.token_hash
      the_hash = sym ((eq_iff t.token_hash hash).0 (is_valid-hash type hash now t passes))

      step :
          (y : UserToken)
          → ((y.token_hash == t.token_hash) ≡ true → y ≡ t)
          → hashed hash (if has_token_id x.id y then x else y) ≡ true
          → is_unused (if has_token_id x.id y then x else y) ≡ false
      step y k = elim (Bool-cases (has_token_id x.id y)) [
        | inl e ↦ rw e (λ _. used)
        | inr e ↦ rw e (λ h.
            let it : y ≡ t = k (subst (λ z. (y.token_hash == z) ≡ true) the_hash h) in
            let hit : has_token_id x.id y ≡ true =
              ap (λ (z : UserToken). z.id == x.id) it
              ∙ (ap (λ z. z == x.id) (sym same) ∙ eq_refl x.id) in
            cc)
      ]

  pub hashed_by_requests :
      (raw : String) (s t : S)
      → Requests world (NotAgain world raw) s t
      → Blocked world laws (hashed (world.hash_token raw)) s
      → Blocked world laws (hashed (world.hash_token raw)) t
  hashed_by_requests raw s t run =
      kept_by_requests (hashed (world.hash_token raw)) (NotAgain world raw)
        (λ q random now z other b. (
          (λ user_id. hashed-Harmless raw random verify_email user_id other),
          may q random now z other,
        ))
        s t run
    where
      may :
          (q : AuthRequest) (random : String) (now : ℕ) (z : S)
          → NotAgain world raw q random now z
          → MayIssue world laws (hashed (world.hash_token raw)) q random now z
      may (login_request dto) random now z other =
          λ u e. hashed-Harmless raw random refresh_token u.id other
      may (refresh_request r) random now z other =
          λ x u e f. hashed-Harmless raw random refresh_token u.id other
      may (register_request dto) random now z other = tt
      may (verify_request r) random now z other = tt
      may (logout_request r) random now z other = tt
