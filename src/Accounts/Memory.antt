-- ===== src/Accounts/Memory.antt =====
-- The tables of the accounts in memory, which meet the laws that the proofs assume of the database.
use recommendation_trip_plat.Base.Repository.Tables.{table, table_laws}
use recommendation_trip_plat.Base.{
  if◌then◌else◌, Bool-cases, any, filter, All, All-map, ◌+◌, ◌<◌, String, ◌≡◌, refl, ap, inl, inr,
  false, ◌&&◌, [], ◌∷◌, arith, ◌==◌, eq_iff, List,
}
use recommendation_trip_plat.Accounts.Roles.{UserRole, Role, RoleWorld}
use recommendation_trip_plat.Accounts.Roles.Laws.{RoleWorldLaws}
use recommendation_trip_plat.Accounts.Users.{User, is_present, has_user_id}
use recommendation_trip_plat.Accounts.Auth.{UserToken, AuthWorld}
use recommendation_trip_plat.Accounts.Auth.Tokens.{AuthWorldLaws}
use text.Mathlib.TextLemmas.{length-append}
use Prim.Native.String.{count}
use Prim.Native.String as Text

-- A text that is longer than every key there is.
abbrev fresh : {A : Type 0} → (A → String) → List A → String
fresh key [] = "m"
fresh key (x ∷ xs) = Text.◌++◌ (key x) (fresh key xs)

fresh-longer :
    {A : Type 0} (key : A → String) (xs : List A)
    → All (λ x. count (key x) < count (fresh key xs)) xs × (0 < count (fresh key xs))
fresh-longer key [] = (tt, omega arith)
fresh-longer key (x ∷ xs) =
    let (shorter, more) = fresh-longer key xs in
    let sum : count (Text.◌++◌ (key x) (fresh key xs)) ≡ count (key x) + count (fresh key xs) =
      length-append (key x) (fresh key xs) in
    (
      (omega (arith, sum, more), All-map (λ y h. omega (arith, sum, h)) xs shorter),
      omega (arith, sum, more),
    )

pub fresh-new :
    {A : Type 0} (key : A → String) (xs : List A) → All (λ x. (fresh key xs == key x) ≡ false) xs
fresh-new key xs = All-map step xs (fresh-longer key xs).0
  where
    step : (x : _) → count (key x) < count (fresh key xs) → (fresh key xs == key x) ≡ false
    step x h = elim (Bool-cases (fresh key xs == key x)) [
      | inl e ↦
          let same : count (fresh key xs) ≡ count (key x) =
            ap count ((eq_iff (fresh key xs) (key x)).0 e) in
          absurd (omega (arith, same, h))
      | inr e ↦ e
    ]

pub record Memory : Type 0 where
  pub mappings : List UserRole
  pub users : List User
  pub tokens : List UserToken
  pub mails : List String

abbrev all_roles : List Role
all_roles = record { id = "r1"; code = "USER" } ∷ record { id = "r2"; code = "ADMIN" } ∷ []

abbrev code_in : List Role → String → String
code_in [] id = ""
code_in (r ∷ rs) id = if r.id == id then r.code else code_in rs id

abbrev pub memory_roles : RoleWorld Memory
memory_roles = record {
  mappings = table (λ (s : Memory). s.mappings) (λ xs s. record s { mappings = xs });
  user_exists = λ id s. any (λ u. has_user_id id u && is_present u) s.users;
  roles_by_code = λ codes s. filter (λ r. any (λ c. r.code == c) codes) all_roles;
  role_code = λ id s. code_in all_roles id;
  new_id = λ s. fresh (λ (m : UserRole). m.id) s.mappings;
}

abbrev pub memory_accounts : AuthWorld Memory
memory_accounts = record {
  accounts = record {
    users = table (λ (s : Memory). s.users) (λ xs s. record s { users = xs });
    new_user_id = λ s. fresh (λ (u : User). u.id) s.users;
  };
  roles = memory_roles;
  tokens = table (λ (s : Memory). s.tokens) (λ xs s. record s { tokens = xs });
  new_token_id = λ s. fresh (λ (t : UserToken). t.id) s.tokens;
  hash_token = λ raw. raw;
  hashing = λ password s. Text.◌++◌ "hash-" password;
  compare_password = λ password hash. Text.◌++◌ "hash-" password == hash;
  sign = λ payload secret expires_in. Text.◌++◌ payload.sub secret;
  notify_verify_email = λ to name raw s. record s { mails = to ∷ s.mails };
  token_config = record {
    access_secret = "secret";
    access_expires_in = "1d";
    refresh_expires_in = "7d";
  };
  verify_token_ttl_seconds = 86400;
  default_role_code = "USER";
}

unfoldable pub memory_roles_laws : RoleWorldLaws memory_roles
unfolding table_laws
memory_roles_laws = record {
  table =
      table_laws (λ (s : Memory). s.mappings) (λ xs s. record s { mappings = xs }) (λ xs s. refl);
  new_id_new = λ s. fresh-new (λ (m : UserRole). m.id) s.mappings;
  code_after_update = λ p f id s. refl;
  roles_after_update = λ p f codes s. refl;
  user_after_update = λ p f id s. refl;
}

unfoldable pub memory_accounts_laws : AuthWorldLaws memory_accounts
unfolding table_laws
memory_accounts_laws = record {
  table = table_laws (λ (s : Memory). s.tokens) (λ xs s. record s { tokens = xs }) (λ xs s. refl);
  accounts = table_laws (λ (s : Memory). s.users) (λ xs s. record s { users = xs }) (λ xs s. refl);
  tokens_insert_user = λ r s. refl;
  tokens_update_user = λ p f s. refl;
  tokens_insert_mapping = λ r s. refl;
  tokens_update_mapping = λ p f s. refl;
  tokens_notify = λ to name raw s. refl;
  users_update_token = λ p f s. refl;
}
