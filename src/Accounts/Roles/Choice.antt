-- ===== src/Accounts/Roles/Choice.antt =====
-- Requests to the service of the roles of a user: how many primary roles there are afterwards, and
-- which.
use recommendation_trip_plat.Base.{
  eqb, or_else, Bool-cases, length, filter, All, All-every, Outcome, Method, after, when, ℕ, suc,
  ◌≤◌, String, ◌≡◌, refl, sym, subst, inl, inr, false, not, Option, none, some, List, [], ◌∷◌,
  arith, ◌==◌, eq_iff, done, fail, distinct,
}
use recommendation_trip_plat.Base.Repository.Laws.{All-change_rows}
use recommendation_trip_plat.Accounts.Roles.{
  UserRole, Role, RoleWorld, is_active, of_user, active_of, mappings_with_roles,
  mappings_including_deleted, assert_user_exists, update_primary_role, assign_roles,
  desired_primary, assign_distinct, assign_roles_by_codes, remove_all, replace_roles_by_codes,
  set_primary_role_by_code, remove_role_by_code,
}
use recommendation_trip_plat.Accounts.Roles.Laws.{
  RoleWorldLaws, rows, UniqueIds, primaries, Stored, mappings_with_roles-Stored,
}
use recommendation_trip_plat.Accounts.Roles.Primary.{Chosen, Promotes}
use recommendation_trip_plat.Accounts.Roles.Requests.{
  update_primary_role-Promotes, Demotes, update-Demotes, assign_roles-Demotes,
}

pub data RoleRequest : Type 0 where
  assign_request replace_request : List String → Option String → RoleRequest
  set_primary_request remove_request : String → RoleRequest

module _ {S : Type 0} (world : RoleWorld S) where
  unfoldable pub handle_roles : RoleRequest → ℕ → String → Method S (Unit {0})
  unfolding assign_roles_by_codes replace_roles_by_codes set_primary_role_by_code
      remove_role_by_code
  handle_roles (assign_request codes primary) now user_id =
      assign_roles_by_codes world now user_id codes primary
  handle_roles (replace_request codes primary) now user_id =
      replace_roles_by_codes world now user_id codes primary
  handle_roles (set_primary_request code) now user_id = set_primary_role_by_code world user_id code
  handle_roles (remove_request code) now user_id = remove_role_by_code world now user_id code

module _ {S : Type 0} (world : RoleWorld S) (laws : RoleWorldLaws world) where
  -- No user has two active mappings that are primary, and identifiers are not shared.
  unfoldable pub AtMostOnePrimary : S → Type 0
  AtMostOnePrimary s = UniqueIds world laws s × ((v : String) → primaries world laws v s ≤ 1)

  -- The primary role after an assignment that returns: the asked one, if one was asked for.
  abbrev pub Assigned : String → List String → Option String → S → S → Type 0
  Assigned user_id [] primary s t = t ≡ s
  Assigned user_id (c ∷ codes) primary s t =
      (code : String) × Chosen world laws user_id code t × (or_else primary code ≡ code)

  abbrev pub Replaced : String → List String → Option String → S → Type 0
  Replaced user_id [] primary t = All (λ m. active_of user_id m ≡ false) (rows world laws t)
  Replaced user_id (c ∷ codes) primary t =
      (code : String) × Chosen world laws user_id code t × (or_else primary code ≡ code)

  abbrev pub ChosenBy : RoleRequest → String → S → S → Type 0
  ChosenBy (assign_request codes primary) user_id s t = Assigned user_id codes primary s t
  ChosenBy (replace_request codes primary) user_id s t = Replaced user_id codes primary t
  ChosenBy (set_primary_request code) user_id s t = Chosen world laws user_id code t
  ChosenBy (remove_request code) user_id s t =
      primaries world laws user_id s ≡ 1 → primaries world laws user_id t ≡ 1

  unfoldable pub Chooses : RoleRequest → String → S → Outcome S (Unit {0}) → Type 0
  Chooses q user_id s (done _ t) = AtMostOnePrimary t × ChosenBy q user_id s t
  Chooses q user_id s (fail _ t) = AtMostOnePrimary t

  pub Demotes-AtMostOnePrimary :
      (s t : S) → Demotes world laws s t → AtMostOnePrimary s → AtMostOnePrimary t
  unfolding Demotes AtMostOnePrimary
  Demotes-AtMostOnePrimary s t (u, k) (a, b) = (u a, λ v. omega (arith, k v, b v))

  Promotes-AtMostOnePrimary :
      (user_id code : String) (s : S) (o : Outcome S (Unit {0}))
      → Promotes world laws user_id code s o
      → AtMostOnePrimary s
      → AtMostOnePrimary (after o)
  unfolding AtMostOnePrimary Chosen
  Promotes-AtMostOnePrimary user_id code s (fail e t) same h = subst AtMostOnePrimary (sym same) h
  Promotes-AtMostOnePrimary user_id code s (done _ t) (u, (one, _), others) (_, b) = (
    u,
    λ v. elim (Bool-cases (v == user_id)) [
      | inl e ↦
          subst (λ w. primaries world laws w t ≤ 1) (sym ((eq_iff v user_id).0 e))
            (omega (arith, one))
      | inr e ↦ omega (arith, others v e, b v)
    ],
  )

  -- A choice as the last step of a request.
  pub promote_last :
      (q : RoleRequest) (user_id code : String) (ms : List UserRole) (s r : S)
      → AtMostOnePrimary r
      → All (Stored world laws user_id r) ms
      → ((t : S) → Chosen world laws user_id code t → ChosenBy q user_id s t)
      → Chooses q user_id s (update_primary_role world user_id code ms r)
  unfolding Chooses AtMostOnePrimary
  promote_last q user_id code ms s r h stored k =
      go (update_primary_role world user_id code ms r)
        (update_primary_role-Promotes world laws user_id code ms r h.0 stored)
    where
      go : (o : Outcome S (Unit {0})) → Promotes world laws user_id code r o → Chooses q user_id s o
      go (fail e t) p = Promotes-AtMostOnePrimary user_id code r (fail e t) p h
      go (done _ t) (u, c, others) =
          (Promotes-AtMostOnePrimary user_id code r (done tt t) (u, c, others) h, k t c)

  -- The requests, for a user who exists.
  assign_distinct-Chooses :
      (q : RoleRequest) (now : ℕ) (user_id : String) (codes : List String) (primary : Option String)
      (s r : S)
      → AtMostOnePrimary r
      → ((t : S) → Assigned user_id codes primary r t → ChosenBy q user_id s t)
      → Chooses q user_id s (assign_distinct world now user_id codes primary r)
  unfolding Chooses assign_distinct AtMostOnePrimary
  assign_distinct-Chooses q now user_id [] primary s r h k = (h, k r refl)
  assign_distinct-Chooses q now user_id (c ∷ codes) primary s r h k =
      let roles : List Role = world.roles_by_code (c ∷ codes) r in
      elim (Bool-cases (not (eqb (length roles) (length (c ∷ codes))))) [
        | inl e ↦ rw e h
        | inr e ↦ rw e (
            let existing : List UserRole = mappings_with_roles world user_id r in
            let deleted : List UserRole =
              filter (λ m. not (is_active m)) (mappings_including_deleted world user_id r) in
            let t : S = assign_roles world now user_id existing deleted roles r in
            let kept : AtMostOnePrimary t =
              Demotes-AtMostOnePrimary r t
                (assign_roles-Demotes world laws now user_id existing deleted roles r) h in
            let ms : List UserRole = mappings_with_roles world user_id t in
            let code : String = desired_primary world t primary ms c in
            promote_last q user_id code ms s t kept
              (mappings_with_roles-Stored world laws user_id t kept.0)
              (λ z chosen. k z (code, chosen, asked t ms primary)))
      ]
    where
      asked :
          (t : S) (ms : List UserRole) (p : Option String)
          → or_else p (desired_primary world t p ms c) ≡ desired_primary world t p ms c
      asked t ms none = refl
      asked t ms (some code) = refl

  pub assign-Chooses :
      (q : RoleRequest) (now : ℕ) (user_id : String) (codes : List String) (primary : Option String)
      (s r : S)
      → AtMostOnePrimary r
      → ((t : S) → Assigned user_id codes primary r t → ChosenBy q user_id s t)
      → Chooses q user_id s (assign_roles_by_codes world now user_id codes primary r)
  unfolding assign_roles_by_codes Chooses assert_user_exists distinct
  assign-Chooses q now user_id codes primary s r h k =
      elim (Bool-cases (not (world.user_exists user_id r))) [
        | inl e ↦ rw e h
        | inr e ↦ rw e (
            assign_distinct-Chooses q now user_id (distinct codes) primary s r h
              (λ t a. k t (plain codes t a)))
      ]
    where
      plain :
          (cs : List String) (t : S)
          → Assigned user_id (distinct cs) primary r t
          → Assigned user_id cs primary r t
      plain [] t a = a
      plain (c ∷ cs) t a = a

  -- Without any mapping that is active.
  abbrev pub Removed : String → S → Type 0
  Removed user_id t = All (λ m. active_of user_id m ≡ false) (rows world laws t)

  remove_all-kept :
      (now : ℕ) (user_id : String) (s : S)
      → AtMostOnePrimary s
      → AtMostOnePrimary (remove_all world now user_id s)
  unfolding remove_all
  remove_all-kept now user_id s h =
      Demotes-AtMostOnePrimary s
        (world.mappings.update (of_user user_id) (λ m. record m { deleted_at = some now }) s)
        (update-Demotes world laws (of_user user_id) (λ m. record m { deleted_at = some now }) s
          (λ m. refl) (λ v m e. ground arith))
        h

  pub remove_all-Removed :
      (now : ℕ) (user_id : String) (s : S) → Removed user_id (remove_all world now user_id s)
  unfolding remove_all
  remove_all-Removed now user_id s =
      subst (All (λ m. active_of user_id m ≡ false))
        (sym (laws.table.rows_update (of_user user_id) (λ m. record m { deleted_at = some now }) s))
        (All-change_rows (λ m. Unit {0}) (λ m. active_of user_id m ≡ false) (of_user user_id)
          (λ m. record m { deleted_at = some now }) (rows world laws s)
          (λ m _. elim (Bool-cases (of_user user_id m)) [
            | inl e ↦ ground arith
            | inr e ↦ ground arith
          ])
          (All-every (λ m. Unit {0}) (λ m. tt) (rows world laws s)))

  pub replace-Chooses :
      (now : ℕ) (user_id : String) (codes : List String) (primary : Option String) (s : S)
      → AtMostOnePrimary s
      → Chooses
          (replace_request codes primary)
          user_id
          s
          (replace_roles_by_codes world now user_id codes primary s)
  unfolding replace_roles_by_codes Chooses assert_user_exists
  replace-Chooses now user_id codes primary s h =
      elim (Bool-cases (not (world.user_exists user_id s))) [
        | inl e ↦ rw e h
        | inr e ↦ rw e (rest codes)
      ]
    where
      rest :
          (cs : List String)
          → Chooses (replace_request cs primary) user_id s (
              when
                (not (eqb (length cs) 0))
                (assign_roles_by_codes world now user_id cs primary)
                (remove_all world now user_id s))
      rest [] = (remove_all-kept now user_id s h, remove_all-Removed now user_id s)
      rest (c ∷ cs) =
          let more : eqb (suc (length cs)) 0 ≡ false = ground arith in
          rw more (
            assign-Chooses (replace_request (c ∷ cs) primary) now user_id (c ∷ cs) primary s
              (remove_all world now user_id s) (remove_all-kept now user_id s h) (λ z a. a))

  pub set_primary-Chooses :
      (user_id code : String) (s : S)
      → AtMostOnePrimary s
      → Chooses (set_primary_request code) user_id s (set_primary_role_by_code world user_id code s)
  unfolding set_primary_role_by_code Chooses assert_user_exists AtMostOnePrimary
  set_primary-Chooses user_id code s h = elim (Bool-cases (not (world.user_exists user_id s))) [
    | inl e ↦ rw e h
    | inr e ↦ rw e (
        promote_last (set_primary_request code) user_id code (mappings_with_roles world user_id s) s
          s h (mappings_with_roles-Stored world laws user_id s h.0) (λ t c. c))
  ]
