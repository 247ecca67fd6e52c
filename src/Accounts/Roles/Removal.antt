-- ===== src/Accounts/Roles/Removal.antt =====
-- Roles that are taken away, one by one or all at once, and every request to the service.
use recommendation_trip_plat.Base.{
  eqb, if◌then◌else◌, eqb_iff, Bool-cases, Option-cases, length, find?, filter, All, All-filter,
  find?-All, All-map, All-zip, when, ℕ, suc, String, ◌≡◌, refl, sym, ap, ◌∙◌, ◌≢◌, inl, inr, true,
  false, not, Option, some, List, [], ◌∷◌, arith, resource_not_found, fail, distinct,
}
use recommendation_trip_plat.Base.Repository.Laws.{All-test, count-change_rows}
use recommendation_trip_plat.Accounts.Roles.{
  UserRole, RoleWorld, of_user, has_id, code_of, has_code, mappings_with_roles, assert_user_exists,
  assign_distinct, assign_roles_by_codes, remove_all, replace_roles_by_codes, promote_first,
  remove_role_by_code,
}
use recommendation_trip_plat.Accounts.Roles.Laws.{
  RoleWorldLaws, primary_of, rows, primaries, Stored, mappings_with_roles-Stored,
}
use recommendation_trip_plat.Accounts.Roles.Primary.{Chosen}
use recommendation_trip_plat.Accounts.Roles.Requests.{update-Demotes, delete-Stored}
use recommendation_trip_plat.Accounts.Roles.Choice.{
  RoleRequest, handle_roles, AtMostOnePrimary, Chooses, Demotes-AtMostOnePrimary, promote_last,
  assign-Chooses, Removed, remove_all-Removed, replace-Chooses, set_primary-Chooses, assign_request,
  replace_request, set_primary_request, remove_request,
}

module _ {S : Type 0} (world : RoleWorld S) (laws : RoleWorldLaws world) where
  abbrev deleted_one : ℕ → String → S → S
  deleted_one now id s =
      world.mappings.update (has_id id) (λ m. record m { deleted_at = some now }) s

  deleted_one-AtMostOnePrimary :
      (now : ℕ) (id : String) (s : S)
      → AtMostOnePrimary world laws s
      → AtMostOnePrimary world laws (deleted_one now id s)
  deleted_one-AtMostOnePrimary now id s h =
      Demotes-AtMostOnePrimary world laws s (deleted_one now id s)
        (update-Demotes world laws (has_id id) (λ m. record m { deleted_at = some now }) s
          (λ m. refl) (λ v m e. ground arith))
        h

  -- To delete a mapping that is not primary takes no primary one away.
  deleted_one-primaries :
      (now : ℕ) (user_id : String) (target : UserRole) (s : S)
      → Stored world laws user_id s target
      → target.is_primary ≡ false
      → primaries world laws user_id (deleted_one now target.id s) ≡ primaries world laws user_id s
  unfolding primaries Stored
  deleted_one-primaries now user_id target s (_, known, _) not_primary =
      rw (laws.table.rows_update (has_id target.id) (λ m. record m { deleted_at = some now }) s) (
        count-change_rows (primary_of user_id) (primary_of user_id) (has_id target.id)
          (λ m. record m { deleted_at = some now }) (rows world laws s)
          (All-map step (rows world laws s) known))
    where
      step :
          (m : UserRole)
          → (has_id target.id m ≡ true → m ≡ target)
          → primary_of user_id
              (if has_id target.id m then record m { deleted_at = some now } else m)
            ≡ primary_of user_id m
      step m k = elim (Bool-cases (has_id target.id m)) [
        | inl e ↦
            let p : m.is_primary ≡ false =
              ap (λ (z : UserRole). z.is_primary) (k e) ∙ not_primary in
            rw e (rw p refl)
        | inr e ↦ rw e refl
      ]

  remove-Chooses :
      (now : ℕ) (user_id code : String) (s : S)
      → AtMostOnePrimary world laws s
      → Chooses world laws
          (remove_request code)
          user_id
          s
          (remove_role_by_code world now user_id code s)
  unfolding remove_role_by_code Chooses assert_user_exists AtMostOnePrimary promote_first Chosen
  remove-Chooses now user_id code s h =
      let ms : List UserRole = mappings_with_roles world user_id s in
      elim (Bool-cases (not (world.user_exists user_id s))) [
        | inl e ↦ rw e h
        | inr e ↦ elim (Option-cases (find? (has_code world s code) ms)) [
          | inl miss ↦ rw e (rw miss h)
          | inr (target, found) ↦ elim (Bool-cases (eqb (length ms) 1)) [
            | inl last ↦ rw e (rw found (rw last h))
            | inr more ↦ rw e (rw found (rw more (rest target found)))
          ]
        ]
      ]
    where
      all : All (Stored world laws user_id s) (mappings_with_roles world user_id s)
      all = mappings_with_roles-Stored world laws user_id s h.0

      left : UserRole → List UserRole
      left target = filter (λ m. not (has_id target.id m)) (mappings_with_roles world user_id s)

      left-Stored :
          (target : UserRole)
          → All (Stored world laws user_id (deleted_one now target.id s)) (left target)
      left-Stored target =
          All-zip
            (λ m (away : not (has_id target.id m) ≡ true) stored.
              delete-Stored world laws user_id target.id now m s (ground arith) stored)
            (left target)
            (All-test (λ m. not (has_id target.id m)) (mappings_with_roles world user_id s))
            (All-filter (Stored world laws user_id s) (λ m. not (has_id target.id m))
              (mappings_with_roles world user_id s) all)

      promoted :
          (target : UserRole) (ms : List UserRole)
          → All (Stored world laws user_id (deleted_one now target.id s)) ms
          → Chooses world laws
              (remove_request code)
              user_id
              s
              (promote_first world user_id ms (deleted_one now target.id s))
      promoted target [] a = deleted_one-AtMostOnePrimary now target.id s h
      promoted target (m ∷ ms) a =
          let t : S = deleted_one now target.id s in
          promote_last world laws (remove_request code) user_id (code_of world t m) (m ∷ ms) s t
            (deleted_one-AtMostOnePrimary now target.id s h) a (λ z chosen one. chosen.0)

      rest :
          (target : UserRole)
          → find? (has_code world s code) (mappings_with_roles world user_id s) ≡ some target
          → Chooses world laws (remove_request code) user_id s (
              when target.is_primary
                (promote_first world user_id (left target))
                (deleted_one now target.id s))
      rest target found = elim (Bool-cases target.is_primary) [
        | inl p ↦ rw p (promoted target (left target) (left-Stored target))
        | inr p ↦ rw p (
          deleted_one-AtMostOnePrimary now target.id s h,
          λ one.
              deleted_one-primaries now user_id target s
                (find?-All (Stored world laws user_id s) (has_code world s code)
                  (mappings_with_roles world user_id s) all found)
                p
              ∙ one,
        )
      ]

  -- A request to the service of the roles, whether it throws or returns, leaves no user with two
  -- primary roles. After an assignment or a choice that returns, the user has exactly one, which is
  -- the asked one if one was asked for; a replacement by no roles leaves none that is active; and a
  -- removal leaves a user who had a primary role with one.
  pub handle_roles-Chooses :
      (q : RoleRequest) (now : ℕ) (user_id : String) (s : S)
      → AtMostOnePrimary world laws s
      → Chooses world laws q user_id s (handle_roles world q now user_id s)
  unfolding handle_roles
  handle_roles-Chooses (assign_request codes primary) now user_id s h =
      assign-Chooses world laws (assign_request codes primary) now user_id codes primary s s h
        (λ t a. a)
  handle_roles-Chooses (replace_request codes primary) now user_id s h =
      replace-Chooses world laws now user_id codes primary s h
  handle_roles-Chooses (set_primary_request code) now user_id s h =
      set_primary-Chooses world laws user_id code s h
  handle_roles-Chooses (remove_request code) now user_id s h = remove-Chooses now user_id code s h

  -- A list of codes with one that no role has: an assignment of the roles throws and changes nothing,
  -- but a replacement throws after it has removed every role that the user had.
  pub replace_unknown :
      (now : ℕ) (user_id c : String) (codes : List String) (primary : Option String) (s : S)
      → world.user_exists user_id s ≡ true
      → length (world.roles_by_code (distinct (c ∷ codes)) s) ≢ length (distinct (c ∷ codes))
      → (assign_roles_by_codes world now user_id (c ∷ codes) primary s
          ≡ fail (resource_not_found "RESOURCE_NOT_FOUND") s)
        × ((t : S) × (replace_roles_by_codes world now user_id (c ∷ codes) primary s
              ≡ fail (resource_not_found "RESOURCE_NOT_FOUND") t)
            × Removed world laws user_id t)
  unfolding replace_roles_by_codes assign_roles_by_codes assign_distinct assert_user_exists distinct
      remove_all
  replace_unknown now user_id c codes primary s there unknown = (
    refused s there unknown,
    (remove_all world now user_id s, replaced, remove_all-Removed world laws now user_id s),
  )
    where
      refused :
          (t : S)
          → world.user_exists user_id t ≡ true
          → length (world.roles_by_code (distinct (c ∷ codes)) t) ≢ length (distinct (c ∷ codes))
          → assign_roles_by_codes world now user_id (c ∷ codes) primary t
            ≡ fail (resource_not_found "RESOURCE_NOT_FOUND") t
      refused t there unknown =
          let roles : ℕ = length (world.roles_by_code (distinct (c ∷ codes)) t) in
          let no : eqb roles (length (distinct (c ∷ codes))) ≡ false =
            elim (Bool-cases (eqb roles (length (distinct (c ∷ codes))))) [
              | inl e ↦ absurd (unknown ((eqb_iff roles (length (distinct (c ∷ codes)))).0 e))
              | inr e ↦ e
            ] in
          rw there (rw no refl)

      f : UserRole → UserRole
      f m = record m { deleted_at = some now }

      replaced :
          replace_roles_by_codes world now user_id (c ∷ codes) primary s
          ≡ fail (resource_not_found "RESOURCE_NOT_FOUND") (remove_all world now user_id s)
      replaced =
          let more : eqb (suc (length codes)) 0 ≡ false = ground arith in
          rw there (
            rw more (
              refused (remove_all world now user_id s)
                (laws.user_after_update (of_user user_id) f user_id s ∙ there)
                (λ e. unknown (
                  ap length
                    (sym (laws.roles_after_update (of_user user_id) f (distinct (c ∷ codes)) s))
                  ∙ e))))
