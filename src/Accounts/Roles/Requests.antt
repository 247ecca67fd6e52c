-- ===== src/Accounts/Roles/Requests.antt =====
-- The steps of the service on the mappings: what the choice of a primary role, the loop that assigns
-- roles and the removals leave.
use recommendation_trip_plat.Accounts.Roles.Primary.{
  make_primary-other, make_primary-Chosen, make_primary-UniqueIds, Chosen, Promotes,
}
use recommendation_trip_plat.Base.{
  eqb, if◌then◌else◌, Bool-cases, Option-cases, length, find?, any, filter, All, AllPairs,
  All-every, find?-All, find?-test, AllPairs-push, ℕ, ◌≤◌, String, ◌≡◌, refl, sym, ap, subst, ◌∙◌,
  inl, inr, Bool, true, false, Option, none, some, List, [], ◌∷◌, arith, eq_iff, done, find_last,
}
use recommendation_trip_plat.Base.Repository.{change_rows}
use recommendation_trip_plat.Base.Repository.Laws.{
  All-change_rows, length-change_rows, length-append, change_rows-change_rows, any-change_rows,
}
use recommendation_trip_plat.Accounts.Roles.{
  UserRole, Role, RoleWorld, has_id, code_of, has_code, make_primary, update_primary_role,
  restore_mapping, create_mapping, restore_or_create, with_role, assign_role, assign_roles,
}
use recommendation_trip_plat.Accounts.Roles.Laws.{
  RoleWorldLaws, DifferentIds, primary_of, rows, UniqueIds, primaries, update-UniqueIds,
  update-primaries, Stored,
}

module _ {S : Type 0} (world : RoleWorld S) (laws : RoleWorldLaws world) where
  pub update_primary_role-Promotes :
      (user_id code : String) (ms : List UserRole) (s : S)
      → UniqueIds world laws s
      → All (Stored world laws user_id s) ms
      → Promotes world laws user_id code s (update_primary_role world user_id code ms s)
  unfolding update_primary_role
  update_primary_role-Promotes user_id code ms s u all = elim (Bool-cases (eqb (length ms) 0)) [
    | inl e ↦ rw e refl
    | inr e ↦ elim (Option-cases (find? (has_code world s code) ms)) [
      | inl miss ↦ rw e (rw miss refl)
      | inr (target, found) ↦ rw e (rw found (promoted target found))
    ]
  ]
    where
      promoted :
          (target : UserRole)
          → find? (has_code world s code) ms ≡ some target
          → Promotes world laws user_id code s (done tt (make_primary world user_id target s))
      promoted target found =
          let stored : Stored world laws user_id s target =
            find?-All (Stored world laws user_id s) (has_code world s code) ms all found in
          let right : code_of world s target ≡ code =
            (eq_iff (code_of world s target) code).0
              (find?-test (has_code world s code) ms found) in
          (
            make_primary-UniqueIds world laws user_id s target u,
            subst (λ c. Chosen world laws user_id c (make_primary world user_id target s)) right
                (make_primary-Chosen world laws user_id s target u stored),
            λ v n. make_primary-other world laws user_id s target v n stored,
          )

  -- The identifiers stay different, and nobody gets a primary mapping.
  unfoldable pub Demotes : S → S → Type 0
  Demotes s t =
      (UniqueIds world laws s → UniqueIds world laws t)
      × ((v : String) → primaries world laws v t ≤ primaries world laws v s)

  Demotes-refl : (s : S) → Demotes s s
  unfolding Demotes
  Demotes-refl s = ((λ u. u), λ v. omega arith)

  pub Demotes-trans : (s t r : S) → Demotes s t → Demotes t r → Demotes s r
  unfolding Demotes
  Demotes-trans s t r (u, h) (v, k) = ((λ a. v (u a)), λ w. omega (arith, h w, k w))

  pub update-Demotes :
      (p : UserRole → Bool) (f : UserRole → UserRole) (s : S)
      → ((m : UserRole) → (f m).id ≡ m.id)
      → ((v : String) (m : UserRole) → primary_of v (f m) ≡ true → primary_of v m ≡ true)
      → Demotes s (world.mappings.update p f s)
  unfolding Demotes
  update-Demotes p f s i k = (
    update-UniqueIds world laws p f s i,
    λ v. update-primaries world laws v p f s (λ m e h. k v m h),
  )

  restore_mapping-Demotes : (m : UserRole) (s : S) → Demotes s (restore_mapping world m s)
  unfolding restore_mapping Demotes primaries
  restore_mapping-Demotes m s = (
    (λ u.
        update-UniqueIds world laws (has_id m.id) (λ n. record n { is_primary = false })
          (world.mappings.update (has_id m.id) (λ n. record n { deleted_at = none }) s) (λ n. refl)
          (update-UniqueIds world laws (has_id m.id) (λ n. record n { deleted_at = none }) s
            (λ n. refl) u)),
    λ v.
        rw
          (laws.table.rows_update (has_id m.id) (λ n. record n { is_primary = false })
            (world.mappings.update (has_id m.id) (λ n. record n { deleted_at = none }) s))
          (rw (laws.table.rows_update (has_id m.id) (λ n. record n { deleted_at = none }) s) (
            rw
              (change_rows-change_rows (has_id m.id) (λ n. record n { deleted_at = none })
                (λ n. record n { is_primary = false }) (rows world laws s) (λ n. refl))
              (fewer v))),
  )
    where
      fewer :
          (v : String)
          → length (
              filter (primary_of v) (
                change_rows
                  (has_id m.id)
                  (λ n. record n { deleted_at = none; is_primary = false })
                  (rows world laws s)))
            ≤ length (filter (primary_of v) (rows world laws s))
      fewer v =
          length-change_rows (primary_of v) (has_id m.id)
            (λ n. record n { deleted_at = none; is_primary = false }) (rows world laws s)
            (All-every _
              (λ n h. elim (Bool-cases (has_id m.id n)) [
                | inl e ↦ ground arith
                | inr e ↦ rw e at h
              ])
              (rows world laws s))

  create_mapping-Demotes :
      (now : ℕ) (user_id : String) (role : Role) (s : S)
      → Demotes s (create_mapping world now user_id role s)
  unfolding create_mapping Demotes primaries UniqueIds
  create_mapping-Demotes now user_id role s =
      let row : UserRole = record {
        id = world.new_id s;
        user_id = user_id;
        role_id = role.id;
        is_primary = false;
        created_at = now;
        deleted_at = none;
      } in
      (
        (λ u.
            subst (AllPairs DifferentIds) (sym (laws.table.rows_insert row s))
              (AllPairs-push DifferentIds (rows world laws s) row (laws.new_id_new s) u)),
        λ v.
            rw (laws.table.rows_insert row s)
              (rw (length-append (primary_of v) (rows world laws s) row) (omega arith)),
      )

  assign_role-Demotes :
      (now : ℕ) (user_id : String) (existing deleted : List UserRole) (role : Role) (s : S)
      → Demotes s (assign_role world now user_id existing deleted role s)
  unfolding assign_role
  assign_role-Demotes now user_id existing deleted role s =
      elim (Bool-cases (any (with_role role) existing)) [
        | inl e ↦ rw e (Demotes-refl s)
        | inr e ↦ rw e (found (find_last (with_role role) deleted))
      ]
    where
      found : (o : Option UserRole) → Demotes s (restore_or_create world now user_id role o s)
      found none = create_mapping-Demotes now user_id role s
      found (some m) = restore_mapping-Demotes m s

  pub assign_roles-Demotes :
      (now : ℕ) (user_id : String) (existing deleted : List UserRole) (roles : List Role) (s : S)
      → Demotes s (assign_roles world now user_id existing deleted roles s)
  unfolding assign_roles
  assign_roles-Demotes now user_id existing deleted [] s = Demotes-refl s
  assign_roles-Demotes now user_id existing deleted (role ∷ roles) s =
      let t : S = assign_role world now user_id existing deleted role s in
      Demotes-trans s t (assign_roles world now user_id existing deleted roles t)
        (assign_role-Demotes now user_id existing deleted role s)
        (assign_roles-Demotes now user_id existing deleted roles t)

  -- The mappings that a deletion leaves are still stored as they were read.
  pub delete-Stored :
      (user_id : String) (id : String) (now : ℕ) (m : UserRole) (s : S)
      → has_id id m ≡ false
      → Stored world laws user_id s m
      → Stored world laws user_id
          (world.mappings.update (has_id id) (λ n. record n { deleted_at = some now }) s)
          m
  unfolding Stored
  delete-Stored user_id id now m s off (here, known, a) = (
    ap (any (has_id m.id))
          (laws.table.rows_update (has_id id) (λ n. record n { deleted_at = some now }) s)
        ∙ (any-change_rows (has_id m.id) (has_id id) (λ n. record n { deleted_at = some now })
              (rows world laws s) (λ n. refl)
            ∙ here),
    subst (All Known)
        (sym (laws.table.rows_update (has_id id) (λ n. record n { deleted_at = some now }) s))
        (All-change_rows Known Known (has_id id) (λ n. record n { deleted_at = some now })
          (rows world laws s) step known),
    a,
  )
    where
      Known : UserRole → Type 0
      Known n = has_id m.id n ≡ true → n ≡ m

      step :
          (n : UserRole)
          → Known n
          → Known (if has_id id n then (record n { deleted_at = some now }) else n)
      step n k = elim (Bool-cases (has_id id n)) [
        | inl e ↦ rw e (λ h. let hit : has_id id m ≡ true = ap (has_id id) (sym (k h)) ∙ e in cc)
        | inr e ↦ rw e k
      ]
