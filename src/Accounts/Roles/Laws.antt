-- ===== src/Accounts/Roles/Laws.antt =====
-- The laws of the tables of the roles, and what the steps of the service do to the mappings.
use recommendation_trip_plat.Base.{
  if◌then◌else◌, Bool-cases, length, any, filter, All, AllPairs, All-filter, All-every, All-zip, ℕ,
  ◌≤◌, String, ◌≡◌, sym, subst, inl, inr, Bool, true, false, ◌&&◌, List, ◌==◌,
}
use recommendation_trip_plat.Base.Repository.{RepositoryLaws}
use recommendation_trip_plat.Base.Repository.Laws.{
  All-keyed, All-test, AllPairs-change_rows, length-change_rows,
}
use recommendation_trip_plat.Accounts.Roles.{
  UserRole, RoleWorld, active_of, has_id, mappings_with_roles,
}

-- A change of the mappings leaves the roles alone, and an insert gets a new identifier.
pub record RoleWorldLaws {S : Type 0} (world : RoleWorld S) : Type 1 where
  pub table : RepositoryLaws world.mappings
  pub new_id_new : (s : S) → All (λ m. (world.new_id s == m.id) ≡ false) (table.rows s)
  pub code_after_update :
      (p : UserRole → Bool) (f : UserRole → UserRole) (id : String) (s : S)
      → world.role_code id (world.mappings.update p f s) ≡ world.role_code id s
  pub roles_after_update :
      (p : UserRole → Bool) (f : UserRole → UserRole) (codes : List String) (s : S)
      → world.roles_by_code codes (world.mappings.update p f s) ≡ world.roles_by_code codes s
  pub user_after_update :
      (p : UserRole → Bool) (f : UserRole → UserRole) (id : String) (s : S)
      → world.user_exists id (world.mappings.update p f s) ≡ world.user_exists id s

abbrev pub DifferentIds : UserRole → UserRole → Type 0
DifferentIds m n = has_id m.id n ≡ false

abbrev pub primary_of : String → UserRole → Bool
primary_of user_id m = m.is_primary && active_of user_id m

module _ {S : Type 0} (world : RoleWorld S) (laws : RoleWorldLaws world) where
  abbrev pub rows : S → List UserRole
  rows s = laws.table.rows s

  -- The primary key of the table.
  unfoldable pub UniqueIds : S → Type 0
  UniqueIds s = AllPairs DifferentIds (rows s)

  -- How many of the active mappings of a user are marked as the primary one.
  unfoldable pub primaries : String → S → ℕ
  primaries user_id s = length (filter (primary_of user_id) (rows s))

  pub update-UniqueIds :
      (p : UserRole → Bool) (f : UserRole → UserRole) (s : S)
      → ((m : UserRole) → (f m).id ≡ m.id)
      → UniqueIds s
      → UniqueIds (world.mappings.update p f s)
  unfolding UniqueIds
  update-UniqueIds p f s k h =
      subst (AllPairs DifferentIds) (sym (laws.table.rows_update p f s))
        (AllPairs-change_rows DifferentIds p f (rows s) same h)
    where
      kept : (m : UserRole) → (if p m then f m else m).id ≡ m.id
      kept m = elim (Bool-cases (p m)) [ inl e ↦ rw e (k m) | inr e ↦ rw e ]

      same :
          (m n : UserRole)
          → DifferentIds m n
          → DifferentIds (if p m then f m else m) (if p n then f n else n)
      same m n h = rw (kept m) (rw (kept n) h)

  -- A change by which no mapping becomes a primary one.
  pub update-primaries :
      (user_id : String) (p : UserRole → Bool) (f : UserRole → UserRole) (s : S)
      → ((m : UserRole)
          → p m ≡ true
          → primary_of user_id (f m) ≡ true
          → primary_of user_id m ≡ true)
      → primaries user_id (world.mappings.update p f s) ≤ primaries user_id s
  unfolding primaries
  update-primaries user_id p f s k = rw (laws.table.rows_update p f s) (
      length-change_rows (primary_of user_id) p f (rows s) (
        All-every
          (λ m. primary_of user_id (if p m then f m else m) ≡ true → primary_of user_id m ≡ true)
          step (rows s)))
    where
      step :
          (m : UserRole)
          → primary_of user_id (if p m then f m else m) ≡ true
          → primary_of user_id m ≡ true
      step m h = elim (Bool-cases (p m)) [ inl e ↦ k m e (rw e at h) | inr e ↦ rw e at h ]

  -- The mapping is stored as it was read, and is an active one of the user.
  unfoldable pub Stored : String → S → UserRole → Type 0
  Stored user_id s m =
      (any (has_id m.id) (rows s) ≡ true)
      × All (λ n. has_id m.id n ≡ true → n ≡ m) (rows s)
      × (active_of user_id m ≡ true)

  -- What the service reads as the mappings of the user.
  pub mappings_with_roles-Stored :
      (user_id : String) (s : S)
      → UniqueIds s
      → All (Stored user_id s) (mappings_with_roles world user_id s)
  unfolding UniqueIds Stored mappings_with_roles
  mappings_with_roles-Stored user_id s h =
      (laws.table.find-All (Stored user_id s) (active_of user_id) s).0 (
        All-zip (λ m (b, c) a. (b, c, a)) (filter (active_of user_id) (rows s))
          (All-filter
            (λ m.
              (any (has_id m.id) (rows s) ≡ true)
              × All (λ n. has_id m.id n ≡ true → n ≡ m) (rows s))
            (active_of user_id) (rows s) (All-keyed (λ (m : UserRole). m.id) (rows s) h))
          (All-test (active_of user_id) (rows s)))
