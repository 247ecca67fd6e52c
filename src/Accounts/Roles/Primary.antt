-- ===== src/Accounts/Roles/Primary.antt =====
-- The choice of the primary role: the two updates, and what they leave.
use recommendation_trip_plat.Base.{
  All-every, if◌then◌else◌, Bool-cases, length, any, filter, All, AllPairs-map, Outcome, ◌≤◌,
  String, ◌≡◌, refl, sym, ap, subst, ◌∙◌, ◌≢◌, inl, inr, true, false, arith, ◌==◌, eq_iff, eq_refl,
  done, fail,
}
use recommendation_trip_plat.Base.Repository.Laws.{
  All-change_rows, length-change_rows, count-change_rows, count_one,
}
use recommendation_trip_plat.Accounts.Roles.{
  UserRole, RoleWorld, active_of, has_id, code_of, make_primary,
}
use recommendation_trip_plat.Accounts.Roles.Laws.{
  RoleWorldLaws, DifferentIds, primary_of, rows, UniqueIds, primaries, update-UniqueIds,
  update-primaries, Stored,
}

module _ {S : Type 0} (world : RoleWorld S) (laws : RoleWorldLaws world) where
  -- Exactly one active mapping of the user is primary, and it is to the role with the code.
  unfoldable pub Chosen : String → String → S → Type 0
  Chosen user_id code s =
      (primaries world laws user_id s ≡ 1)
      × All (λ m. primary_of user_id m ≡ true → code_of world s m ≡ code) (rows world laws s)

  -- A choice that fails changes nothing; one that returns has chosen, and no other user has more.
  abbrev pub Promotes : String → String → S → Outcome S (Unit {0}) → Type 0
  Promotes user_id code s (fail e t) = t ≡ s
  Promotes user_id code s (done _ t) =
      UniqueIds world laws t
      × Chosen user_id code t
      × ((v : String)
          → (v == user_id) ≡ false
          → primaries world laws v t ≤ primaries world laws v s)

  module _ (user_id : String) (s : S) (target : UserRole) where
    abbrev demoted : S
    demoted = world.mappings.update (active_of user_id) (λ m. record m { is_primary = false }) s

    abbrev Known : UserRole → Type 0
    Known m = has_id target.id m ≡ true → m ≡ target

    -- What the second update makes of a row that the first one has left.
    abbrev demote : UserRole → UserRole
    demote m = if active_of user_id m then record m { is_primary = false } else m

    abbrev promote : UserRole → UserRole
    promote m = if has_id target.id m then record m { is_primary = true } else m

    demote-id : (m : UserRole) → has_id target.id (demote m) ≡ has_id target.id m
    demote-id m = elim (Bool-cases (active_of user_id m)) [ inl e ↦ rw e | inr e ↦ rw e ]

    row_primary :
        (m : UserRole)
        → active_of user_id target ≡ true
        → Known m
        → primary_of user_id (promote (demote m)) ≡ has_id target.id (demote m)
    row_primary m a k = elim (Bool-cases (has_id target.id m)) [
      | inl e ↦
          let there : active_of user_id m ≡ true = ap (active_of user_id) (k e) ∙ a in ground arith
      | inr e ↦ elim (Bool-cases (active_of user_id m)) [
        | inl b ↦ ground arith
        | inr b ↦ ground arith
      ]
    ]

    row_other :
        (v : String) (m : UserRole)
        → (v == user_id) ≡ false
        → active_of user_id target ≡ true
        → Known m
        → primary_of v (promote (demote m)) ≡ true
        → primary_of v (demote m) ≡ true
    row_other v m n a k h = elim (Bool-cases (active_of user_id m)) [
      | inl b ↦
          let mine : m.user_id ≡ user_id = (eq_iff m.user_id user_id).0 (ground arith) in
          let other : (m.user_id == v) ≡ false = ap (λ z. z == v) mine ∙ apart v n in
          elim (Bool-cases (has_id target.id m)) [ inl e ↦ ground arith | inr e ↦ ground arith ]
      | inr b ↦ elim (Bool-cases (has_id target.id m)) [
        | inl e ↦ let there : active_of user_id m ≡ true = ap (active_of user_id) (k e) ∙ a in cc
        | inr e ↦ ground arith
      ]
    ]
      where
        apart : (z : String) → (z == user_id) ≡ false → (user_id == z) ≡ false
        apart z f = elim (Bool-cases (user_id == z)) [ inl e ↦ absurd (same z e f) | inr e ↦ e ]
          where
            same : (z : String) → (user_id == z) ≡ true → (z == user_id) ≢ false
            same z e f =
                let g : (z == user_id) ≡ true =
                  ap (λ y. y == user_id) (sym ((eq_iff user_id z).0 e)) ∙ eq_refl user_id in
                cc

    row_role : (m : UserRole) → (promote (demote m)).role_id ≡ m.role_id
    row_role m = elim (Bool-cases (active_of user_id m)) [
      | inl b ↦ elim (Bool-cases (has_id target.id m)) [ inl e ↦ rw b (rw e) | inr e ↦ rw b (rw e) ]
      | inr b ↦ elim (Bool-cases (has_id target.id m)) [ inl e ↦ rw b (rw e) | inr e ↦ rw b (rw e) ]
    ]

    demoted-All :
        (P Q : UserRole → Type 0)
        → ((m : UserRole) → P m → Q (demote m))
        → All P (rows world laws s)
        → All Q (rows world laws demoted)
    demoted-All P Q k h =
        subst (All Q)
          (sym
            (laws.table.rows_update (active_of user_id) (λ m. record m { is_primary = false }) s))
          (All-change_rows P Q (active_of user_id) (λ m. record m { is_primary = false })
            (rows world laws s) k h)

    twice :
        (P Q : UserRole → Type 0)
        → ((m : UserRole) → P m → Q (promote (demote m)))
        → All P (rows world laws s)
        → All Q (rows world laws (make_primary world user_id target s))
    unfolding make_primary
    twice P Q k h =
        subst (All Q)
          (sym (
            laws.table.rows_update (has_id target.id) (λ m. record m { is_primary = true })
              demoted))
          (All-change_rows (λ m. Q (promote m)) Q (has_id target.id)
            (λ m. record m { is_primary = true }) (rows world laws demoted) (λ m q. q)
            (demoted-All P (λ m. Q (promote m)) k h))

    pub make_primary-UniqueIds :
        UniqueIds world laws s → UniqueIds world laws (make_primary world user_id target s)
    unfolding make_primary
    make_primary-UniqueIds h =
        update-UniqueIds world laws (has_id target.id) (λ m. record m { is_primary = true }) demoted
          (λ m. refl)
          (update-UniqueIds world laws (active_of user_id) (λ m. record m { is_primary = false }) s
            (λ m. refl) h)

    -- Exactly one row has the identifier of the target.
    count_target :
        UniqueIds world laws s
        → any (has_id target.id) (rows world laws s) ≡ true
        → length (filter (has_id target.id) (rows world laws demoted)) ≡ 1
    unfolding UniqueIds
    count_target u here =
        rw (laws.table.rows_update (active_of user_id) (λ m. record m { is_primary = false }) s) (
          count-change_rows (has_id target.id) (has_id target.id) (active_of user_id)
            (λ m. record m { is_primary = false }) (rows world laws s)
            (All-every (λ m. has_id target.id (demote m) ≡ has_id target.id m) demote-id
              (rows world laws s))
          ∙ count_one (has_id target.id) (rows world laws s)
              (AllPairs-map apart (rows world laws s) u) here)
      where
        apart :
            (m n : UserRole)
            → DifferentIds m n
            → has_id target.id m ≡ true
            → has_id target.id n ≡ false
        apart m n d e = ap (λ k. n.id == k) (sym ((eq_iff m.id target.id).0 e)) ∙ d

    make_primary-one :
        UniqueIds world laws s
        → Stored world laws user_id s target
        → primaries world laws user_id (make_primary world user_id target s) ≡ 1
    unfolding make_primary primaries Stored
    make_primary-one u (here, known, a) =
        rw (laws.table.rows_update (has_id target.id) (λ m. record m { is_primary = true }) demoted)
          (count-change_rows (primary_of user_id) (has_id target.id) (has_id target.id)
              (λ m. record m { is_primary = true }) (rows world laws demoted)
              (demoted-All Known (λ m. primary_of user_id (promote m) ≡ has_id target.id m)
                (λ m k. row_primary m a k) known)
            ∙ count_target u here)

    pub make_primary-other :
        (v : String)
        → (v == user_id) ≡ false
        → Stored world laws user_id s target
        → primaries world laws v (make_primary world user_id target s) ≤ primaries world laws v s
    unfolding make_primary primaries Stored
    make_primary-other v n (here, known, a) =
        let first : primaries world laws v demoted ≤ primaries world laws v s =
          update-primaries world laws v (active_of user_id) (λ m. record m { is_primary = false }) s
            (λ m e h. cc) in
        let second : primaries world laws v (make_primary world user_id target s)
            ≤ primaries world laws v demoted =
          rw
            (laws.table.rows_update (has_id target.id) (λ m. record m { is_primary = true })
              demoted)
            (length-change_rows (primary_of v) (has_id target.id)
              (λ m. record m { is_primary = true }) (rows world laws demoted)
              (demoted-All Known (λ m. primary_of v (promote m) ≡ true → primary_of v m ≡ true)
                (λ m k. row_other v m n a k) known)) in
        omega (arith, first, second)

    make_primary-code :
        (id : String)
        → world.role_code id (make_primary world user_id target s) ≡ world.role_code id s
    unfolding make_primary
    make_primary-code id =
        laws.code_after_update (has_id target.id) (λ m. record m { is_primary = true }) id demoted
        ∙ laws.code_after_update (active_of user_id) (λ m. record m { is_primary = false }) id s

    -- Whoever is primary afterwards is the target, in the role of which it is.
    row_code :
        (m : UserRole)
        → active_of user_id target ≡ true
        → Known m
        → primary_of user_id (promote (demote m)) ≡ true
        → (promote (demote m)).role_id ≡ target.role_id
    row_code m a k h =
        let at : has_id target.id m ≡ true = sym (demote-id m) ∙ (sym (row_primary m a k) ∙ h) in
        row_role m ∙ ap (λ (z : UserRole). z.role_id) (k at)

    pub make_primary-Chosen :
        UniqueIds world laws s
        → Stored world laws user_id s target
        → Chosen user_id (code_of world s target) (make_primary world user_id target s)
    unfolding Chosen Stored
    make_primary-Chosen u (here, known, a) = (
      make_primary-one u (here, known, a),
      twice Known
          (λ m.
            primary_of user_id m ≡ true
            → code_of world (make_primary world user_id target s) m ≡ code_of world s target)
          (λ m k h.
            ap (λ id. world.role_code id (make_primary world user_id target s)) (row_code m a k h)
            ∙ make_primary-code target.role_id)
          known,
    )
