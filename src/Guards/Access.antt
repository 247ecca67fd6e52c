-- ===== src/Guards/Access.antt =====
-- Who passes the guards on permissions and on roles.
use recommendation_trip_plat.Base.{
  Holds-any, includes_iff, ◌∙◌, ap, false, none, any-Holds, is_empty, ◌⊎◌, Holds, subst, sym, any,
  inl, inr, Bool-cases, or_else, All, String, ◌≡◌, refl, ◌↔◌, Bool, true, Option, some, List, [],
  ◌∷◌, arith, ok,
}
use recommendation_trip_plat.Guards.{
  single_role, candidate_roles, role_can_activate, RequestUser, includes, every,
  permission_can_activate,
}

every-All : (p : String → Bool) (xs : List String) → every p xs ≡ true → All (λ x. p x ≡ true) xs
unfolding every
every-All p [] h = tt
every-All p (x ∷ xs) h = (ground arith, every-All p xs (ground arith))

All-every : (p : String → Bool) (xs : List String) → All (λ x. p x ≡ true) xs → every p xs ≡ true
unfolding every
All-every p [] h = refl
All-every p (x ∷ xs) (h, hs) = rw h (All-every p xs hs)

-- A handler that requires permissions lets through exactly the requests whose user has all of them;
-- without a user or permissions only one that requires none.
pub permission_iff :
    (required : List String) (permissions : Option (List String))
    → (permission_can_activate (some required) permissions ≡ ok true)
      ↔ All (λ name. includes (or_else permissions []) name ≡ true) required
unfolding permission_can_activate
permission_iff [] permissions = (λ h. tt, λ h. refl)
permission_iff (r ∷ rs) permissions = (
  λ h.
      every-All (includes (or_else permissions [])) (r ∷ rs)
        (elim (Bool-cases (every (includes (or_else permissions [])) (r ∷ rs))) [
          | inl e ↦ e
          | inr e ↦ cc (rw e at h)
        ]),
  λ h. rw (All-every (includes (or_else permissions [])) (r ∷ rs) h),
)

-- The user has the role: it is one of the list of codes, or, where that is missing or empty, the
-- single code, which is not empty.
abbrev pub HasRole : RequestUser → String → Type 0
HasRole user role =
    ((codes : List String) × (user.role_codes ≡ some codes) × Holds role codes)
    ⊎ (((user.role_codes ≡ none) ⊎ (user.role_codes ≡ some []))
        × (user.role_code ≡ some role)
        × (is_empty role ≡ false))

single_role_iff :
    (code : Option String) (role : String)
    → Holds role (single_role code) ↔ ((code ≡ some role) × (is_empty role ≡ false))
single_role_iff none role = (λ h. elim h [ ], λ (e, n). cc)
single_role_iff (some code) role = elim (Bool-cases (is_empty code)) [
  | inl e ↦ (
    λ h. elim (rw e at h) [ ],
    λ (q, n).
        let same : code ≡ role = cc in
        let bad : is_empty role ≡ true = ap is_empty (sym same) ∙ e in cc,
  )
  | inr e ↦ (
    λ h. elim (rw e at h) [
      | inl same ↦ (ap some same, ap is_empty (sym same) ∙ e)
      | inr none_here ↦ elim none_here [ ]
    ],
    λ (q, n). let same : code ≡ role = cc in rw e (inl same),
  )
]

candidate_roles_iff :
    (code : Option String) (codes : Option (List String)) (role : String)
    → Holds role (candidate_roles (some (record { role_code = code; role_codes = codes })))
      ↔ HasRole (record { role_code = code; role_codes = codes }) role
candidate_roles_iff code none role =
    let (f, g) = single_role_iff code role in
    (
      λ h. let (e, n) = f h in inr (inl refl, e, n),
      λ h. elim h [ inl (c, q, _) ↦ cc | inr (_, e, n) ↦ g (e, n) ],
    )
candidate_roles_iff code (some []) role =
    let (f, g) = single_role_iff code role in
    (
      λ h. let (e, n) = f h in inr (inr refl, e, n),
      λ h. elim h [
        | inl (c, q, k) ↦ let same : c ≡ [] = cc in elim (subst (λ xs. Holds role xs) same k) [ ]
        | inr (_, e, n) ↦ g (e, n)
      ],
    )
candidate_roles_iff code (some (x ∷ xs)) role = (
  λ h. inl (x ∷ xs, refl, h),
  λ h. elim h [
    | inl (c, q, k) ↦ let same : c ≡ x ∷ xs = cc in subst (λ xs. Holds role xs) same k
    | inr (q, _, _) ↦ elim q [ inl e ↦ cc | inr e ↦ cc ]
  ],
)

-- A handler that requires roles lets through exactly the requests that have a user with one of
-- them; the single role code of the user counts only where the list of codes is missing or empty.
pub role_iff :
    (role : String) (roles : List String) (user : Option RequestUser)
    → (role_can_activate (some (role ∷ roles)) user ≡ ok true) ↔ (
        (u : RequestUser) × (user ≡ some u)
        × ((name : String) × Holds name (role ∷ roles) × HasRole u name))
unfolding role_can_activate
role_iff role roles none = (
  λ h. elim (Bool-cases (any (includes []) (role ∷ roles))) [
    | inl e ↦
        let (n, _, has) = any-Holds (includes []) (role ∷ roles) e in
        elim ((includes_iff [] n).0 has) [ ]
    | inr e ↦ cc (rw e at h)
  ],
  λ (u, q, _). cc,
)
role_iff role roles (some user) =
    let test : String → Bool = includes (candidate_roles (some user)) in
    (
      λ h. elim (Bool-cases (any test (role ∷ roles))) [
        | inl e ↦
            let (n, here, has) = any-Holds test (role ∷ roles) e in
            (
              user,
              refl,
              (
                n,
                here,
                (candidate_roles_iff user.role_code user.role_codes n).0
                    ((includes_iff (candidate_roles (some user)) n).0 has),
              ),
            )
        | inr e ↦ cc (rw e at h)
      ],
      λ (u, q, (n, here, has)).
          let same : user ≡ u = cc in
          let holds : Holds n (candidate_roles (some user)) =
            (candidate_roles_iff user.role_code user.role_codes n).1
              (subst (λ z. HasRole z n) (sym same) has) in
          rw (
            Holds-any test n (role ∷ roles) here
              ((includes_iff (candidate_roles (some user)) n).1 holds)),
    )
