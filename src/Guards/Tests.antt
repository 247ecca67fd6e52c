-- ===== src/Guards/Tests.antt =====
-- Runs of the guards.
use recommendation_trip_plat.Base.{
  Holds, String, or_else, All, ◌≡◌, ◌↔◌, true, none, some, [], ◌∷◌, arith, ok,
}
use recommendation_trip_plat.Guards.Access.{role_iff, HasRole, permission_iff}
use recommendation_trip_plat.Guards.{
  role_can_activate, RequestUser, includes, permission_can_activate, Hits,
}
use recommendation_trip_plat.Guards.RateLimit.{burst, minimum, burst_limit}

abbrev nobody : Hits
nobody key = none

burst_limit_example : burst "10.0.0.1" (0 ∷ 5 ∷ 59999 ∷ []) nobody ≡ minimum 3 30
burst_limit_example =
    burst_limit "10.0.0.1" 0 (5 ∷ 59999 ∷ []) nobody tt (ground arith, (ground arith, tt))

permission_iff_example :
    (permission_can_activate (some ("a" ∷ [])) (some ("b" ∷ "a" ∷ [])) ≡ ok true)
    ↔ All (λ name. includes (or_else (some ("b" ∷ "a" ∷ [])) []) name ≡ true) ("a" ∷ [])
permission_iff_example = permission_iff ("a" ∷ []) (some ("b" ∷ "a" ∷ []))

abbrev guide : RequestUser
guide = record { role_code = some "GUIDE"; role_codes = some [] }

role_iff_example : (role_can_activate (some ("ADMIN" ∷ "GUIDE" ∷ [])) (some guide) ≡ ok true) ↔ (
    (u : RequestUser) × (some guide ≡ some u)
    × ((name : String) × Holds name ("ADMIN" ∷ "GUIDE" ∷ []) × HasRole u name))
role_iff_example = role_iff "ADMIN" ("GUIDE" ∷ []) (some guide)
