-- ===== src/Guards.antt =====
-- core/guards/permission.guard.ts, core/guards/role.guard.ts and
-- modules/place/catalog/presentation/guards/nearby-rate-limit.guard.ts. What the decorators require
-- of a handler and what the request holds are arguments; the map of hits is a function.
pub mod RateLimit
pub mod Access
mod Tests
use Prim.Native.Char.{code}
use Prim.Native.String
use recommendation_trip_plat.Base.{
  leb, eqb, if◌then◌else◌, or_else, any, Result, Method, trim, is_empty, ℕ, ◌+◌, ◌-◌, ◌/◌, String,
  Bool, true, ◌&&◌, Option, none, some, List, [], ◌∷◌, map, ◌==◌, forbidden,
  too_many_nearby_requests, ok, err, done, fail,
}

abbrev pub includes : List String → String → Bool
includes names name = any (λ n. n == name) names

unfoldable pub every : (String → Bool) → List String → Bool
every p [] = true
every p (x ∷ xs) = p x && every p xs

-- `PermissionGuard.canActivate`
unfoldable pub permission_can_activate : Option (List String) → Option (List String) → Result Bool
permission_can_activate none permissions = ok true
permission_can_activate (some []) permissions = ok true
permission_can_activate (some required) permissions =
    if every (includes (or_else permissions [])) required
    then ok true
    else err (forbidden "insufficient_permissions")

-- The user of a request: `roleCode` and `roleCodes`.
pub record RequestUser : Type 0 where
  pub role_code : Option String
  pub role_codes : Option (List String)

abbrev pub single_role : Option String → List String
single_role none = []
single_role (some role) = if is_empty role then [] else role ∷ []

abbrev pub candidate_roles : Option RequestUser → List String
candidate_roles none = []
candidate_roles (some user) = elim user.role_codes [
  | none ↦ single_role user.role_code
  | some roles ↦ elim roles [ [] ↦ single_role user.role_code | role ∷ more ↦ role ∷ more ]
]

-- `RoleGuard.canActivate`
unfoldable pub role_can_activate : Option (List String) → Option RequestUser → Result Bool
role_can_activate none user = ok true
role_can_activate (some []) user = ok true
role_can_activate (some required) user =
    if any (includes (candidate_roles user)) required
    then ok true
    else err (forbidden "insufficient_roles")

pub record HitBucket : Type 0 where
  pub window_start_ms : ℕ
  pub count : ℕ

abbrev pub Hits : Type 0
Hits = String → Option HitBucket

abbrev pub max_requests_per_window : ℕ
max_requests_per_window = 30

abbrev pub window_ms : ℕ
window_ms = 60000

-- `text.split(',')[0]`
unfoldable pub before_comma : String → String
before_comma String.[] = ""
before_comma (String.◌∷◌ c s) = if eqb (code c) b',' then "" else String.◌∷◌ c (before_comma s)

-- The header, if it is one text, and the address of the request.
unfoldable pub resolve_client_key : Option String → Option String → String
unfolding before_comma
resolve_client_key forwarded ip =
    let header = or_else forwarded "" in
    let address = or_else ip "" in
    if is_empty header
    then (if is_empty address then "unknown" else address)
    else trim (before_comma header)

abbrev pub set_hits : String → HitBucket → Hits → Hits
set_hits key bucket hits = λ k. if key == k then some bucket else hits k

abbrev pub is_expired : ℕ → HitBucket → Bool
is_expired now bucket = leb window_ms (now - bucket.window_start_ms)

abbrev pub hit : String → ℕ → Option HitBucket → Method Hits Bool
hit key now none hits = done true (set_hits key (record { window_start_ms = now; count = 1 }) hits)
hit key now (some bucket) hits =
    if is_expired now bucket
    then done true (set_hits key (record { window_start_ms = now; count = 1 }) hits)
    else (if leb max_requests_per_window bucket.count
        then fail
            (too_many_nearby_requests ((bucket.window_start_ms + window_ms - now + 999) / 1000))
            hits
        else done true (set_hits key (record bucket { count = bucket.count + 1 }) hits))

-- `NearbyRateLimitGuard.canActivate` for a client at a time.
unfoldable pub nearby_can_activate : String → ℕ → Method Hits Bool
nearby_can_activate key now hits = hit key now (hits key) hits
