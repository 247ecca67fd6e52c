-- ===== src/Accounts/Auth/Expiry.antt =====
-- _parseExpiryToSeconds of core/auth/auth.service.ts: `/^(\d+)(s|m|h|d)$/`, and 900 otherwise.
use recommendation_trip_plat.Base.{
  leb, eqb, if◌then◌else◌, or_else, ℕ, ◌+◌, ◌-◌, ◌*◌, String, ◌≡◌, refl, Bool, ◌&&◌, Option, none,
  some,
}
use Prim.Native.Char.{Char, code}

abbrev is_digit : Char → Bool
is_digit c = leb 48 (code c) && leb (code c) 57

-- `multipliers`, by the code point of the unit.
abbrev multiplier : ℕ → Option ℕ
multiplier c =
    if eqb c 115
    then some 1
    else if eqb c 109
    then some 60
    else if eqb c 104
    then some 3600
    else if eqb c 100
    then some 86400
    else none

-- The unit and nothing after it.
abbrev unit_of : String → Option ℕ
unit_of String.[] = none
unit_of (String.◌∷◌ c String.[]) = multiplier (code c)
unit_of (String.◌∷◌ c (String.◌∷◌ d s)) = none

abbrev in_seconds : ℕ → Option ℕ → Option ℕ
in_seconds value none = none
in_seconds value (some factor) = some (value * factor)

-- The digits that have been read have this value; none is left to match when the next is no digit.
unfoldable pub match_digits : ℕ → String → Option ℕ
match_digits value String.[] = none
match_digits value (String.◌∷◌ c s) =
    let rest = match_digits (value * 10 + (code c - 48)) s in
    if is_digit c then rest else in_seconds value (unit_of (String.◌∷◌ c s))

-- At least one digit.
unfoldable pub match_expiry : String → Option ℕ
unfolding match_digits
match_expiry String.[] = none
match_expiry (String.◌∷◌ c s) = if is_digit c then match_digits (code c - 48) s else none

unfoldable pub parse_expiry_to_seconds : String → ℕ
unfolding match_expiry
parse_expiry_to_seconds expiry = or_else (match_expiry expiry) 900

test_days : parse_expiry_to_seconds "7d" ≡ 604800
unfolding parse_expiry_to_seconds match_expiry match_digits
test_days = refl

test_minutes : parse_expiry_to_seconds "15m" ≡ 900
unfolding parse_expiry_to_seconds match_expiry match_digits
test_minutes = refl

test_word : parse_expiry_to_seconds "2 days" ≡ 900
unfolding parse_expiry_to_seconds match_expiry match_digits
test_word = refl
