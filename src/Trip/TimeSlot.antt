-- ===== src/Trip/TimeSlot.antt =====
-- modules/trip/domain/value-objects/time-slot.vo.ts: a slot of one day, in minutes since midnight.
-- A text is read by its code points.
pub mod Laws
use Prim.Native.Char.{code}
use Prim.Native.String
use recommendation_trip_plat.Base.{
  ℕ, ◌+◌, ◌-◌, ◌*◌, String, Bool, ◌&&◌, ◌||◌, Option, none, some, List, [], ◌∷◌, Result, ok, err,
  invalid_time_slot, ltb, leb, eqb, and_then, if◌then◌else◌,
}

abbrev pub hours_in_day : ℕ
hours_in_day = 24

abbrev pub minutes_in_hour : ℕ
minutes_in_hour = 60

abbrev pub max_minute_value : ℕ
max_minute_value = hours_in_day * minutes_in_hour

abbrev pub codes : String → List ℕ
codes String.[] = []
codes (String.◌∷◌ c s) = code c ∷ codes s

-- `[a-b]` in a regular expression
abbrev pub in_class : ℕ → ℕ → ℕ → Bool
in_class a b c = leb a c && leb c b

-- /^([01]\d|2[0-3]):([0-5]\d)$/, with the numbers of its two groups
unfoldable pub time_24h_regex : List ℕ → Option (ℕ × ℕ)
time_24h_regex (h ∷ k ∷ colon ∷ m ∷ n ∷ []) =
    if (in_class b'0' b'1' h && in_class b'0' b'9' k || eqb h b'2' && in_class b'0' b'3' k)
      && (eqb colon b':' && (in_class b'0' b'5' m && in_class b'0' b'9' n))
    then some ((h - 48) * 10 + (k - 48), (m - 48) * 10 + (n - 48))
    else none
time_24h_regex _ = none

unfoldable pub minutes_of_match : Option (ℕ × ℕ) → Result ℕ
minutes_of_match none = err (invalid_time_slot "time_slot_invalid_format")
minutes_of_match (some (hours, minutes)) =
    let total = hours * minutes_in_hour + minutes in
    if ltb total 0 || leb max_minute_value total
    then err (invalid_time_slot "time_slot_out_of_range")
    else ok total

unfoldable pub to_minutes : String → Result ℕ
unfolding time_24h_regex minutes_of_match
to_minutes time = minutes_of_match (time_24h_regex (codes time))

pub record TimeSlot : Type 0 where
  pub start_time : String
  pub end_time : String
  pub start_minutes : ℕ
  pub end_minutes : ℕ

-- The constructor.
unfoldable pub new_time_slot : String → String → Result TimeSlot
new_time_slot start_time end_time = and_then (to_minutes start_time) λ start_minutes.
    and_then (to_minutes end_time) λ end_minutes.
      if leb end_minutes start_minutes
      then err (invalid_time_slot "time_slot_start_must_be_before_end")
      else ok (record {
        start_time = start_time;
        end_time = end_time;
        start_minutes = start_minutes;
        end_minutes = end_minutes;
      })

unfoldable pub overlaps : TimeSlot → TimeSlot → Bool
overlaps this other =
    ltb this.start_minutes other.end_minutes && ltb other.start_minutes this.end_minutes

unfoldable pub duration_in_minutes : TimeSlot → ℕ
duration_in_minutes this = this.end_minutes - this.start_minutes

unfoldable pub equals : TimeSlot → TimeSlot → Bool
equals this other =
    eqb this.start_minutes other.start_minutes && eqb this.end_minutes other.end_minutes

unfoldable pub includes : TimeSlot → String → Result Bool
includes this time =
    and_then (to_minutes time)
      λ minute. ok (leb this.start_minutes minute && ltb minute this.end_minutes)
