-- ===== src/Trip/DateRange.antt =====
-- modules/trip/domain/value-objects/trip-date-range.vo.ts: an interval of calendar days.
-- A time value (`Date.getTime()`) is counted in milliseconds from the start of the year 0 and not
-- of 1970: order and differences are the same, and no time that the code reads is negative.
-- `Date` is ECMAScript's as Node runs it: a text names a month from 1 to 12 and a day from 1 to 31,
-- and a day past the end of its month stands for a day of the next month.
pub mod Calendar
pub mod Laws
use Prim.Native.Nat.{min}
use recommendation_trip_plat.Base.{
  ℕ, zero, suc, ◌+◌, ◌-◌, ◌*◌, ◌/◌, ◌%◌, String, Bool, true, false, not, ◌&&◌, ◌||◌, Option, none,
  some, List, [], ◌∷◌, Result, ok, err, invalid_trip_date_range, ltb, leb, eqb, and_then,
  if◌then◌else◌,
}
use recommendation_trip_plat.Trip.TimeSlot.{codes, in_class}

abbrev pub milliseconds_in_day : ℕ
milliseconds_in_day = 24 * 60 * 60 * 1000

unfoldable pub is_leap : ℕ → Bool
is_leap year = eqb (year % 4) 0 && (not (eqb (year % 100) 0) || eqb (year % 400) 0)

-- Days from the start of the year 0 to the start of a year.
unfoldable pub days_before_year : ℕ → ℕ
days_before_year year = 365 * year + (year + 3) / 4 - (year + 99) / 100 + (year + 399) / 400

-- Days from the start of a common year to the start of its month, counted from 1.
pub days_before_month : ℕ → ℕ
days_before_month month =
    if leb month 1
    then 0
    else if leb month 2
    then 31
    else if leb month 3
    then 59
    else if leb month 4
    then 90
    else if leb month 5
    then 120
    else if leb month 6
    then 151
    else if leb month 7
    then 181
    else if leb month 8
    then 212
    else if leb month 9
    then 243
    else if leb month 10
    then 273
    else if leb month 11
    then 304
    else 334

-- ECMAScript's MakeDay, for a month from 1 to 12 and a day from 1 to 31.
unfoldable pub make_day : ℕ → ℕ → ℕ → ℕ
unfolding is_leap days_before_year days_before_month
make_day year month day =
    days_before_year year
    + days_before_month month
    + (if is_leap year && ltb 2 month then 1 else 0)
    + (day - 1)

-- A `Date` object: invalid, or its UTC fields. What it holds of the time of day is dropped by every
-- use.
pub data DateValue : Type 0 where
  text : String → DateValue
  date : (year month day : ℕ) → DateValue
  invalid_date : DateValue

digit : ℕ → Bool
digit = in_class b'0' b'9'

-- /^\d{4}-\d{2}-\d{2}$/, with the numbers that the digits write
unfoldable pub date_only_regex : List ℕ → Option (ℕ × ℕ × ℕ)
unfolding digit
date_only_regex (a ∷ b ∷ c ∷ d ∷ dash ∷ m ∷ n ∷ dash' ∷ x ∷ y ∷ []) =
    if (digit a && digit b && (digit c && digit d))
      && (eqb dash b'-' && eqb dash' b'-')
      && (digit m && digit n && (digit x && digit y))
    then some (
      (a - 48) * 1000 + (b - 48) * 100 + (c - 48) * 10 + (d - 48),
      (m - 48) * 10 + (n - 48),
      (x - 48) * 10 + (y - 48),
    )
    else none
date_only_regex _ = none

-- `new Date(`${value}T00:00:00.000Z`)` and its test for NaN, at a text of the right format
unfoldable pub parse_matched : Option (ℕ × ℕ × ℕ) → Result ℕ
parse_matched none = err (invalid_trip_date_range "trip_date_format_must_be_yyyy_mm_dd")
parse_matched (some (year, month, day)) =
    if in_class 1 12 month && in_class 1 31 day
    then ok (make_day year month day * milliseconds_in_day)
    else err (invalid_trip_date_range "trip_date_is_invalid")

-- `Date.UTC(year, …)` takes a year below 100 for one of the twentieth century.
abbrev utc_year : ℕ → ℕ
utc_year year = if ltb year 100 then year + 1900 else year

unfoldable pub normalize_date : DateValue → Result ℕ
unfolding date_only_regex parse_matched
normalize_date (text value) = parse_matched (date_only_regex (codes value))
normalize_date (date year month day) = ok (make_day (utc_year year) month day * milliseconds_in_day)
normalize_date invalid_date = err (invalid_trip_date_range "trip_date_is_invalid")

pub record TripDateRange : Type 0 where
  pub start_date : ℕ
  pub end_date : ℕ

-- The constructor.
unfoldable pub new_trip_date_range : DateValue → DateValue → Result TripDateRange
new_trip_date_range start_value end_value = and_then (normalize_date start_value) λ start_date.
    and_then (normalize_date end_value) λ end_date.
      if ltb end_date start_date
      then err (invalid_trip_date_range "trip_start_date_must_be_before_or_equal_end_date")
      else ok (record { start_date = start_date; end_date = end_date })

unfoldable pub contains_date : TripDateRange → DateValue → Result Bool
contains_date this value =
    and_then (normalize_date value)
      λ target. ok (leb this.start_date target && leb target this.end_date)

unfoldable pub duration_in_days : TripDateRange → ℕ
duration_in_days this = (this.end_date - this.start_date) / milliseconds_in_day + 1

unfoldable pub equals : TripDateRange → TripDateRange → Bool
equals this other = eqb this.start_date other.start_date && eqb this.end_date other.end_date
