-- ===== src/Trip/DateRange/Calendar.antt =====
-- Calendar days, their order and their texts, and the number that MakeDay gives them.
use recommendation_trip_plat.Trip.DateRange.{
  milliseconds_in_day, make_day, is_leap, days_before_year, days_before_month,
}
use recommendation_trip_plat.Base.{
  ◌∷◌, [], ◌%◌, refl, ◌*◌, ◌-◌, ◌/◌, inr, inl, List, ◌↔◌, ◌⊎◌, ap, eqb, ◌||◌, ℕ, ◌+◌, ◌<◌, ◌≤◌, ◌≡◌,
  Bool, true, false, arith, ltb, ◌&&◌, if◌then◌else◌,
}
use Prim.Native.Nat.{compare, Ordering}

-- The days of a month, by whether its year is a leap year.
abbrev pub days_in_month : Bool → ℕ → ℕ
days_in_month leap month =
    if eqb month 2
    then (if leap then 29 else 28)
    else if eqb month 4 || eqb month 6 || (eqb month 9 || eqb month 11)
    then 30
    else 31

pub record Day : Type 0 where
  pub year : ℕ
  pub month : ℕ
  pub day : ℕ

-- A day that the calendar has.
pub record IsDay (d : Day) : Type 0 where
  pub month_low : 1 ≤ d.month
  pub month_high : d.month ≤ 12
  pub day_low : 1 ≤ d.day
  pub day_high : d.day ≤ days_in_month (is_leap d.year) d.month

-- The order of the calendar.
abbrev pub Before : Day → Day → Type 0
Before a b =
    (a.year < b.year)
    ⊎ (a.year ≡ b.year) × (a.month < b.month)
    ⊎ (a.year ≡ b.year) × (a.month ≡ b.month) × (a.day < b.day)

-- "YYYY-MM-DD", as code points.
abbrev pub date_text : Day → List ℕ
date_text d =
    (d.year / 1000 + 48)
    ∷ (d.year / 100 % 10 + 48)
    ∷ (d.year / 10 % 10 + 48)
    ∷ (d.year % 10 + 48)
    ∷ b'-'
    ∷ (d.month / 10 + 48)
    ∷ (d.month % 10 + 48)
    ∷ b'-'
    ∷ (d.day / 10 + 48)
    ∷ (d.day % 10 + 48)
    ∷ []

abbrev pub time_of : Day → ℕ
time_of d = make_day d.year d.month d.day * milliseconds_in_day

abbrev pub offset : Bool → ℕ → ℕ
offset leap month = days_before_month month + (if leap && ltb 2 month then 1 else 0)

offset_end :
    (leap : Bool) (m : ℕ)
    → 1 ≤ m
    → m ≤ 12
    → offset leap m + days_in_month leap m ≤ (if leap then 366 else 365)
unfolding days_before_month
offset_end true m h k = ground arith
offset_end false m h k = ground arith

pub month_suc :
    (leap : Bool) (m : ℕ)
    → 1 ≤ m
    → m < 12
    → offset leap m + days_in_month leap m ≡ offset leap (m + 1)
unfolding days_before_month
month_suc true m h k = ground arith
month_suc false m h k = ground arith

year_suc :
    (y : ℕ) → days_before_year (y + 1) ≡ days_before_year y + (if is_leap y then 366 else 365)
unfolding days_before_year is_leap
year_suc y = ground arith

year_mono : (y z : ℕ) → y ≤ z → days_before_year y ≤ days_before_year z
unfolding days_before_year
year_mono y z h = omega arith

month_mono : (leap : Bool) (m n : ℕ) → m ≤ n → offset leap m ≤ offset leap n
unfolding days_before_month
month_mono true m n h = ground arith
month_mono false m n h = ground arith

pub day_number : (y m d : ℕ) → make_day y m d ≡ days_before_year y + offset (is_leap y) m + (d - 1)
unfolding make_day
day_number y m d = omega arith

year_length : (leap : Bool) → (if leap then 366 else 365) ≤ 366
year_length leap = ground arith

-- A later day has a later number.
make_day-lt :
    (a b : Day)
    → IsDay a
    → IsDay b
    → Before a b
    → make_day a.year a.month a.day < make_day b.year b.month b.day
make_day-lt a b ha hb (inl y) = omega (
  arith,
  day_number a.year a.month a.day,
  day_number b.year b.month b.day,
  offset_end (is_leap a.year) a.month ha.month_low ha.month_high,
  year_suc a.year,
  year_mono (a.year + 1) b.year (omega arith),
  ha.day_high,
  ha.day_low,
)
make_day-lt a b ha hb (inr (inl (y, m))) = omega (
  arith,
  day_number a.year a.month a.day,
  day_number b.year b.month b.day,
  month_suc (is_leap a.year) a.month ha.month_low (omega (arith, hb.month_high)),
  month_mono (is_leap a.year) (a.month + 1) b.month (omega arith),
  ha.day_high,
  ha.day_low,
  ap days_before_year y,
  ap (λ t. offset (is_leap t) b.month) y,
)
make_day-lt a b ha hb (inr (inr (y, m, d))) = omega (
  arith,
  day_number a.year a.month a.day,
  day_number b.year b.month b.day,
  ha.day_low,
  ap days_before_year y,
  ap (λ t. offset (is_leap t) b.month) y,
  ap (λ t. offset (is_leap a.year) t) m,
)

pub Before-total : (a b : Day) → (Before a b) ⊎ (a ≡ b) ⊎ Before b a
Before-total a b =
    go (compare a.year b.year) (compare a.month b.month) (compare a.day b.day) refl refl refl
  where
    go :
        (x y z : Ordering)
        → compare a.year b.year ≡ x
        → compare a.month b.month ≡ y
        → compare a.day b.day ≡ z
        → (Before a b) ⊎ (a ≡ b) ⊎ Before b a
    go x y z p q r = ground arith

-- The time values of days are in the calendar's order.
pub time_of-le_iff : (a b : Day) → IsDay a → IsDay b → (time_of a ≤ time_of b) ↔ (¬ Before b a)
time_of-le_iff a b ha hb = (
  λ h k. omega (arith, make_day-lt b a hb ha k),
  λ h. elim (Before-total a b) [
    | inl k ↦ omega (arith, make_day-lt a b ha hb k)
    | inr (inl e) ↦ omega (arith, ap time_of e)
    | inr (inr k) ↦ absurd (h k)
  ],
)
