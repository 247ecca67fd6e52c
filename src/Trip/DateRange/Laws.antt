-- ===== src/Trip/DateRange/Laws.antt =====
-- What a constructed range satisfies, in terms of the calendar.
use recommendation_trip_plat.Base.{
  ◌∙◌, ok, String, some, ◌*◌, ◌-◌, ◌↔◌, ap, ℕ, ◌+◌, ◌<◌, ◌≤◌, ◌≡◌, Bool, true, arith,
}
use recommendation_trip_plat.Trip.DateRange.Calendar.{
  Day, IsDay, Before, days_in_month, date_text, time_of, month_suc, day_number, time_of-le_iff,
}
use recommendation_trip_plat.Trip.DateRange.{
  DateValue, TripDateRange, text, codes, contains_date, date_only_regex, new_trip_date_range,
  normalize_date, parse_matched, milliseconds_in_day, make_day, is_leap,
}

regex-date_text :
    (d : Day)
    → d.year < 10000
    → d.month < 100
    → d.day < 100
    → date_only_regex (date_text d) ≡ some (d.year, d.month, d.day)
unfolding date_only_regex
regex-date_text d h k l = ground arith

days_in_month-le : (leap : Bool) (m : ℕ) → days_in_month leap m ≤ 31
days_in_month-le leap m = ground arith

parse_in_range :
    (y m d : ℕ)
    → 1 ≤ m
    → m ≤ 12
    → 1 ≤ d
    → d ≤ 31
    → parse_matched (some (y, m, d)) ≡ ok (make_day y m d * milliseconds_in_day)
unfolding parse_matched
parse_in_range y m d h k l g = ground arith

parse-IsDay : (d : Day) → IsDay d → parse_matched (some (d.year, d.month, d.day)) ≡ ok (time_of d)
parse-IsDay d h =
    parse_in_range d.year d.month d.day h.month_low h.month_high h.day_low
      (omega (arith, h.day_high, days_in_month-le (is_leap d.year) d.month))

-- The text of a day of the calendar is read as that day.
pub normalize_date-text :
    (value : String) (d : Day)
    → IsDay d
    → d.year < 10000
    → codes value ≡ date_text d
    → normalize_date (text value) ≡ ok (time_of d)
unfolding normalize_date
normalize_date-text value d h y e =
    rw
      (
        e,
        regex-date_text d y (omega (arith, h.month_high))
            (omega (arith, h.day_high, days_in_month-le (is_leap d.year) d.month)),
      )
      (parse-IsDay d h)

module _ (from until : DateValue) (s e : ℕ) (p : normalize_date from ≡ ok s)
    (q : normalize_date until ≡ ok e) where
  constructed_ends :
      (r : TripDateRange)
      → new_trip_date_range from until ≡ ok r
      → (s ≤ e) × (r.start_date ≡ s) × (r.end_date ≡ e)
  unfolding new_trip_date_range
  constructed_ends r h = ground arith

  constructed :
      s ≤ e → new_trip_date_range from until ≡ ok (record { start_date = s; end_date = e })
  unfolding new_trip_date_range
  constructed h = ground arith

between_ends :
    (r : TripDateRange) (value : DateValue) (t : ℕ)
    → normalize_date value ≡ ok t
    → (contains_date r value ≡ ok true) ↔ ((r.start_date ≤ t) × (t ≤ r.end_date))
unfolding contains_date
between_ends r value t p = ground arith

-- A range from one day of the calendar to another contains exactly the days between them, both ends
-- included, and is refused exactly if it ends before it starts.
pub contains_date_iff :
    (from until value : String) (a b d : Day)
    → IsDay a
    → a.year < 10000
    → codes from ≡ date_text a
    → IsDay b
    → b.year < 10000
    → codes until ≡ date_text b
    → IsDay d
    → d.year < 10000
    → codes value ≡ date_text d
    → ((¬ Before b a)
        ↔ ((r : TripDateRange) × (new_trip_date_range (text from) (text until) ≡ ok r)))
      × ((r : TripDateRange)
          → new_trip_date_range (text from) (text until) ≡ ok r
          → (contains_date r (text value) ≡ ok true) ↔ ((¬ Before d a) × (¬ Before b d)))
contains_date_iff from until value a b d ha ya ea hb yb eb hd yd ed =
    let pa = normalize_date-text from a ha ya ea in
    let pb = normalize_date-text until b hb yb eb in
    let ad = time_of-le_iff a d ha hd in
    let db = time_of-le_iff d b hd hb in
    (
      (
        λ h. (_, constructed (text from) (text until) _ _ pa pb ((time_of-le_iff a b ha hb).1 h)),
        λ (r, e).
            (time_of-le_iff a b ha hb).0
              (constructed_ends (text from) (text until) _ _ pa pb r e).0,
      ),
      λ r e.
          let (_, start, end) = constructed_ends (text from) (text until) _ _ pa pb r e in
          let inside = between_ends r (text value) _ (normalize_date-text value d hd yd ed) in
          (
            λ h. (
              ad.0 (omega (arith, (inside.0 h).0, start)),
              db.0 (omega (arith, (inside.0 h).1, end)),
            ),
            λ h. inside.1 (omega (arith, ad.1 h.0, start), omega (arith, db.1 h.1, end)),
          ),
    )

-- The day that a day past the end of its month stands for.
abbrev pub carried : Day → Day
carried d = record {
  year = d.year;
  month = d.month + 1;
  day = d.day - days_in_month (is_leap d.year) d.month;
}

module _ (d : Day) (low : 1 ≤ d.month) (high : d.month < 12)
    (past : days_in_month (is_leap d.year) d.month < d.day) where
  same_day :
      make_day d.year d.month d.day
      ≡ make_day d.year (d.month + 1) (d.day - days_in_month (is_leap d.year) d.month)
  same_day = omega (
    arith,
    day_number d.year d.month d.day,
    day_number d.year (d.month + 1) (d.day - days_in_month (is_leap d.year) d.month),
    month_suc (is_leap d.year) d.month low high,
  )

  parse-carried :
      d.day ≤ 31 → parse_matched (some (d.year, d.month, d.day)) ≡ ok (time_of (carried d))
  parse-carried small =
      parse_in_range d.year d.month d.day low (omega arith) (omega arith) small
      ∙ ap (λ n. ok (n * milliseconds_in_day)) same_day

  -- A day past the end of its month is accepted, and stands for a day of the next month.
  pub normalize_date-overflow :
      (value : String)
      → d.day ≤ 31
      → d.year < 10000
      → codes value ≡ date_text d
      → normalize_date (text value) ≡ ok (time_of (carried d))
  unfolding normalize_date
  normalize_date-overflow value small y e =
      rw (e, regex-date_text d y (omega arith) (omega arith)) (parse-carried small)
