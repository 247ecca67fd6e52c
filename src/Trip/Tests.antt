-- ===== src/Trip/Tests.antt =====
-- The trip modules at concrete inputs.
use recommendation_trip_plat.Base.{
  some, ◌==◌, ltb, length, find?, any, filter, update_first, AppError, after, ℕ, ◌≤◌, ◌<◌, String,
  ◌≡◌, refl, ◌≢◌, ◌↔◌, ◌⊎◌, inl, true, none, List, [], ◌∷◌, arith, invalid_time_slot,
  trip_invalid_state_transition, trip_confirm_empty, trip_item_date_out_of_range,
  trip_item_time_overlap, ok, err, done, fail,
}
use recommendation_trip_plat.Trip.TimeSlot.{TimeSlot, codes, to_minutes, new_time_slot, overlaps}
use recommendation_trip_plat.Trip.TimeSlot.Laws
use recommendation_trip_plat.Trip.TimeSlot.Laws.{
  to_minutes_cases, new_time_slot_iff, overlaps_iff, hh_mm,
}
use recommendation_trip_plat.Trip.DateRange.{
  TripDateRange, text, new_trip_date_range, contains_date, normalize_date, make_day, is_leap,
}
use recommendation_trip_plat.Trip.DateRange.Calendar.{Day, Before, time_of}
use recommendation_trip_plat.Trip.DateRange.Laws.{
  contains_date_iff, normalize_date-overflow, carried,
}
use recommendation_trip_plat.Trip.Entities.{TripItem, TripDay}
use recommendation_trip_plat.Trip.Aggregate
use recommendation_trip_plat.Trip.Aggregate.{
  Trip, TripStatus, draft, upcoming, completed, CreateTripInput, AddTripItemInput, create, on_day,
}
use recommendation_trip_plat.Trip.Aggregate.Invariant.{IsValid}
use recommendation_trip_plat.Trip.Aggregate.History
use recommendation_trip_plat.Trip.Aggregate.History.{
  Command, run, Reach, created, then_run, history-IsValid,
}
use recommendation_trip_plat.Trip.Aggregate.Lifecycle.{
  run-Follows, Follows, terminal_frozen, confirm_iff,
}
use recommendation_trip_plat.Trip.Aggregate.Items.{fail_atomic, update_day_fails, remove-add_item}

slot_9_11 :
    new_time_slot "09:00" "11:00"
    ≡ ok (record {
      start_time = "09:00";
      end_time = "11:00";
      start_minutes = 540;
      end_minutes = 660;
    })
unfolding new_time_slot to_minutes
slot_9_11 = refl

bad_times :
    (to_minutes "24:00" ≡ err (invalid_time_slot "time_slot_invalid_format"))
    × (to_minutes "9:00" ≡ err (invalid_time_slot "time_slot_invalid_format"))
unfolding to_minutes
bad_times = (refl, refl)

abbrev morning : TimeSlot
morning = record {
  start_time = "09:00";
  end_time = "11:00";
  start_minutes = 540;
  end_minutes = 660;
}

abbrev brunch : TimeSlot
brunch = record { start_time = "10:30"; end_time = "12:00"; start_minutes = 630; end_minutes = 720 }

to_minutes_cases_example :
    ((n : ℕ) × (n < 1440) × (codes "07:05" ≡ hh_mm n) × (to_minutes "07:05" ≡ ok n))
    ⊎ (((n : ℕ) → n < 1440 → codes "07:05" ≢ hh_mm n)
        × (to_minutes "07:05" ≡ err (invalid_time_slot "time_slot_invalid_format")))
to_minutes_cases_example = to_minutes_cases "07:05"

new_time_slot_iff_example :
    (new_time_slot "09:00" "11:00" ≡ ok morning)
    ↔ (Laws.IsValid morning × (morning.start_time ≡ "09:00") × (morning.end_time ≡ "11:00"))
new_time_slot_iff_example = new_time_slot_iff "09:00" "11:00" morning

overlaps_iff_example :
    (overlaps morning brunch ≡ true) ↔ ((m : ℕ) × (540 ≤ m) × (m < 660) × (630 ≤ m) × (m < 720))
overlaps_iff_example = overlaps_iff morning brunch (omega arith) (omega arith)

abbrev may_first : Day
may_first = record { year = 2025; month = 5; day = 1 }

abbrev may_third : Day
may_third = record { year = 2025; month = 5; day = 3 }

abbrev may_second : Day
may_second = record { year = 2025; month = 5; day = 2 }

contains_date_iff_example :
    ((¬ Before may_third may_first) ↔ (
      (r : TripDateRange) × (new_trip_date_range (text "2025-05-01") (text "2025-05-03") ≡ ok r)))
    × ((r : TripDateRange)
        → new_trip_date_range (text "2025-05-01") (text "2025-05-03") ≡ ok r
        → (contains_date r (text "2025-05-02") ≡ ok true)
          ↔ ((¬ Before may_second may_first) × (¬ Before may_third may_second)))
contains_date_iff_example =
    contains_date_iff "2025-05-01" "2025-05-03" "2025-05-02" may_first may_third may_second
      (omega arith) (omega arith) refl (omega arith) (omega arith) refl (omega arith) (omega arith)
      refl

abbrev february_30 : Day
february_30 = record { year = 2025; month = 2; day = 30 }

normalize_date-overflow_example :
    normalize_date (text "2025-02-30") ≡ ok (time_of (carried february_30))
unfolding is_leap
normalize_date-overflow_example =
    normalize_date-overflow february_30 (omega arith) (omega arith) (omega arith) "2025-02-30"
      (omega arith) (omega arith) refl

march_second : normalize_date (text "2025-02-30") ≡ normalize_date (text "2025-03-02")
unfolding normalize_date make_day
march_second = refl

abbrev first_days : TripDateRange
first_days = record { start_date = 63913276800000; end_date = 63913449600000 }

abbrev input : CreateTripInput
input = record {
  user_id = "ann";
  destination_id = "hue";
  title = "May";
  start_date = "2025-05-01";
  end_date = "2025-05-03";
}

abbrev empty_trip : Trip
empty_trip = record {
  id = "t1";
  user_id = "ann";
  destination_id = "hue";
  title = "May";
  status = draft;
  date_range = first_days;
  days = [];
  version = 0;
}

create_test : create "t1" input ≡ ok empty_trip
unfolding create new_trip_date_range normalize_date make_day
create_test = refl

abbrev visit : String → AddTripItemInput
visit place = record {
  trip_day_id = "d1";
  place_id = place;
  type = "VISIT";
  start_time = "09:00";
  end_time = "11:00";
  note = none;
  sort_order = none;
}

abbrev first_day : List TripItem → TripDay
first_day items = record {
  id = "d1";
  trip_id = "t1";
  day_index = 1;
  date = "2025-05-01";
  items = items;
}

abbrev visited : TripItem
visited = record {
  id = "i1";
  trip_day_id = "d1";
  place_id = "citadel";
  type = "VISIT";
  note = none;
  sort_order = 1;
  time_slot = morning;
}

abbrev day_trip : Trip
day_trip = record empty_trip { days = first_day [] ∷ []; version = 1 }

abbrev full_trip : Trip
full_trip = record empty_trip { version = 2; days = first_day (visited ∷ []) ∷ [] }

aggregate : Unit {0}
unfolding any find? update_first filter run Aggregate.add_day Aggregate.add_item Aggregate.confirm
    Aggregate.update_day Aggregate.update_day_index Aggregate.update_day_date Aggregate.remove_item
    Aggregate.reschedule_item contains_date normalize_date make_day new_time_slot to_minutes
    overlaps
aggregate = tt

commands_test :
    (run (History.add_day "d1" 1 "2025-05-01") empty_trip ≡ done tt day_trip)
    × (run (History.add_item "i1" (visit "citadel")) day_trip ≡ done tt full_trip)
    × (run (History.add_item "i2" (visit "market")) full_trip
        ≡ fail trip_item_time_overlap full_trip)
    × (run (History.add_day "d2" 1 "2025-05-02") full_trip
        ≡ fail (trip_invalid_state_transition "trip_day_index_already_exists") full_trip)
    × (run (History.add_day "d2" 2 "2025-05-04") full_trip
        ≡ fail trip_item_date_out_of_range full_trip)
    × (run History.confirm day_trip ≡ fail trip_confirm_empty day_trip)
    × (run History.confirm full_trip
        ≡ done tt (record full_trip { status = upcoming; version = 3 }))
unfolding aggregate
commands_test = (refl, refl, refl, refl, refl, refl, refl)

history-IsValid_example : IsValid (after (run (History.add_day "d1" 1 "2025-05-01") empty_trip))
history-IsValid_example =
    history-IsValid "t1" input empty_trip
      (after (run (History.add_day "d1" 1 "2025-05-01") empty_trip)) create_test
      (then_run created (History.add_day "d1" 1 "2025-05-01") tt)

run-Follows_example : Follows History.confirm full_trip (run History.confirm full_trip)
run-Follows_example = run-Follows History.confirm full_trip

abbrev finished : Trip
finished = record full_trip { status = completed }

terminal_frozen_example :
    (e : AppError) × (run (History.add_item "i2" (visit "market")) finished ≡ fail e finished)
terminal_frozen_example =
    terminal_frozen (History.add_item "i2" (visit "market")) finished (inl refl)

confirm_iff_example :
    ((u : Trip) × (run History.confirm full_trip ≡ done tt u))
    ↔ ((draft ≡ draft) × (any (λ (d : TripDay). ltb 0 (length d.items)) full_trip.days ≡ true))
confirm_iff_example = confirm_iff full_trip

fail_atomic_example : day_trip ≡ day_trip
fail_atomic_example =
    fail_atomic History.confirm day_trip day_trip trip_confirm_empty (λ h. h) commands_test.5

abbrev renumbered : Trip
renumbered = on_day "d1" (λ d. record d { day_index = 2 }) full_trip

half_updated :
    run (History.update_day "d1" (some 2) (some "2025-06-01")) full_trip
    ≡ fail trip_item_date_out_of_range renumbered
unfolding aggregate
half_updated = refl

update_day_fails_example :
    (renumbered ≡ full_trip)
    ⊎ (((n : ℕ) × (some 2 ≡ some n)
          × (renumbered ≡ record full_trip {
            days =
                update_first
                  (λ (d : TripDay). d.id == "d1")
                  (λ d. record d { day_index = n })
                  full_trip.days;
          }))
        × ((d : String) × (some "2025-06-01" ≡ some d)
            × (contains_date full_trip.date_range (text d) ≢ ok true)))
update_day_fails_example =
    update_day_fails "d1" (some 2) (some "2025-06-01") full_trip renumbered
      trip_item_date_out_of_range half_updated

remove-add_item_example :
    run (History.remove_item "d1" "i1") full_trip ≡ done tt (record day_trip { version = 3 })
remove-add_item_example =
    remove-add_item "i1" (visit "citadel") day_trip full_trip (tt, tt) commands_test.1
