-- ===== src/Trip/Aggregate/Keeps.antt =====
-- The operations of the aggregate on the trip and its days keep the invariant, also where they throw.
use recommendation_trip_plat.Trip.Aggregate.{
  new_item, overlaps, CreateTripInput, TripStatus, cancelled, completed, ongoing, upcoming,
  new_time_slot, TripItem, TimeSlot, Trip, AddTripItemInput, UpdateTripItemInput, has_day_id,
  has_item_id, on_day, on_item, overlaps_item,
}
use recommendation_trip_plat.Base.{
  All-filter, AllPairs-filter, Keeps-bind, filter, Keeps, All-append, eqb_iff, AllPairs-push,
  All-map, any, ◌∷◌, [], ◌++◌, false, ◌&&◌, eqb, ◌==◌, not, true, ◌≢◌, All, any-false, ◌+◌, ◌≡◌, ℕ,
  String, Option, none, some, ok, after, arith, refl,
}
use recommendation_trip_plat.Trip.Aggregate.Invariant.{
  IsValid, IsValidDay, on_day-IsValid, change_index-IsValid, change_date-IsValidDay,
}
use recommendation_trip_plat.Trip.DateRange.{text, contains_date}
use recommendation_trip_plat.Trip.Entities.{TripDay}
use recommendation_trip_plat.Trip.Aggregate

-- `IsValid` does not speak of the version, the title and the status.
pub rename-IsValid :
    (t u : Trip)
    → u.id ≡ t.id
    → u.date_range ≡ t.date_range
    → u.days ≡ t.days
    → IsValid t
    → IsValid u
rename-IsValid t u p q r v = record {
  day_ids = rw r v.day_ids;
  indices = rw r v.indices;
  valid_days = rw (p, q, r) v.valid_days;
}

pub set_title-IsValid :
    (title : String) (t : Trip) → IsValid t → IsValid (after (Aggregate.set_title title t))
unfolding Aggregate.set_title
set_title-IsValid title t v =
    ground (arith, rename-IsValid t (record t { title = title; version = t.version + 1 }))

pub push_day-IsValid :
    (id : String) (k : ℕ) (date : String) (t : Trip)
    → All (λ (d : TripDay). d.id ≢ id) t.days
    → All (λ (d : TripDay). eqb d.day_index k ≡ false) t.days
    → contains_date t.date_range (text date) ≡ ok true
    → IsValid t
    → IsValid (record t {
      version = t.version + 1;
      days =
          t.days ++ record { id = id; trip_id = t.id; day_index = k; date = date; items = [] } ∷ [];
    })
push_day-IsValid id k date t fresh free inside v = record {
  day_ids = AllPairs-push (λ (a b : TripDay). a.id ≢ b.id) t.days _ fresh v.day_ids;
  indices =
      AllPairs-push (λ (a b : TripDay). a.day_index ≢ b.day_index) t.days _
        (All-map (λ d e q. cc (e, (eqb_iff d.day_index k).1 q)) t.days free) v.indices;
  valid_days = All-append (IsValidDay t.id t.date_range) t.days (_ ∷ []) v.valid_days (
    record {
      owned = refl;
      in_range = inside;
      items_owned = tt;
      item_ids = tt;
      slots = tt;
      apart = tt;
    },
    tt,
  );
}

pub add_day-IsValid :
    (id : String) (k : ℕ) (date : String) (t : Trip)
    → All (λ (d : TripDay). d.id ≢ id) t.days
    → IsValid t
    → IsValid (after (Aggregate.add_day id k date t))
unfolding Aggregate.add_day
add_day-IsValid id k date t fresh v = ground (
  arith,
  push_day-IsValid id k date t fresh,
  any-false (λ (day : TripDay). eqb day.day_index k) t.days,
)

pub update_day_date-IsValid :
    (id : String) (day : TripDay) (o : Option String) (t : Trip)
    → IsValid t
    → IsValid (after (Aggregate.update_day_date id day o t))
unfolding Aggregate.update_day_date
update_day_date-IsValid id day none t v = v
update_day_date-IsValid id day (some date) t v = ground (
  arith,
  λ (e : contains_date t.date_range (text date) ≡ ok true).
      on_day-IsValid id (λ d. record d { date = date }) t (λ d. refl) (λ d. refl)
        (λ d _ w. change_date-IsValidDay t.id t.date_range d w date e) v,
)

pub moved_day-IsValid :
    (id : String) (k : ℕ) (t : Trip)
    → any (λ (e : TripDay). not (e.id == id) && eqb e.day_index k) t.days ≡ false
    → IsValid t
    → IsValid (on_day id (λ d. record d { day_index = k }) t)
moved_day-IsValid id k t free = change_index-IsValid id k t (
    All-map (λ d e w. ground (arith, e)) t.days
      (any-false (λ (e : TripDay). not (e.id == id) && eqb e.day_index k) t.days free))

pub update_day_index-IsValid :
    (id : String) (day : TripDay) (o : Option ℕ) (t : Trip)
    → IsValid t
    → IsValid (after (Aggregate.update_day_index id day o t))
unfolding Aggregate.update_day_index
update_day_index-IsValid id day none t v = v
update_day_index-IsValid id day (some k) t v = ground (arith, moved_day-IsValid id k t)

ensure_not_terminal_state-IsValid : Keeps IsValid Aggregate.ensure_not_terminal_state
unfolding Aggregate.ensure_not_terminal_state
ensure_not_terminal_state-IsValid t v = ground arith

pub find_day_or_throw-IsValid : (id : String) → Keeps IsValid (Aggregate.find_day_or_throw id)
unfolding Aggregate.find_day_or_throw
find_day_or_throw-IsValid id t v = ground arith

bump_version-IsValid : Keeps IsValid Aggregate.bump_version
unfolding Aggregate.bump_version
bump_version-IsValid t v = rename-IsValid t (record t { version = t.version + 1 }) refl refl refl v

pub update_day-IsValid :
    (id : String) (k : Option ℕ) (date : Option String)
    → Keeps IsValid (Aggregate.update_day id k date)
unfolding Aggregate.update_day
update_day-IsValid id k date =
    Keeps-bind IsValid Aggregate.ensure_not_terminal_state _ ensure_not_terminal_state-IsValid λ _.
      Keeps-bind IsValid (Aggregate.find_day_or_throw id) _ (find_day_or_throw-IsValid id) λ day.
        Keeps-bind IsValid (Aggregate.update_day_index id day k) _
          (update_day_index-IsValid id day k)
          λ _.
            Keeps-bind IsValid (Aggregate.update_day_date id day date) _
              (update_day_date-IsValid id day date) λ _. bump_version-IsValid

pub remove_day-IsValid : (id : String) → Keeps IsValid (Aggregate.remove_day id)
unfolding Aggregate.remove_day
remove_day-IsValid id t v = ground (arith, kept)
  where
    kept : IsValid (record t {
      version = t.version + 1;
      days = filter (λ (d : TripDay). not (d.id == id)) t.days;
    })
    kept = record {
      day_ids =
          AllPairs-filter (λ (a b : TripDay). a.id ≢ b.id) (λ (d : TripDay). not (d.id == id))
            t.days v.day_ids;
      indices =
          AllPairs-filter (λ (a b : TripDay). a.day_index ≢ b.day_index)
            (λ (d : TripDay). not (d.id == id)) t.days v.indices;
      valid_days =
          All-filter (IsValidDay t.id t.date_range) (λ (d : TripDay). not (d.id == id)) t.days
            v.valid_days;
    }

module _ (t : Trip) (v : IsValid t) where
  pub set_status-IsValid :
      (status : TripStatus) → IsValid (record t { status = status; version = t.version + 1 })
  set_status-IsValid status =
      rename-IsValid t (record t { status = status; version = t.version + 1 }) refl refl refl v

  pub confirm-IsValid : IsValid (after (Aggregate.confirm t))
  unfolding Aggregate.confirm
  confirm-IsValid = ground (arith, set_status-IsValid upcoming)

  pub cancel-IsValid : IsValid (after (Aggregate.cancel t))
  unfolding Aggregate.cancel
  cancel-IsValid = ground (arith, set_status-IsValid cancelled)

  pub start-IsValid : IsValid (after (Aggregate.start t))
  unfolding Aggregate.start
  start-IsValid = ground (arith, set_status-IsValid ongoing)

  pub complete-IsValid : IsValid (after (Aggregate.complete t))
  unfolding Aggregate.complete
  complete-IsValid = ground (arith, set_status-IsValid completed)

pub create-IsValid :
    (uuid : String) (input : CreateTripInput) (t : Trip)
    → Aggregate.create uuid input ≡ ok t
    → IsValid t
unfolding Aggregate.create
create-IsValid uuid input t e = ground arith
