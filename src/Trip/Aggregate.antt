-- ===== src/Trip/Aggregate.antt =====
-- modules/trip/domain/aggregates/trip.aggregate.ts and domain/enums/trip-status.enum.ts. The
-- aggregate is its snapshot. A day or an item that a method finds is a reference into it, so a
-- change of it is a change of the first element that the search accepts.
pub mod Invariant
pub mod Keeps
pub mod KeepsItems
pub mod History
pub mod Lifecycle
pub mod Items
use recommendation_trip_plat.Base.{
  ℕ, ◌+◌, String, Bool, true, false, not, ◌&&◌, ◌||◌, List, [], ◌∷◌, ◌++◌, Option, none, some,
  Result, ok, err, and_then, Method, Outcome, done, fail, pure, throw, lift, get, modify, reject_if,
  or_throw, ◌>>=◌, ◌>>◌, or_else, trip_invalid_state_transition, trip_confirm_empty,
  trip_item_date_out_of_range, trip_item_time_overlap, trip_terminal_state_mutation, length, find?,
  any, filter, update_first, eqb, ◌==◌, if◌then◌else◌,
}
use recommendation_trip_plat.Trip.TimeSlot
use recommendation_trip_plat.Trip.TimeSlot.{TimeSlot, new_time_slot, overlaps}
use recommendation_trip_plat.Trip.DateRange.{
  TripDateRange, text, new_trip_date_range, contains_date,
}
use recommendation_trip_plat.Trip.Entities
use recommendation_trip_plat.Trip.Entities.{
  TripItem, TripDay, change_time, change_place, change_type, change_note, change_sort_order,
  change_day_index, change_date, find_item, has_any_item,
}

pub data TripStatus : Type 0 where
  draft upcoming ongoing completed cancelled : TripStatus

pub record Trip : Type 0 where
  pub id : String
  pub user_id : String
  pub destination_id : String
  pub title : String
  pub status : TripStatus
  pub date_range : TripDateRange
  pub days : List TripDay
  pub version : ℕ

pub record CreateTripInput : Type 0 where
  pub user_id : String
  pub destination_id : String
  pub title : String
  pub start_date : String
  pub end_date : String

pub record AddTripItemInput : Type 0 where
  pub trip_day_id : String
  pub place_id : String
  pub type : String
  pub start_time : String
  pub end_time : String
  pub note : Option String
  pub sort_order : Option ℕ

-- A field that may be undefined is an `Option`, and so is one that may be null.
pub record UpdateTripItemInput : Type 0 where
  pub trip_day_id : String
  pub item_id : String
  pub place_id : Option String
  pub type : Option String
  pub note : Option (Option String)
  pub sort_order : Option ℕ

-- `static create`, with the identifier that `randomUUID` returns.
unfoldable pub create : String → CreateTripInput → Result Trip
create uuid input =
    and_then (new_trip_date_range (text input.start_date) (text input.end_date)) λ range.
      ok (record {
        id = uuid;
        user_id = input.user_id;
        destination_id = input.destination_id;
        title = input.title;
        status = draft;
        date_range = range;
        days = [];
        version = 0;
      })

bump : Trip → Trip
bump t = record t { version = t.version + 1 }

bump_version : Method Trip (Unit {0})
unfolding bump
bump_version = modify bump

is_terminal : TripStatus → Bool
is_terminal completed = true
is_terminal cancelled = true
is_terminal _ = false

unfoldable pub ensure_not_terminal_state : Method Trip (Unit {0})
unfolding is_terminal
ensure_not_terminal_state t = reject_if (is_terminal t.status) trip_terminal_state_mutation t

reject_outside : Result Bool → Method Trip (Unit {0})
reject_outside (err e) t = fail e t
reject_outside (ok inside) t = reject_if (not inside) trip_item_date_out_of_range t

unfoldable pub ensure_date_inside_range : String → Method Trip (Unit {0})
unfolding reject_outside
ensure_date_inside_range date t = reject_outside (contains_date t.date_range (text date)) t

abbrev pub has_day_id : String → TripDay → Bool
has_day_id day_id day = day.id == day_id

abbrev pub has_item_id : String → TripItem → Bool
has_item_id item_id item = item.id == item_id

unfoldable pub find_day_or_throw : String → Method Trip TripDay
find_day_or_throw day_id t =
    or_throw (trip_invalid_state_transition "trip_day_not_found") (find? (has_day_id day_id) t.days)
      t

-- A change of the day that `find_day_or_throw` returned, and of an item in it.
abbrev pub on_day : String → (TripDay → TripDay) → Trip → Trip
on_day day_id f t = record t { days = update_first (has_day_id day_id) f t.days }

abbrev pub on_item : String → (TripItem → TripItem) → TripDay → TripDay
on_item item_id f day = record day { items = update_first (has_item_id item_id) f day.items }

-- `===` on statuses.
abbrev pub same_status : TripStatus → TripStatus → Bool
same_status draft draft = true
same_status upcoming upcoming = true
same_status ongoing ongoing = true
same_status completed completed = true
same_status cancelled cancelled = true
same_status _ _ = false

unfoldable pub set_title : String → Method Trip (Unit {0})
unfolding ensure_not_terminal_state bump_version
set_title title = do
  ensure_not_terminal_state
  modify (λ t. record t { title = title })
  bump_version

-- `addDay`, with the identifier of the day.
unfoldable pub add_day : String → ℕ → String → Method Trip (Unit {0})
unfolding ensure_not_terminal_state ensure_date_inside_range bump_version
add_day id day_index date = do
  ensure_not_terminal_state
  ensure_date_inside_range date
  t ← get
  reject_if (any (λ day. eqb day.day_index day_index) t.days)
      (trip_invalid_state_transition "trip_day_index_already_exists")
  modify λ t. record t {
    days =
        t.days
        ++ record { id = id; trip_id = t.id; day_index = day_index; date = date; items = [] } ∷ [];
  }
  bump_version

-- The two halves of `updateDay`. The index is written before the date is checked.
unfoldable pub update_day_index : String → TripDay → Option ℕ → Method Trip (Unit {0})
unfolding change_day_index
update_day_index day_id day none = pure tt
update_day_index day_id day (some day_index) =
    if not (eqb day_index day.day_index)
    then (do
      t ← get
      reject_if
          (any (λ existing. not (existing.id == day_id) && eqb existing.day_index day_index) t.days)
          (trip_invalid_state_transition "trip_day_index_already_exists")
      modify (on_day day_id (change_day_index day_index)))
    else pure tt

unfoldable pub update_day_date : String → TripDay → Option String → Method Trip (Unit {0})
unfolding change_date ensure_date_inside_range
update_day_date day_id day none = pure tt
update_day_date day_id day (some date) =
    if not (date == day.date)
    then (do ensure_date_inside_range date; modify (on_day day_id (change_date date)))
    else pure tt

unfoldable pub update_day : String → Option ℕ → Option String → Method Trip (Unit {0})
unfolding ensure_not_terminal_state find_day_or_throw bump_version
update_day day_id day_index date = do
  ensure_not_terminal_state
  day ← find_day_or_throw day_id
  update_day_index day_id day day_index
  update_day_date day_id day date
  bump_version

unfoldable pub remove_day : String → Method Trip (Unit {0})
unfolding ensure_not_terminal_state find_day_or_throw has_any_item bump_version
remove_day day_id = do
  ensure_not_terminal_state
  day ← find_day_or_throw day_id
  reject_if (has_any_item day) (trip_invalid_state_transition "trip_day_remove_requires_empty_day")
  modify (λ t. record t { days = filter (λ existing. not (existing.id == day_id)) t.days })
  bump_version

abbrev overlaps_item : TimeSlot → TripItem → Bool
overlaps_item slot existing = overlaps existing.time_slot slot

-- The item that `addItem` constructs.
abbrev pub new_item : String → AddTripItemInput → TripDay → TimeSlot → TripItem
new_item uuid input day slot = record {
  id = uuid;
  trip_day_id = day.id;
  place_id = input.place_id;
  type = input.type;
  note = input.note;
  sort_order = or_else input.sort_order (length day.items + 1);
  time_slot = slot;
}

-- `addItem`, with the identifier that `randomUUID` returns.
unfoldable pub add_item : String → AddTripItemInput → Method Trip (Unit {0})
unfolding ensure_not_terminal_state find_day_or_throw ensure_date_inside_range Entities.add_item
    bump_version
add_item uuid input = do
  ensure_not_terminal_state
  day ← find_day_or_throw input.trip_day_id
  ensure_date_inside_range day.date
  new_slot ← lift (new_time_slot input.start_time input.end_time)
  reject_if (any (overlaps_item new_slot) day.items) trip_item_time_overlap
  modify (on_day input.trip_day_id (Entities.add_item (new_item uuid input day new_slot)))
  bump_version

-- The new slot is constructed once for the check and once more by `changeTime`.
unfoldable pub reschedule_item : String → String → String → String → Method Trip (Unit {0})
unfolding ensure_not_terminal_state find_day_or_throw find_item change_time bump_version
reschedule_item trip_day_id item_id start_time end_time = do
  ensure_not_terminal_state
  day ← find_day_or_throw trip_day_id
  item ← or_throw (trip_invalid_state_transition "trip_item_not_found") (find_item item_id day)
  candidate ← lift (new_time_slot start_time end_time)
  reject_if
      (any (overlaps_item candidate) (filter (λ existing. not (existing.id == item_id)) day.items))
      trip_item_time_overlap
  changed ← lift (change_time item start_time end_time)
  modify (
      on_day trip_day_id
        (on_item item_id (λ existing. record existing { time_slot = changed.time_slot })))
  bump_version

unfoldable pub remove_item : String → String → Method Trip (Unit {0})
unfolding ensure_not_terminal_state find_day_or_throw Entities.remove_item bump_version
remove_item trip_day_id item_id = do
  ensure_not_terminal_state
  day ← find_day_or_throw trip_day_id
  modify (on_day trip_day_id (λ day. (Entities.remove_item item_id day).0))
  reject_if (not (Entities.remove_item item_id day).1)
      (trip_invalid_state_transition "trip_item_not_found")
  bump_version

abbrev apply_if {ℓ} : {A : Type ℓ} → Option A → (A → TripItem → TripItem) → TripItem → TripItem
apply_if none change item = item
apply_if (some a) change item = change a item

unfoldable pub updated_item : UpdateTripItemInput → TripItem → TripItem
unfolding change_place change_type change_note change_sort_order
updated_item input item = apply_if input.sort_order change_sort_order (
    apply_if input.note change_note
      (apply_if input.type change_type (apply_if input.place_id change_place item)))

unfoldable pub update_item : UpdateTripItemInput → Method Trip (Unit {0})
unfolding ensure_not_terminal_state find_day_or_throw find_item bump_version
update_item input = do
  ensure_not_terminal_state
  day ← find_day_or_throw input.trip_day_id
  or_throw (trip_invalid_state_transition "trip_item_not_found") (find_item input.item_id day)
  modify (on_day input.trip_day_id (on_item input.item_id (updated_item input)))
  bump_version

unfoldable pub confirm : Method Trip (Unit {0})
unfolding has_any_item bump_version
confirm = do
  t ← get
  reject_if (not (same_status t.status draft))
      (trip_invalid_state_transition "trip_confirm_requires_draft_status")
  reject_if (not (any has_any_item t.days)) trip_confirm_empty
  modify (λ t. record t { status = upcoming })
  bump_version

unfoldable pub cancel : Method Trip (Unit {0})
unfolding bump_version
cancel = do
  t ← get
  reject_if (not (same_status t.status draft) && not (same_status t.status upcoming))
      (trip_invalid_state_transition "trip_cancel_requires_draft_or_upcoming_status")
  modify (λ t. record t { status = cancelled })
  bump_version

unfoldable pub start : Method Trip (Unit {0})
unfolding bump_version
start = do
  t ← get
  reject_if (not (same_status t.status upcoming))
      (trip_invalid_state_transition "trip_start_requires_upcoming_status")
  modify (λ t. record t { status = ongoing })
  bump_version

unfoldable pub complete : Method Trip (Unit {0})
unfolding bump_version
complete = do
  t ← get
  reject_if (not (same_status t.status ongoing))
      (trip_invalid_state_transition "trip_complete_requires_ongoing_status")
  modify (λ t. record t { status = completed })
  bump_version
