-- ===== src/Trip/Handlers.antt =====
-- modules/trip/application/commands/impls and queries/impls: each handler loads the trip of a
-- command, checks its owner, runs the operation of the aggregate and saves.
pub mod Requests
pub mod Laws
mod Tests
use recommendation_trip_plat.Base.{
  Outcome, done, fail, or_else, Method, pure, lift, ◌>>=◌, ◌>>◌, reject_if, or_throw, when, ℕ,
  String, Bool, false, not, Option, none, some, List, [], ◌∷◌, map, ◌==◌, resource_not_found,
}
use mathlib.Core.List.{flat_map}
use recommendation_trip_plat.Trip.Aggregate
use recommendation_trip_plat.Trip.Aggregate.{
  Trip, AddTripItemInput, UpdateTripItemInput, CreateTripInput,
}
use recommendation_trip_plat.Trip.Ports.{TripPorts}

pub record AddTripItemCommand : Type 0 where
  pub user_id : String
  pub trip_id : String
  pub day_id : String
  pub place_id : String
  pub type : String
  pub start_time : String
  pub end_time : String
  pub note : Option String
  pub sort_order : Option ℕ

pub record UpdateTripItemCommand : Type 0 where
  pub user_id : String
  pub trip_id : String
  pub day_id : String
  pub item_id : String
  pub place_id : Option String
  pub type : Option String
  pub note : Option (Option String)
  pub sort_order : Option ℕ

-- A day of a new trip, with the identifiers that `randomUUID` returns for it and its items.
pub record NewItem : Type 0 where
  pub uuid : String
  pub place_id : String
  pub type : String
  pub start_time : String
  pub end_time : String
  pub note : Option String
  pub sort_order : Option ℕ

pub record NewDay : Type 0 where
  pub uuid : String
  pub day_index : ℕ
  pub date : String
  pub items : List NewItem

pub record CreateDraftTripCommand : Type 0 where
  pub user_id : String
  pub destination_id : String
  pub title : String
  pub start_date : String
  pub end_date : String
  pub days : List NewDay

-- `if (placeId)`: neither undefined nor empty.
is_truthy : Option String → Bool
is_truthy none = false
is_truthy (some s) = not (s == "")

unfoldable pub draft_items : String → List NewItem → Method Trip (Unit {0})
draft_items trip_day_id [] = pure tt
draft_items trip_day_id (item ∷ items) =
    Aggregate.add_item item.uuid (record {
      trip_day_id = trip_day_id;
      place_id = item.place_id;
      type = item.type;
      start_time = item.start_time;
      end_time = item.end_time;
      note = item.note;
      sort_order = item.sort_order;
    })
    >> draft_items trip_day_id items

unfoldable pub draft_days : List NewDay → Method Trip (Unit {0})
draft_days [] = pure tt
draft_days (day ∷ days) =
    Aggregate.add_day day.uuid day.day_index day.date
    >> (draft_items day.uuid day.items >> draft_days days)

abbrev pub place_ids : List NewDay → List String
place_ids days = flat_map (λ (day : NewDay). map (λ (item : NewItem). item.place_id) day.items) days

-- What a handler goes on with after an operation on the loaded object, which is not part of the
-- state of the world: the object, or the error.
abbrev pub kept : {S : Type 0} → Outcome Trip (Unit {0}) → Method S Trip
kept (done _ changed) s = done changed s
kept (fail e _) s = fail e s

module _ {S : Type 0} (ports : TripPorts S) where
  abbrev on_trip : Method Trip (Unit {0}) → Trip → Method S Trip
  on_trip method trip = kept (method trip)

  -- The first lines of every handler.
  pub own_trip : String → String → Method S Trip
  own_trip trip_id user_id = do
    found ← ports.find_by_id trip_id
    trip ← or_throw (resource_not_found "trip_not_found") found
    reject_if (not (trip.user_id == user_id)) (resource_not_found "trip_not_found")
    pure trip

  unfoldable pub add_trip_day : String → String → String → ℕ → String → Method S (Unit {0})
  unfolding own_trip
  add_trip_day uuid trip_id user_id day_index date = do
    trip ← own_trip trip_id user_id
    changed ← on_trip (Aggregate.add_day uuid day_index date) trip
    ports.save changed

  unfoldable pub update_trip_day :
      String → String → String → Option ℕ → Option String → Method S (Unit {0})
  unfolding own_trip
  update_trip_day trip_id user_id day_id day_index date = do
    trip ← own_trip trip_id user_id
    changed ← on_trip (Aggregate.update_day day_id day_index date) trip
    ports.save changed

  unfoldable pub remove_trip_day : String → String → String → Method S (Unit {0})
  unfolding own_trip
  remove_trip_day trip_id user_id day_id = do
    trip ← own_trip trip_id user_id
    changed ← on_trip (Aggregate.remove_day day_id) trip
    ports.save changed

  unfoldable pub add_trip_item : String → AddTripItemCommand → Method S (Unit {0})
  unfolding own_trip
  add_trip_item uuid command = do
    trip ← own_trip command.trip_id command.user_id
    ports.assert_place_matches_destination command.place_id trip.destination_id
    changed ←
        on_trip
          (Aggregate.add_item uuid (record {
            trip_day_id = command.day_id;
            place_id = command.place_id;
            type = command.type;
            start_time = command.start_time;
            end_time = command.end_time;
            note = command.note;
            sort_order = command.sort_order;
          }))
          trip
    ports.save changed

  unfoldable pub reschedule_trip_item :
      String → String → String → String → String → String → Method S (Unit {0})
  unfolding own_trip
  reschedule_trip_item trip_id user_id day_id item_id start_time end_time = do
    trip ← own_trip trip_id user_id
    changed ← on_trip (Aggregate.reschedule_item day_id item_id start_time end_time) trip
    ports.save changed

  unfoldable pub remove_trip_item : String → String → String → String → Method S (Unit {0})
  unfolding own_trip
  remove_trip_item trip_id user_id day_id item_id = do
    trip ← own_trip trip_id user_id
    changed ← on_trip (Aggregate.remove_item day_id item_id) trip
    ports.save changed

  unfoldable pub update_trip_item : UpdateTripItemCommand → Method S (Unit {0})
  unfolding own_trip is_truthy
  update_trip_item command = do
    trip ← own_trip command.trip_id command.user_id
    when (is_truthy command.place_id)
        (ports.assert_place_matches_destination (or_else command.place_id "") trip.destination_id)
    changed ←
        on_trip
          (Aggregate.update_item (record {
            trip_day_id = command.day_id;
            item_id = command.item_id;
            place_id = command.place_id;
            type = command.type;
            note = command.note;
            sort_order = command.sort_order;
          }))
          trip
    ports.save changed

  -- `TripAggregate.create` and the loops over the days.
  unfoldable pub draft_trip : String → CreateDraftTripCommand → Method S Trip
  draft_trip uuid command = do
    trip ← lift (
        Aggregate.create uuid (record {
          user_id = command.user_id;
          destination_id = command.destination_id;
          title = command.title;
          start_date = command.start_date;
          end_date = command.end_date;
        }))
    on_trip (draft_days command.days) trip

  unfoldable pub create_draft_trip : String → CreateDraftTripCommand → Method S String
  unfolding draft_trip
  create_draft_trip uuid command = do
    ports.assert_destination_exists command.destination_id
    ports.assert_places_match_destination (place_ids command.days) command.destination_id
    trip ← draft_trip uuid command
    ports.save trip
    ports.publish
        (record { trip_id = trip.id; user_id = command.user_id; status = trip.status } ∷ [])
    pure trip.id

  unfoldable pub get_trip_detail : String → String → Method S Trip
  unfolding own_trip
  get_trip_detail trip_id user_id = own_trip trip_id user_id
