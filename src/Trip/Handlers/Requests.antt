-- ===== src/Trip/Handlers/Requests.antt =====
-- The requests that load a trip, change it and save it, and the common shape of their handlers.
use recommendation_trip_plat.Base.{
  or_else, Method, pure, ◌>>=◌, ◌>>◌, when, ℕ, String, ◌≡◌, refl, Option,
}
use recommendation_trip_plat.Trip.Aggregate.History.{IsFresh, run-IsValid, Command, run}
use recommendation_trip_plat.Trip.Handlers.{
  kept, AddTripItemCommand, UpdateTripItemCommand, own_trip, on_trip,
}
use recommendation_trip_plat.Trip.Ports.{TripPorts}
use recommendation_trip_plat.Trip.Aggregate.{Trip}
use recommendation_trip_plat.Trip.Aggregate.History
use recommendation_trip_plat.Trip.Handlers

-- The requests that load a trip, change it and save it.
pub data Request : Type 0 where
  add_trip_day : (uuid trip_id user_id : String) (day_index : ℕ) (date : String) → Request
  update_trip_day :
      (trip_id user_id day_id : String) (day_index : Option ℕ) (date : Option String) → Request
  remove_trip_day : (trip_id user_id day_id : String) → Request
  add_trip_item : (uuid : String) → AddTripItemCommand → Request
  reschedule_trip_item : (trip_id user_id day_id item_id start_time end_time : String) → Request
  remove_trip_item : (trip_id user_id day_id item_id : String) → Request
  update_trip_item : UpdateTripItemCommand → Request

abbrev pub trip_of : Request → String
trip_of (add_trip_day uuid trip_id user_id k date) = trip_id
trip_of (update_trip_day trip_id user_id day_id k date) = trip_id
trip_of (remove_trip_day trip_id user_id day_id) = trip_id
trip_of (add_trip_item uuid command) = command.trip_id
trip_of (reschedule_trip_item trip_id user_id day_id item_id start end) = trip_id
trip_of (remove_trip_item trip_id user_id day_id item_id) = trip_id
trip_of (update_trip_item command) = command.trip_id

abbrev pub user_of : Request → String
user_of (add_trip_day uuid trip_id user_id k date) = user_id
user_of (update_trip_day trip_id user_id day_id k date) = user_id
user_of (remove_trip_day trip_id user_id day_id) = user_id
user_of (add_trip_item uuid command) = command.user_id
user_of (reschedule_trip_item trip_id user_id day_id item_id start end) = user_id
user_of (remove_trip_item trip_id user_id day_id item_id) = user_id
user_of (update_trip_item command) = command.user_id

-- The operation of the aggregate that a request asks for.
abbrev pub command_of : Request → Command
command_of (add_trip_day uuid trip_id user_id k date) = History.add_day uuid k date
command_of (update_trip_day trip_id user_id day_id k date) = History.update_day day_id k date
command_of (remove_trip_day trip_id user_id day_id) = History.remove_day day_id
command_of (add_trip_item uuid c) = History.add_item uuid (record {
  trip_day_id = c.day_id;
  place_id = c.place_id;
  type = c.type;
  start_time = c.start_time;
  end_time = c.end_time;
  note = c.note;
  sort_order = c.sort_order;
})
command_of (reschedule_trip_item trip_id user_id day_id item_id start end) =
    History.reschedule_item day_id item_id start end
command_of (remove_trip_item trip_id user_id day_id item_id) = History.remove_item day_id item_id
command_of (update_trip_item c) = History.update_item (record {
  trip_day_id = c.day_id;
  item_id = c.item_id;
  place_id = c.place_id;
  type = c.type;
  note = c.note;
  sort_order = c.sort_order;
})

module _ {S : Type 0} (ports : TripPorts S) where
  unfoldable pub handle : Request → Method S (Unit {0})
  handle (add_trip_day uuid trip_id user_id k date) =
      Handlers.add_trip_day ports uuid trip_id user_id k date
  handle (update_trip_day trip_id user_id day_id k date) =
      Handlers.update_trip_day ports trip_id user_id day_id k date
  handle (remove_trip_day trip_id user_id day_id) =
      Handlers.remove_trip_day ports trip_id user_id day_id
  handle (add_trip_item uuid command) = Handlers.add_trip_item ports uuid command
  handle (reschedule_trip_item trip_id user_id day_id item_id start end) =
      Handlers.reschedule_trip_item ports trip_id user_id day_id item_id start end
  handle (remove_trip_item trip_id user_id day_id item_id) =
      Handlers.remove_trip_item ports trip_id user_id day_id item_id
  handle (update_trip_item command) = Handlers.update_trip_item ports command

  -- The check of the place, where a request names one.
  unfoldable pub check : Request → Trip → Method S (Unit {0})
  unfolding Handlers.is_truthy
  check (add_trip_item uuid c) trip =
      ports.assert_place_matches_destination c.place_id trip.destination_id
  check (update_trip_item c) trip =
      when (Handlers.is_truthy c.place_id)
        (ports.assert_place_matches_destination (or_else c.place_id "") trip.destination_id)
  check _ trip = pure tt

  -- The common shape of the handlers.
  unfoldable pub save_changed : Request → Trip → Method S (Unit {0})
  save_changed r trip = check r trip >> (on_trip ports (run (command_of r)) trip >>= ports.save)

  pub handle_lem :
      (r : Request) (s : S)
      → handle r s ≡ (own_trip ports (trip_of r) (user_of r) >>= save_changed r) s
  unfolding handle save_changed check run Handlers.add_trip_day Handlers.update_trip_day
      Handlers.remove_trip_day Handlers.add_trip_item Handlers.reschedule_trip_item
      Handlers.remove_trip_item Handlers.update_trip_item
  handle_lem (add_trip_day uuid trip_id user_id k date) s = refl
  handle_lem (update_trip_day trip_id user_id day_id k date) s = refl
  handle_lem (remove_trip_day trip_id user_id day_id) s = refl
  handle_lem (add_trip_item uuid command) s = refl
  handle_lem (reschedule_trip_item trip_id user_id day_id item_id start end) s = refl
  handle_lem (remove_trip_item trip_id user_id day_id item_id) s = refl
  handle_lem (update_trip_item command) s = refl
