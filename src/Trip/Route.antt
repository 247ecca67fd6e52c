-- ===== src/Trip/Route.antt =====
-- modules/trip/domain/services/trip-route-overview.builder.ts, and the handlers that rebuild and read
-- the overview of a route. A coordinate is the text of its number, and none if that is not finite;
-- the time at which an overview is generated is an argument.
pub mod Order
pub mod Laws
pub mod Rebuild
mod Tests
use recommendation_trip_plat.Base.{
  leb, if◌then◌else◌, distinct, find_last, concat_map, Method, pure, modify, get, ℕ, ◌-◌, ◌/◌,
  String, not, Option, none, some, List, [], ◌∷◌, map, ◌==◌, ◌>>=◌, ◌>>◌,
}
use recommendation_trip_plat.Trip.Entities.{TripItem, TripDay}
use recommendation_trip_plat.Trip.Aggregate.{Trip}
use recommendation_trip_plat.Trip.Ports.{TripPorts}
use recommendation_trip_plat.Trip.Handlers.{own_trip}

pub record RoutePlaceCoord : Type 0 where
  pub id : String
  pub name : String
  pub lat : Option String
  pub lng : Option String

pub record TripRouteWaypoint : Type 0 where
  pub trip_item_id : String
  pub place_id : String
  pub day_index : ℕ
  pub sort_order : ℕ
  pub name : String
  pub lat : String
  pub lng : String

pub record TripRouteOverview : Type 0 where
  pub generated_at : String
  pub trip_version : ℕ
  pub waypoints : List TripRouteWaypoint

-- `[...xs].sort((a, b) => key(a) - key(b))`, which keeps the order of equal keys.
module _ {A : Type 0} (key : A → ℕ) where
  unfoldable pub insert_by : A → List A → List A
  insert_by x [] = x ∷ []
  insert_by x (y ∷ ys) = if leb (key x) (key y) then x ∷ y ∷ ys else y ∷ insert_by x ys

  unfoldable pub sort_by : List A → List A
  unfolding insert_by
  sort_by [] = []
  sort_by (x ∷ xs) = insert_by x (sort_by xs)

abbrev pub waypoint_at :
    TripDay → TripItem → RoutePlaceCoord → Option String → Option String → List TripRouteWaypoint
waypoint_at day item place (some lat) (some lng) =
    record {
      trip_item_id = item.id;
      place_id = item.place_id;
      day_index = day.day_index;
      sort_order = item.sort_order;
      name = place.name;
      lat = lat;
      lng = lng;
    }
    ∷ []
waypoint_at day item place _ _ = []

-- Nothing for an item whose place is not among those that were found.
abbrev pub waypoint_for : TripDay → TripItem → Option RoutePlaceCoord → List TripRouteWaypoint
waypoint_for day item none = []
waypoint_for day item (some place) = waypoint_at day item place place.lat place.lng

abbrev pub waypoint_of : List RoutePlaceCoord → TripDay → TripItem → List TripRouteWaypoint
waypoint_of places day item =
    waypoint_for day item (find_last (λ (p : RoutePlaceCoord). p.id == item.place_id) places)

unfoldable pub waypoints_of_day : List RoutePlaceCoord → TripDay → List TripRouteWaypoint
unfolding find_last sort_by
waypoints_of_day places day =
    concat_map (waypoint_of places day) (sort_by (λ (i : TripItem). i.sort_order) day.items)

unfoldable pub build_waypoints : List RoutePlaceCoord → List TripDay → List TripRouteWaypoint
unfolding sort_by waypoints_of_day
build_waypoints places days =
    concat_map (waypoints_of_day places) (sort_by (λ (d : TripDay). d.day_index) days)

unfoldable pub build : String → Trip → List RoutePlaceCoord → TripRouteOverview
unfolding build_waypoints
build generated_at trip places = record {
  generated_at = generated_at;
  trip_version = trip.version;
  waypoints = build_waypoints places trip.days;
}

-- The ports of the two handlers beside those that change a trip.
pub record RoutePorts (S : Type 0) : Type 0 where
  pub trips : TripPorts S
  pub find_approved_route_places : List String → S → List RoutePlaceCoord
  pub save_route_overview : String → TripRouteOverview → S → S
  pub find_route_overview_by_trip_id : String → S → Option TripRouteOverview

unfoldable pub place_ids : Trip → List String
unfolding distinct
place_ids trip =
    distinct (concat_map (λ (d : TripDay). map (λ (i : TripItem). i.place_id) d.items) trip.days)

module _ {S : Type 0} (ports : RoutePorts S) where
  unfoldable pub rebuild_route_overview : String → String → String → Method S TripRouteOverview
  unfolding place_ids build
  rebuild_route_overview generated_at user_id trip_id = do
    trip ← own_trip ports.trips trip_id user_id
    s ← get
    let overview = build generated_at trip (ports.find_approved_route_places (place_ids trip) s)
    modify (ports.save_route_overview trip.id overview)
    pure overview

  unfoldable pub get_route_overview : String → String → Method S (Option TripRouteOverview)
  get_route_overview user_id trip_id = do
    _ ← own_trip ports.trips trip_id user_id
    s ← get
    pure (ports.find_route_overview_by_trip_id trip_id s)
