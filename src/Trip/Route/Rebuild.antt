-- ===== src/Trip/Route/Rebuild.antt =====
-- What the request to rebuild the overview of a route stores and returns.
use recommendation_trip_plat.Base.{
  Holds, Holds-left, Holds-right, Holds-distinct, All-map, All, Option, none, map, find_last, ◌++◌,
  Bool-cases, length, filter, concat_map, AllPairs, All-zip, Outcome, ℕ, ◌≤◌, ◌<◌, String, ◌≡◌,
  refl, sym, ap, subst, ◌∙◌, ◌≢◌, inl, inr, Bool, true, false, some, List, [], ◌∷◌, arith, ◌==◌,
  eq_iff, resource_not_found, done, fail,
}
use recommendation_trip_plat.Trip.Route.{
  waypoint_at, waypoint_for, RoutePlaceCoord, TripRouteWaypoint, TripRouteOverview, sort_by,
  waypoint_of, waypoints_of_day, build_waypoints, build, RoutePorts, place_ids,
  rebuild_route_overview,
}
use recommendation_trip_plat.Trip.Route.Laws.{Before, unsorted_waypoints, Routes, days-Before}
use recommendation_trip_plat.Trip.Route.Order.{
  count-append, sort_by-sorted, sort_by-distinct, count-sort_by,
}
use recommendation_trip_plat.Trip.Entities.{TripItem, TripDay}
use recommendation_trip_plat.Trip.Aggregate.{Trip}
use recommendation_trip_plat.Trip.Ports.{TripPortsLaws}
use recommendation_trip_plat.Trip.Handlers.{own_trip}
use recommendation_trip_plat.Trip.Handlers.Laws.{own_trip-done, own_trip-fail}

-- The days have different indices, as the invariant of a trip has it.
abbrev pub DifferentDays : Trip → Type 0
DifferentDays trip = AllPairs (λ (d e : TripDay). d.day_index ≢ e.day_index) trip.days

strictly :
    (days : List TripDay)
    → AllPairs (λ (d e : TripDay). d.day_index ≤ e.day_index) days
    → AllPairs (λ (d e : TripDay). d.day_index ≢ e.day_index) days
    → AllPairs (λ (d e : TripDay). d.day_index < e.day_index) days
strictly [] h g = tt
strictly (d ∷ days) (h, hs) (g, gs) =
    (All-zip (λ e a b. omega (arith, a, b)) days h g, strictly days hs gs)

count_days :
    (places : List RoutePlaceCoord) (q : TripRouteWaypoint → Bool) (days : List TripDay)
    → length (filter q (concat_map (waypoints_of_day places) days))
      ≡ length (filter q (unsorted_waypoints places days))
unfolding waypoints_of_day
count_days places q [] = refl
count_days places q (d ∷ days) = omega (
  arith,
  count-append (waypoints_of_day places) q (waypoints_of_day places d)
      (concat_map (waypoints_of_day places) days),
  count-append (waypoints_of_day places) q (concat_map (waypoint_of places d) d.items)
      (unsorted_waypoints places days),
  count-sort_by (waypoint_of places d) q (λ (i : TripItem). i.sort_order) d.items,
  count_days places q days,
)

build-Routes :
    (places : List RoutePlaceCoord) (trip : Trip)
    → DifferentDays trip
    → Routes places trip (build_waypoints places trip.days)
unfolding build_waypoints Routes
build-Routes places trip d =
    let key : TripDay → ℕ = λ (d : TripDay). d.day_index in
    (
      days-Before places (sort_by key trip.days) (
          strictly (sort_by key trip.days) (sort_by-sorted key trip.days)
            (sort_by-distinct key trip.days d)),
      λ q. count-sort_by (waypoints_of_day places) q key trip.days ∙ count_days places q trip.days,
    )

-- The waypoint of an item at a place, if both coordinates are numbers.
abbrev stop_at :
    TripDay → TripItem → String → Option String → Option String → List TripRouteWaypoint
stop_at day item name (some lat) (some lng) =
    record {
      trip_item_id = item.id;
      place_id = item.place_id;
      day_index = day.day_index;
      sort_order = item.sort_order;
      name = name;
      lat = lat;
      lng = lng;
    }
    ∷ []
stop_at day item name _ _ = []

-- The waypoint of an item, given which places are approved.
abbrev pub stop_of : (String → Option RoutePlaceCoord) → TripDay → TripItem → List TripRouteWaypoint
stop_of approved day item = elim (approved item.place_id) [
  | none ↦ []
  | some place ↦ stop_at day item place.name place.lat place.lng
]

-- The waypoints of all items, in no order.
abbrev pub stops : (String → Option RoutePlaceCoord) → List TripDay → List TripRouteWaypoint
stops approved days = concat_map (λ (d : TripDay). concat_map (stop_of approved d) d.items) days

-- In order, and each as often as the items of the trip give it.
abbrev pub Follows : (String → Option RoutePlaceCoord) → Trip → List TripRouteWaypoint → Type 0
Follows approved trip ws =
    AllPairs Before ws
    × ((q : TripRouteWaypoint → Bool)
        → length (filter q ws) ≡ length (filter q (stops approved trip.days)))

-- The query for approved places finds those of the given identifiers that are approved.
pub record RoutePortsLaws {S : Type 0} (ports : RoutePorts S) : Type 0 where
  pub approved : S → String → Option RoutePlaceCoord
  pub found :
      (ids : List String) (s : S) (id : String)
      → Holds id ids
      → find_last (λ (p : RoutePlaceCoord). p.id == id) (ports.find_approved_route_places ids s)
        ≡ approved s id

module _ (places : List RoutePlaceCoord) (approved : String → Option RoutePlaceCoord) where
  abbrev Known : TripItem → Type 0
  Known i = find_last (λ (p : RoutePlaceCoord). p.id == i.place_id) places ≡ approved i.place_id

  waypoint-stop :
      (day : TripDay) (i : TripItem) → Known i → waypoint_of places day i ≡ stop_of approved day i
  waypoint-stop day i known = ap (waypoint_for day i) known ∙ same (approved i.place_id)
    where
      at :
          (p : RoutePlaceCoord) (lat lng : Option String)
          → waypoint_at day i p lat lng ≡ stop_at day i p.name lat lng
      at p (some lat) (some lng) = refl
      at p (some lat) none = refl
      at p none lng = refl

      same :
          (o : Option RoutePlaceCoord)
          → waypoint_for day i o
            ≡ elim o [ none ↦ [] | some place ↦ stop_at day i place.name place.lat place.lng ]
      same none = refl
      same (some p) = at p p.lat p.lng

  items-stops :
      (day : TripDay) (items : List TripItem)
      → All Known items
      → concat_map (waypoint_of places day) items ≡ concat_map (stop_of approved day) items
  items-stops day [] h = refl
  items-stops day (i ∷ items) (h, hs) =
      ap (λ xs. xs ++ concat_map (waypoint_of places day) items) (waypoint-stop day i h)
      ∙ ap (λ xs. stop_of approved day i ++ xs) (items-stops day items hs)

  days-stops :
      (days : List TripDay)
      → All (λ (d : TripDay). All Known d.items) days
      → unsorted_waypoints places days ≡ stops approved days
  days-stops [] h = refl
  days-stops (d ∷ days) (h, hs) =
      ap (λ xs. xs ++ unsorted_waypoints places days) (items-stops d d.items h)
      ∙ ap (λ xs. concat_map (stop_of approved d) d.items ++ xs) (days-stops days hs)

-- The identifiers that are looked up are those of all items.
items-Holds :
    (ids : List String) (items : List TripItem)
    → ((id : String) → Holds id (map (λ (i : TripItem). i.place_id) items) → Holds id ids)
    → All (λ (i : TripItem). Holds i.place_id ids) items
items-Holds ids [] k = tt
items-Holds ids (i ∷ items) k =
    (k i.place_id (inl refl), items-Holds ids items (λ id h. k id (inr h)))

days-Holds :
    (ids : List String) (days : List TripDay)
    → ((id : String)
        → Holds id (concat_map (λ (d : TripDay). map (λ (i : TripItem). i.place_id) d.items) days)
        → Holds id ids)
    → All (λ (d : TripDay). All (λ (i : TripItem). Holds i.place_id ids) d.items) days
days-Holds ids [] k = tt
days-Holds ids (d ∷ days) k =
    let here : List String = map (λ (i : TripItem). i.place_id) d.items in
    let rest : List String =
      concat_map (λ (d : TripDay). map (λ (i : TripItem). i.place_id) d.items) days in
    (
      items-Holds ids d.items (λ id h. k id (Holds-left id here rest h)),
      days-Holds ids days (λ id h. k id (Holds-right id here rest h)),
    )

place_ids-Holds :
    (trip : Trip)
    → All
        (λ (d : TripDay). All (λ (i : TripItem). Holds i.place_id (place_ids trip)) d.items)
        trip.days
unfolding place_ids
place_ids-Holds trip = days-Holds (place_ids trip) trip.days (λ id h. Holds-distinct id _ h)

module _ {S : Type 0} (ports : RoutePorts S) (laws : TripPortsLaws ports.trips)
    (more : RoutePortsLaws ports) where
  open laws use {stored}

  -- The owner gets the overview that is stored; for anybody else there is no such trip.
  unfoldable pub Rebuilds : String → String → Trip → S → Outcome S TripRouteOverview → Type 0
  Rebuilds generated_at user_id trip s (done overview u) =
      (trip.user_id ≡ user_id)
      × (u ≡ ports.save_route_overview trip.id overview s)
      × (overview.generated_at ≡ generated_at)
      × (overview.trip_version ≡ trip.version)
      × Follows (more.approved s) trip overview.waypoints
  Rebuilds generated_at user_id trip s (fail e u) =
      (trip.user_id ≢ user_id) × (u ≡ s) × (e ≡ resource_not_found "trip_not_found")

  rebuilt-Follows :
      (trip : Trip) (s : S)
      → DifferentDays trip
      → Follows
          (more.approved s)
          trip
          (build_waypoints (ports.find_approved_route_places (place_ids trip) s) trip.days)
  unfolding Routes
  rebuilt-Follows trip s d =
      let places = ports.find_approved_route_places (place_ids trip) s in
      let (sorted, counted) = build-Routes places trip d in
      let same : unsorted_waypoints places trip.days ≡ stops (more.approved s) trip.days =
        days-stops places (more.approved s) trip.days (
          All-map
            (λ (e : TripDay) h.
              All-map (λ (i : TripItem) k. more.found (place_ids trip) s i.place_id k) e.items h)
            trip.days (place_ids-Holds trip)) in
      (sorted, λ q. counted q ∙ ap (λ ws. length (filter q ws)) same)

  -- A request to rebuild the overview of a stored trip, whose days have different indices, returns
  -- exactly for its owner. It stores and returns, for the version of the trip, the waypoints of the
  -- items with an approved place: by the order of the days, then by that of the items in a day, each
  -- as often as the items give it. For anybody else it throws that there is no such trip and changes
  -- nothing.
  pub rebuild-Rebuilds :
      (generated_at user_id trip_id : String) (s : S) (trip : Trip)
      → stored s trip_id ≡ some trip
      → DifferentDays trip
      → Rebuilds generated_at user_id trip s
          (rebuild_route_overview ports generated_at user_id trip_id s)
  unfolding rebuild_route_overview Rebuilds build
  rebuild-Rebuilds generated_at user_id trip_id s trip there d =
      elim (Bool-cases (trip.user_id == user_id)) [
        | inl e ↦
            let mine : trip.user_id ≡ user_id = (eq_iff trip.user_id user_id).0 e in
            let found : own_trip ports.trips trip_id user_id s ≡ done trip s =
              subst (λ i. own_trip ports.trips trip_id i s ≡ done trip s) mine
                (own_trip-done ports.trips laws trip_id s trip there) in
            rw found (mine, refl, refl, refl, rebuilt-Follows trip s d)
        | inr e ↦
            let other : trip.user_id ≢ user_id =
              λ q. let f : true ≡ false = sym ((eq_iff trip.user_id user_id).1 q) ∙ e in cc in
            rw
              (own_trip-fail ports.trips laws trip_id user_id s (λ t h. λ q.
                let some_same : some trip ≡ some t = sym there ∙ h in
                let same : trip ≡ t = cc in other (ap (λ (z : Trip). z.user_id) same ∙ q)))
              (other, refl, refl)
      ]
