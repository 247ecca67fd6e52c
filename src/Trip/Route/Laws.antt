-- ===== src/Trip/Route/Laws.antt =====
-- The overview of a route: its waypoints in the order of the days and of the items, and whose it is.
use recommendation_trip_plat.Base.{
  length, filter, find_last, concat_map, All, AllPairs, All-every, All-append, All-map, ℕ, ◌≤◌, ◌<◌,
  String, ◌≡◌, refl, sym, ◌∙◌, ◌⊎◌, inl, inr, Bool, Option, none, some, List, [], ◌∷◌, ◌++◌, arith,
  ◌==◌,
}
use recommendation_trip_plat.Trip.Entities.{TripItem, TripDay}
use recommendation_trip_plat.Trip.Aggregate.{Trip}
use recommendation_trip_plat.Trip.Route.{
  RoutePlaceCoord, TripRouteWaypoint, sort_by, waypoint_at, waypoint_for, waypoint_of,
  waypoints_of_day,
}
use recommendation_trip_plat.Trip.Route.Order.{sort_by-sorted}

-- An earlier day, or the same day and no later place in it.
abbrev pub Before : TripRouteWaypoint → TripRouteWaypoint → Type 0
Before v w =
    (v.day_index < w.day_index) ⊎ ((v.day_index ≡ w.day_index) × (v.sort_order ≤ w.sort_order))

-- The waypoints of the items as the trip has them, in no order.
abbrev pub unsorted_waypoints : List RoutePlaceCoord → List TripDay → List TripRouteWaypoint
unsorted_waypoints places days =
    concat_map (λ (d : TripDay). concat_map (waypoint_of places d) d.items) days

-- In order, and each as often as the items of the trip give it.
unfoldable pub Routes : List RoutePlaceCoord → Trip → List TripRouteWaypoint → Type 0
Routes places trip ws =
    AllPairs Before ws
    × ((q : TripRouteWaypoint → Bool)
        → length (filter q ws) ≡ length (filter q (unsorted_waypoints places trip.days)))

AllPairs-append :
    (xs ys : List TripRouteWaypoint)
    → AllPairs Before xs
    → AllPairs Before ys
    → All (λ x. All (Before x) ys) xs
    → AllPairs Before (xs ++ ys)
AllPairs-append [] ys hx hy h = hy
AllPairs-append (x ∷ xs) ys (hx, hxs) hy (h, hs) =
    (All-append (Before x) xs ys hx h, AllPairs-append xs ys hxs hy hs)

-- A waypoint of an item has its day and its place in the day.
module _ (places : List RoutePlaceCoord) (day : TripDay) where
  abbrev Of : TripItem → TripRouteWaypoint → Type 0
  Of item w = (w.day_index ≡ day.day_index) × (w.sort_order ≡ item.sort_order)

  waypoint-Of : (item : TripItem) → All (Of item) (waypoint_of places day item)
  waypoint-Of item = go (find_last (λ (p : RoutePlaceCoord). p.id == item.place_id) places)
    where
      at :
          (p : RoutePlaceCoord) (lat lng : Option String)
          → All (Of item) (waypoint_at day item p lat lng)
      at p (some lat) (some lng) = ((refl, refl), tt)
      at p (some lat) none = tt
      at p none lng = tt

      go : (o : Option RoutePlaceCoord) → All (Of item) (waypoint_for day item o)
      go none = tt
      go (some p) = at p p.lat p.lng

  waypoint-AllPairs : (item : TripItem) → AllPairs Before (waypoint_of places day item)
  waypoint-AllPairs item = go (find_last (λ (p : RoutePlaceCoord). p.id == item.place_id) places)
    where
      at :
          (p : RoutePlaceCoord) (lat lng : Option String)
          → AllPairs Before (waypoint_at day item p lat lng)
      at p (some lat) (some lng) = (tt, tt)
      at p (some lat) none = tt
      at p none lng = tt

      go : (o : Option RoutePlaceCoord) → AllPairs Before (waypoint_for day item o)
      go none = tt
      go (some p) = at p p.lat p.lng

  -- The waypoints of later items.
  later :
      (n : ℕ) (items : List TripItem)
      → All (λ (i : TripItem). n ≤ i.sort_order) items
      → All
          (λ w. (w.day_index ≡ day.day_index) × (n ≤ w.sort_order))
          (concat_map (waypoint_of places day) items)
  later n [] h = tt
  later n (i ∷ items) (h, hs) =
      All-append (λ w. (w.day_index ≡ day.day_index) × (n ≤ w.sort_order))
        (waypoint_of places day i) (concat_map (waypoint_of places day) items)
        (All-map (λ w (d, k). (d, omega (arith, h, k))) (waypoint_of places day i) (waypoint-Of i))
        (later n items hs)

  items-Before :
      (items : List TripItem)
      → AllPairs (λ (i j : TripItem). i.sort_order ≤ j.sort_order) items
      → AllPairs Before (concat_map (waypoint_of places day) items)
  items-Before [] h = tt
  items-Before (i ∷ items) (h, hs) =
      AllPairs-append (waypoint_of places day i) (concat_map (waypoint_of places day) items)
        (waypoint-AllPairs i) (items-Before items hs)
        (All-map
          (λ v (d, k).
            All-map (λ w (e, l). inr (d ∙ sym e, omega (arith, k, l)))
              (concat_map (waypoint_of places day) items) (later i.sort_order items h))
          (waypoint_of places day i) (waypoint-Of i))

  day-Before : AllPairs Before (waypoints_of_day places day)
  unfolding waypoints_of_day
  day-Before =
      items-Before (sort_by (λ (i : TripItem). i.sort_order) day.items)
        (sort_by-sorted (λ (i : TripItem). i.sort_order) day.items)

  items-day :
      (items : List TripItem)
      → All (λ w. w.day_index ≡ day.day_index) (concat_map (waypoint_of places day) items)
  items-day items =
      All-map (λ w (d, _). d) (concat_map (waypoint_of places day) items)
        (later 0 items (All-every (λ (i : TripItem). 0 ≤ i.sort_order) (λ i. omega arith) items))

  day-day : All (λ w. w.day_index ≡ day.day_index) (waypoints_of_day places day)
  unfolding waypoints_of_day
  day-day = items-day (sort_by (λ (i : TripItem). i.sort_order) day.items)

module _ (places : List RoutePlaceCoord) where
  later_days :
      (n : ℕ) (days : List TripDay)
      → All (λ (d : TripDay). n < d.day_index) days
      → All (λ w. n < w.day_index) (concat_map (waypoints_of_day places) days)
  later_days n [] h = tt
  later_days n (d ∷ days) (h, hs) =
      All-append (λ w. n < w.day_index) (waypoints_of_day places d)
        (concat_map (waypoints_of_day places) days)
        (All-map (λ w e. omega (arith, h, e)) (waypoints_of_day places d) (day-day places d))
        (later_days n days hs)

  pub days-Before :
      (days : List TripDay)
      → AllPairs (λ (d e : TripDay). d.day_index < e.day_index) days
      → AllPairs Before (concat_map (waypoints_of_day places) days)
  days-Before [] h = tt
  days-Before (d ∷ days) (h, hs) =
      AllPairs-append (waypoints_of_day places d) (concat_map (waypoints_of_day places) days)
        (day-Before places d) (days-Before days hs)
        (All-map
          (λ v e.
            All-map (λ w k. inl (omega (arith, e, k))) (concat_map (waypoints_of_day places) days)
              (later_days d.day_index days h))
          (waypoints_of_day places d) (day-day places d))
