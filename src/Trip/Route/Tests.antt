-- ===== src/Trip/Route/Tests.antt =====
-- The overview of a route, rebuilt by the owner of a trip in memory.
use recommendation_trip_plat.Base.{
  if◌then◌else◌, Bool, false, Holds, includes_iff, any, filter, find_last, Option, ◌≡◌, ◌∙◌, sym,
  subst, eq_iff, Bool-cases, inl, inr, true, ℕ, String, refl, none, some, List, [], ◌∷◌, ◌==◌,
}
use recommendation_trip_plat.Trip.Route.{RoutePlaceCoord, RoutePorts, rebuild_route_overview}
use recommendation_trip_plat.Trip.Route.Rebuild.{RoutePortsLaws, Rebuilds, rebuild-Rebuilds}
use recommendation_trip_plat.Trip.Entities.{TripItem, TripDay}
use recommendation_trip_plat.Trip.Aggregate.{Trip}
use recommendation_trip_plat.Trip.Memory.{Store, memory, memory_laws, mine}

abbrev citadel : RoutePlaceCoord
citadel = record { id = "p1"; name = "citadel"; lat = some "16.47"; lng = some "107.58" }

abbrev river : RoutePlaceCoord
river = record { id = "p2"; name = "river"; lat = some "16.46"; lng = none }

-- The query over the two places that are approved.
abbrev ports : RoutePorts Store
ports = record {
  trips = memory;
  find_approved_route_places =
      λ ids s. filter (λ (p : RoutePlaceCoord). any (λ id. id == p.id) ids) (citadel ∷ river ∷ []);
  save_route_overview = λ id overview s. s;
  find_route_overview_by_trip_id = λ id s. none;
}

-- A query by identifiers, and what a `Map` of its answer has.
filter-find_last :
    (ids : List String) (id : String) (places : List RoutePlaceCoord)
    → Holds id ids
    → find_last
        (λ (p : RoutePlaceCoord). p.id == id)
        (filter (λ (p : RoutePlaceCoord). any (λ i. i == p.id) ids) places)
      ≡ find_last (λ (p : RoutePlaceCoord). p.id == id) places
unfolding find_last filter
filter-find_last ids id [] h = refl
filter-find_last ids id (p ∷ places) h =
    let rest = filter-find_last ids id places h in
    elim (Bool-cases (p.id == id)) [
      | inl e ↦
          let asked : any (λ i. i == p.id) ids ≡ true =
            (includes_iff ids p.id).1 (subst (λ z. Holds z ids) (sym ((eq_iff p.id id).0 e)) h) in
          rw asked (rw rest refl)
      | inr e ↦ elim (Bool-cases (any (λ i. i == p.id) ids)) [
        | inl asked ↦ rw asked (rw rest refl)
        | inr other ↦ rw other (
            rest
            ∙ dropped p (p.id == id) e (find_last (λ (q : RoutePlaceCoord). q.id == id) places))
      ]
    ]
  where
    dropped :
        (p : RoutePlaceCoord) (b : Bool)
        → b ≡ false
        → (o : Option RoutePlaceCoord)
        → o ≡ elim o [ none ↦ if b then some p else none | some y ↦ some y ]
    dropped p b e none = rw e refl
    dropped p b e (some y) = refl

ports_laws : RoutePortsLaws ports
ports_laws = record {
  approved = λ s id. find_last (λ (p : RoutePlaceCoord). p.id == id) (citadel ∷ river ∷ []);
  found = λ ids s id h. filter-find_last ids id (citadel ∷ river ∷ []) h;
}

abbrev item : String → String → ℕ → TripItem
item id place_id sort_order = record {
  id = id;
  trip_day_id = "d";
  place_id = place_id;
  type = "VISIT";
  note = none;
  sort_order = sort_order;
  time_slot = record {
    start_time = "08:00";
    end_time = "09:00";
    start_minutes = 480;
    end_minutes = 540;
  };
}

abbrev day : String → ℕ → List TripItem → TripDay
day id day_index items = record {
  id = id;
  trip_id = "t1";
  day_index = day_index;
  date = "2025-05-01";
  items = items;
}

abbrev planned : Trip
planned = record mine {
  days =
      day "d2" 2 (item "i3" "p1" 1 ∷ [])
      ∷ day "d1" 1 (item "i2" "p1" 7 ∷ item "i1" "p1" 3 ∷ item "i0" "p2" 1 ∷ [])
      ∷ [];
}

abbrev with_plan : Store
with_plan id = if "t1" == id then some planned else none

rebuild-Rebuilds_example :
    Rebuilds ports memory_laws ports_laws "now" "ann" planned with_plan
      (rebuild_route_overview ports "now" "ann" "t1" with_plan)
rebuild-Rebuilds_example =
    rebuild-Rebuilds ports memory_laws ports_laws "now" "ann" "t1" with_plan planned refl
      (((λ e. cc), tt), (tt, tt))
