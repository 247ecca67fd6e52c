-- ===== src/Trip/Ports.antt =====
-- modules/trip/application/ports: what the trip handlers ask of the database and of the event bus,
-- over a state `S` of the world. The handlers take it as an argument, as the code injects it.
use recommendation_trip_plat.Base.{
  some, ◌==◌, if◌then◌else◌, after, done, List, ◌≡◌, String, Method, Option,
}
use recommendation_trip_plat.Trip.Aggregate.{Trip, TripStatus}

pub record TripDraftCreatedEvent : Type 0 where
  pub trip_id : String
  pub user_id : String
  pub status : TripStatus

pub record TripPorts (S : Type 0) : Type 0 where
  -- trip.repository.port.ts
  pub find_by_id : String → Method S (Option Trip)
  pub save : Trip → Method S (Unit {0})
  -- trip-place-read.port.ts
  pub assert_destination_exists : String → Method S (Unit {0})
  pub assert_place_matches_destination : String → String → Method S (Unit {0})
  pub assert_places_match_destination : List String → String → Method S (Unit {0})
  -- trip-event-bus.port.ts
  pub publish : List TripDraftCreatedEvent → Method S (Unit {0})

-- What the handlers rely on. `stored` is what the database holds, and `reload` what a saved trip
-- reads back as: the adapter sorts the days and the items of a trip that it loads.
pub record TripPortsLaws {S : Type 0} (ports : TripPorts S) : Type 0 where
  pub stored : S → String → Option Trip
  pub reload : Trip → Trip
  pub find_stored : (id : String) (s : S) → ports.find_by_id id s ≡ done (stored s id) s
  pub save_returns : (t : Trip) (s : S) → (u : S) × (ports.save t s ≡ done tt u)
  pub stored_save :
      (t : Trip) (s : S) (id : String)
      → stored (after (ports.save t s)) id ≡ (if t.id == id then some (reload t) else stored s id)
  pub destination_reads : (d : String) (s : S) → after (ports.assert_destination_exists d s) ≡ s
  pub place_reads :
      (p d : String) (s : S) → after (ports.assert_place_matches_destination p d s) ≡ s
  pub places_read :
      (ps : List String) (d : String) (s : S)
      → after (ports.assert_places_match_destination ps d s) ≡ s
  pub publish_stored :
      (es : List TripDraftCreatedEvent) (s : S) (id : String)
      → stored (after (ports.publish es s)) id ≡ stored s id
