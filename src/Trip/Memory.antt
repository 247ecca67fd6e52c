-- ===== src/Trip/Memory.antt =====
-- A store of trips in memory, which meets the laws of the ports, and a trip.
use recommendation_trip_plat.Base.{if◌then◌else◌, String, refl, Option, none, some, [], ◌==◌, done}
use recommendation_trip_plat.Trip.Aggregate.{Trip, draft}
use recommendation_trip_plat.Trip.Ports.{TripPorts, TripPortsLaws}

abbrev pub Store : Type 0
Store = String → Option Trip

abbrev pub memory : TripPorts Store
memory = record {
  find_by_id = λ id s. done (s id) s;
  save = λ t s. done tt (λ id. if t.id == id then some t else s id);
  assert_destination_exists = λ d s. done tt s;
  assert_place_matches_destination = λ p d s. done tt s;
  assert_places_match_destination = λ ps d s. done tt s;
  publish = λ es s. done tt s;
}

abbrev pub memory_laws : TripPortsLaws memory
memory_laws = record {
  stored = λ s id. s id;
  reload = λ t. t;
  find_stored = λ id s. refl;
  save_returns = λ t s. (λ id. if t.id == id then some t else s id, refl);
  stored_save = λ t s id. refl;
  destination_reads = λ d s. refl;
  place_reads = λ p d s. refl;
  places_read = λ ps d s. refl;
  publish_stored = λ es s id. refl;
}

abbrev pub mine : Trip
mine = record {
  id = "t1";
  user_id = "ann";
  destination_id = "hue";
  title = "May";
  status = draft;
  date_range = record { start_date = 63913276800000; end_date = 63913449600000 };
  days = [];
  version = 0;
}

abbrev pub one_trip : Store
one_trip id = if "t1" == id then some mine else none
