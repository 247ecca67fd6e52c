-- ===== src/Place/Registration/Tests.antt =====
-- Runs of the registration requests over the database in memory.
use recommendation_trip_plat.Base.{after, ◌≡◌, refl, none, some, [], ◌∷◌, done}
use recommendation_trip_plat.Place.Registration.{RegistrationRequest, approve_request, pending}
use recommendation_trip_plat.Place.Memory.{
  Memory, memory, memory_laws, registrations, registration_laws,
}
use recommendation_trip_plat.Place.Management.Storage.{PlaceRow}
use recommendation_trip_plat.Place.Registration.Visibility
use recommendation_trip_plat.Place.Registration.Visibility.{
  NoneApproved, Approved, DraftOf, Reaches, Reaches-NoneApproved, approve_request-Creates,
}

abbrev wish : RegistrationRequest
wish = record {
  id = "q1";
  requester_user_id = "u1";
  status = pending;
  name = "Cafe";
  description = none;
  address = "1 Le Loi";
  lat = "16.46";
  lng = "107.59";
  category_id = "food";
  destination_id = none;
  partner_id = "ann";
  image_urls = none;
  thumbnail_url = none;
  reviewed_by_user_id = none;
  reviewed_at = none;
  rejection_reason = none;
  approved_place_id = none;
  deleted_at = none;
}

abbrev one_wish : Memory
one_wish = record { rows = []; outbox = []; events = []; requests = wish ∷ [] }

approve_request-Creates_example :
    (u : Memory) × (approve_request memory registrations "p1" 7 "q1" "boss" one_wish
      ≡ done ("q1", "p1") u)
    × ((next : RegistrationRequest) × (registrations.find_request "q1" u ≡ some next)
        × Approved "p1" 7 "boss" wish next)
    × ((row : PlaceRow) × (memory.find_one "p1" u ≡ some row) × DraftOf "p1" wish row)
    × (memory_laws.outbox u ≡ memory_laws.outbox one_wish)
approve_request-Creates_example =
    approve_request-Creates memory memory_laws registrations registration_laws "p1" 7 "q1" "boss"
      one_wish wish refl refl refl refl

one_wish-NoneApproved : NoneApproved memory memory_laws registrations registration_laws one_wish
unfolding NoneApproved
one_wish-NoneApproved id row h = cc

Reaches-NoneApproved_example :
    NoneApproved memory memory_laws registrations registration_laws
      (after (approve_request memory registrations "p1" 7 "q1" "boss" one_wish))
Reaches-NoneApproved_example =
    Reaches-NoneApproved memory memory_laws registrations registration_laws one_wish
      (after (approve_request memory registrations "p1" 7 "q1" "boss" one_wish))
      (Visibility.approval "p1" 7 "q1" "boss" one_wish Visibility.start) one_wish-NoneApproved
