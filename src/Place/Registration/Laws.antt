-- ===== src/Place/Registration/Laws.antt =====
-- The laws of the database that the use cases of the registration requests rely on.
use recommendation_trip_plat.Base.{if◌then◌else◌, String, ◌≡◌, some, [], ◌==◌}
use recommendation_trip_plat.Place.Management.Storage.Laws.{PlaceWorldLaws}
use recommendation_trip_plat.Place.Registration.{RegistrationRequest, RegistrationWorld}
use recommendation_trip_plat.Place.Management.Storage.{PlaceRow, PlaceWorld}

-- What the use cases rely on in the database, beside the laws of the places.
pub record RegistrationLaws {S : Type 0} (places : PlaceWorld S) (laws : PlaceWorldLaws places)
    (world : RegistrationWorld S) : Type 0 where
  pub request_id :
      (id : String) (s : S) (r : RegistrationRequest) → world.find_request id s ≡ some r → r.id ≡ id
  pub find_saved :
      (r : RegistrationRequest) (s : S) (id : String)
      → world.find_request id (world.save_request r s)
        ≡ (if r.id == id then some r else world.find_request id s)
  pub request_place :
      (row : PlaceRow) (s : S) (id : String)
      → world.find_request id (places.save_row row s) ≡ world.find_request id s
  pub request_notified :
      (user place : String) (s : S) (id : String)
      → world.find_request id (world.notify_place_approved user place s) ≡ world.find_request id s
  pub request_published :
      (s : S) (id : String) → world.find_request id (places.publish [] s) ≡ world.find_request id s
  pub place_request :
      (r : RegistrationRequest) (s : S) (id : String)
      → places.find_one id (world.save_request r s) ≡ places.find_one id s
  pub place_approved :
      (user place : String) (s : S) (id : String)
      → places.find_one id (world.notify_place_approved user place s) ≡ places.find_one id s
  pub place_rejected :
      (user place reason : String) (s : S) (id : String)
      → places.find_one id (world.notify_place_rejected user place reason s) ≡ places.find_one id s
  pub outbox_request :
      (r : RegistrationRequest) (s : S) → laws.outbox (world.save_request r s) ≡ laws.outbox s
  pub outbox_approved :
      (user place : String) (s : S)
      → laws.outbox (world.notify_place_approved user place s) ≡ laws.outbox s
