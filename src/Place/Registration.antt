-- ===== src/Place/Registration.antt =====
-- modules/place/management/application/use-cases: how a reviewer approves or rejects the request to
-- register a place, with place-registration-request.orm-entity.ts. The database, the event bus and
-- the notifications are an argument.
pub mod Laws
pub mod Visibility
mod Tests
use recommendation_trip_plat.Base.{
  if◌then◌else◌, is_some, Method, pure, modify, get, reject_if, or_throw, trim, ℕ, ◌-◌, ◌/◌, String,
  Bool, true, false, not, Option, none, some, List, resource_not_found,
  registration_request_invalid_state, ◌>>=◌, ◌>>◌,
}
use recommendation_trip_plat.Place.Management.Aggregate.{PlaceAggregate, create}
use recommendation_trip_plat.Place.Management.Storage.{PlaceWorld, to_persistence}

pub data RegistrationStatus : Type 0 where
  pending approved rejected : RegistrationStatus

pub record RegistrationRequest : Type 0 where
  pub id : String
  pub requester_user_id : String
  pub status : RegistrationStatus
  pub name : String
  pub description : Option String
  pub address : String
  pub lat : String
  pub lng : String
  pub category_id : String
  pub destination_id : Option String
  pub partner_id : String
  pub image_urls : Option (List String)
  pub thumbnail_url : Option String
  pub reviewed_by_user_id : Option String
  pub reviewed_at : Option ℕ
  pub rejection_reason : Option String
  pub approved_place_id : Option String
  pub deleted_at : Option ℕ

-- `find_request` also finds requests that are deleted softly; the notifications name the user and
-- the place, and the reason of a rejection.
pub record RegistrationWorld (S : Type 0) : Type 0 where
  pub find_request : String → S → Option RegistrationRequest
  pub partner_exists : String → S → Bool
  pub save_request : RegistrationRequest → S → S
  pub notify_place_approved : String → String → S → S
  pub notify_place_rejected : String → String → String → S → S

abbrev pub is_open : RegistrationRequest → Bool
is_open request = not (is_some request.deleted_at)

abbrev pub open_only : Option RegistrationRequest → Option RegistrationRequest
open_only none = none
open_only (some request) = if is_open request then some request else none

abbrev pub is_pending : RegistrationStatus → Bool
is_pending pending = true
is_pending _ = false

-- The place that an approved request becomes, with its new identifier.
unfoldable pub place_of : String → RegistrationRequest → PlaceAggregate
place_of uuid request = create (record {
  id = uuid;
  name = request.name;
  description = request.description;
  address = request.address;
  lat = request.lat;
  lng = request.lng;
  category_id = request.category_id;
  partner_id = request.partner_id;
  destination_id = request.destination_id;
  opening_hours = none;
  image_urls = request.image_urls;
  thumbnail_url = request.thumbnail_url;
})

abbrev pub approved_request : String → ℕ → String → RegistrationRequest → RegistrationRequest
approved_request uuid now reviewer request = record request {
  status = approved;
  reviewed_by_user_id = some reviewer;
  reviewed_at = some now;
  rejection_reason = none;
  approved_place_id = some uuid;
}

abbrev pub rejected_request : ℕ → String → String → RegistrationRequest → RegistrationRequest
rejected_request now reviewer reason request = record request {
  status = rejected;
  reviewed_by_user_id = some reviewer;
  reviewed_at = some now;
  rejection_reason = some (trim reason);
}

module _ {S : Type 0} (places : PlaceWorld S) (world : RegistrationWorld S) where
  unfoldable pub find_pending : String → Method S RegistrationRequest
  find_pending request_id = do
    s ← get
    request ←
        or_throw (resource_not_found "place_registration_request_not_found")
          (open_only (world.find_request request_id s))
    reject_if (not (is_pending request.status))
        (registration_request_invalid_state "place_registration_request_not_pending")
    pure request

  -- `ApprovePlaceRegistrationRequestUseCase.execute`
  unfoldable pub approve_request : String → ℕ → String → String → Method S (String × String)
  unfolding find_pending place_of to_persistence
  approve_request uuid now request_id reviewer = do
    request ← find_pending request_id
    s ← get
    reject_if (not (world.partner_exists request.partner_id s))
        (resource_not_found "partner_not_found")
    modify (places.save_row (to_persistence (place_of uuid request) none))
    modify (world.save_request (approved_request uuid now reviewer request))
    modify (places.publish (place_of uuid request).pending_events)
    modify (world.notify_place_approved request.requester_user_id uuid)
    pure (request.id, uuid)

  -- `RejectPlaceRegistrationRequestUseCase.execute`
  unfoldable pub reject_request : ℕ → String → String → String → Method S (Unit {0})
  unfolding find_pending
  reject_request now request_id reviewer reason = do
    request ← find_pending request_id
    modify (world.save_request (rejected_request now reviewer reason request))
    modify (world.notify_place_rejected request.requester_user_id request.id (trim reason))
