-- ===== src/Place/Management/Entities.antt =====
-- modules/place/management/domain: the snapshot of a place, who acts on it, the input of an update
-- and the events. A field that may be null or undefined is an `Option`; a JSON value is its text,
-- since the code carries it and never looks into it; a date is its number of milliseconds. An
-- event has its fields without the identifier and the time that its metadata take from outside.
use recommendation_trip_plat.Base.{ℕ, String, Option, List}

pub data PlaceStatus : Type 0 where
  draft pending_review approved rejected : PlaceStatus

pub data PlaceDataSource : Type 0 where
  partner_created csv_seed : PlaceDataSource

pub data DeletionActorRole : Type 0 where
  owner admin : DeletionActorRole

pub record Place : Type 0 where
  pub id : String
  pub name : String
  pub description : Option String
  pub address : String
  pub lat : String
  pub lng : String
  pub category_id : String
  pub partner_id : String
  pub destination_id : Option String
  pub status : PlaceStatus
  pub rejection_reason : Option String
  pub opening_hours : Option String
  pub image_urls : Option (List String)
  pub thumbnail_url : Option String
  pub google_place_id : Option String
  pub tag_scores : Option String
  pub data_source : PlaceDataSource
  pub import_batch_id : Option String
  pub deleted_reason : Option String
  pub deleted_by_user_id : Option String
  pub deleted_by_role : Option DeletionActorRole
  pub deleted_at : Option ℕ

pub record PlaceActorContext : Type 0 where
  pub user_id : String
  pub permissions : List String
  pub partner_id : Option String

-- The input of `create`.
pub record CreatePlaceInput : Type 0 where
  pub id : String
  pub name : String
  pub description : Option String
  pub address : String
  pub lat : String
  pub lng : String
  pub category_id : String
  pub partner_id : String
  pub destination_id : Option String
  pub opening_hours : Option String
  pub image_urls : Option (List String)
  pub thumbnail_url : Option String

-- A field that may be null and undefined is an `Option` twice.
pub record UpdatePlaceInput : Type 0 where
  pub name : Option String
  pub description : Option (Option String)
  pub address : Option String
  pub lat : Option String
  pub lng : Option String
  pub category_id : Option String
  pub destination_id : Option (Option String)
  pub opening_hours : Option (Option String)
  pub image_urls : Option (Option (List String))
  pub thumbnail_url : Option (Option String)
  pub google_place_id : Option (Option String)
  pub tag_scores : Option (Option String)

-- The place, the acting user and the partner, and the reason where the event has one; for a
-- registration request the request, the requester and the name of the place.
pub data PlaceEvent : Type 0 where
  place_registration_request_submitted : String → String → String → PlaceEvent
  place_submitted place_approved : String → String → String → PlaceEvent
  place_rejected : String → String → String → String → PlaceEvent
  place_deleted_by_owner : String → String → String → PlaceEvent
  place_deleted_by_admin : String → String → String → String → PlaceEvent
  place_restored_by_owner place_restored_by_admin : String → String → String → PlaceEvent
