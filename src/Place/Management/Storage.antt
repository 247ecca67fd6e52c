-- ===== src/Place/Management/Storage.antt =====
-- modules/place/management/infrastructure/persistence: the row of a place, the mapper between rows
-- and aggregates, and the repository, with messaging/place-ml-outbox-writer.service.ts, by which
-- every change of a row puts a projection of it into the outbox. The columns that this code does
-- not read are left out. The database is an argument.
pub mod Laws
use recommendation_trip_plat.Base.{
  if◌then◌else◌, is_some, ℕ, String, Bool, Option, none, some, List,
}
use recommendation_trip_plat.Place.Management.Entities.{
  PlaceStatus, PlaceDataSource, DeletionActorRole, PlaceEvent,
}
use recommendation_trip_plat.Place.Management.Aggregate.{PlaceAggregate, reconstitute}

-- place.orm-entity.ts
pub record PlaceRow : Type 0 where
  pub id : String
  pub name : String
  pub description : Option String
  pub address : String
  pub lat : String
  pub lng : String
  pub opening_hours : Option String
  pub image_urls : Option (List String)
  pub thumbnail_url : Option String
  pub status : PlaceStatus
  pub rejection_reason : Option String
  pub average_rating : Option String
  pub review_count : ℕ
  pub google_place_id : Option String
  pub tag_scores : Option String
  pub destination_id : Option String
  pub data_source : PlaceDataSource
  pub import_batch_id : Option String
  pub deleted_reason : Option String
  pub deleted_by_user_id : Option String
  pub deleted_by_role : Option DeletionActorRole
  pub partner_id : String
  pub category_id : String
  pub deleted_at : Option ℕ

-- place-ml-outbox.orm-entity.ts
pub data OutboxStatus : Type 0 where
  pending processing published failed : OutboxStatus

-- The numbers that the code reads from the texts of the two coordinates stay those texts.
pub record PlaceProjection : Type 0 where
  pub id : String
  pub lat : String
  pub lng : String
  pub category_id : String
  pub destination_id : Option String
  pub average_rating : Option String
  pub review_count : ℕ
  pub catalog_status : PlaceStatus
  pub tag_scores : Option String
  pub deleted_at : Option ℕ

pub record ProjectionPayload : Type 0 where
  pub schema_version : ℕ
  pub event_id : String
  pub event_type : String
  pub occurred_at : ℕ
  pub place : PlaceProjection

pub record OutboxRow : Type 0 where
  pub id : String
  pub created_at : ℕ
  pub aggregate_type : String
  pub aggregate_id : String
  pub event_id : String
  pub event_type : String
  pub routing_key : String
  pub payload : ProjectionPayload
  pub status : OutboxStatus
  pub published_at : Option ℕ
  pub last_error : Option String
  pub attempt_count : ℕ

-- What a transaction takes from outside: the identifier that the database gives to the outbox row,
-- the one that `randomUUID` gives to the event, and the time.
pub record Moment : Type 0 where
  pub row_id : String
  pub event_id : String
  pub now : ℕ

abbrev pub place_ml_aggregate_type : String
place_ml_aggregate_type = "PLACE"

abbrev pub place_ml_projection_schema_version : ℕ
place_ml_projection_schema_version = 1

abbrev pub place_ml_projection_event_type : String
place_ml_projection_event_type = "place.projection.v1"

unfoldable pub build_projection_payload : Moment → PlaceRow → ProjectionPayload
build_projection_payload m place = record {
  schema_version = place_ml_projection_schema_version;
  event_id = m.event_id;
  event_type = place_ml_projection_event_type;
  occurred_at = m.now;
  place = record {
    id = place.id;
    lat = place.lat;
    lng = place.lng;
    category_id = place.category_id;
    destination_id = place.destination_id;
    average_rating = place.average_rating;
    review_count = place.review_count;
    catalog_status = place.status;
    tag_scores = place.tag_scores;
    deleted_at = place.deleted_at;
  };
}

-- The row that `enqueueProjectionFromPlace` inserts.
unfoldable pub projection_row : Moment → PlaceRow → String → OutboxRow
unfolding build_projection_payload
projection_row m place routing_key = record {
  id = m.row_id;
  created_at = m.now;
  aggregate_type = place_ml_aggregate_type;
  aggregate_id = place.id;
  event_id = (build_projection_payload m place).event_id;
  event_type = place_ml_projection_event_type;
  routing_key = routing_key;
  payload = build_projection_payload m place;
  status = pending;
  published_at = none;
  last_error = none;
  attempt_count = 0;
}

unfoldable pub to_domain : PlaceRow → PlaceAggregate
to_domain row = reconstitute (record {
  id = row.id;
  name = row.name;
  description = row.description;
  address = row.address;
  lat = row.lat;
  lng = row.lng;
  category_id = row.category_id;
  partner_id = row.partner_id;
  destination_id = row.destination_id;
  status = row.status;
  rejection_reason = row.rejection_reason;
  opening_hours = row.opening_hours;
  image_urls = row.image_urls;
  thumbnail_url = row.thumbnail_url;
  google_place_id = row.google_place_id;
  tag_scores = row.tag_scores;
  data_source = row.data_source;
  import_batch_id = row.import_batch_id;
  deleted_reason = row.deleted_reason;
  deleted_by_user_id = row.deleted_by_user_id;
  deleted_by_role = row.deleted_by_role;
  deleted_at = row.deleted_at;
})

-- The columns that `toPersistence` leaves alone are those of the target; a new row has none, no
-- reviews by its default, and is not deleted.
unfoldable pub to_persistence : PlaceAggregate → Option PlaceRow → PlaceRow
to_persistence a target =
    let p = a.snapshot in
    record {
      id = p.id;
      name = p.name;
      description = p.description;
      address = p.address;
      lat = p.lat;
      lng = p.lng;
      category_id = p.category_id;
      partner_id = p.partner_id;
      destination_id = p.destination_id;
      status = p.status;
      rejection_reason = p.rejection_reason;
      opening_hours = p.opening_hours;
      image_urls = p.image_urls;
      thumbnail_url = p.thumbnail_url;
      google_place_id = p.google_place_id;
      tag_scores = p.tag_scores;
      data_source = p.data_source;
      import_batch_id = p.import_batch_id;
      deleted_reason = p.deleted_reason;
      deleted_by_user_id = p.deleted_by_user_id;
      deleted_by_role = p.deleted_by_role;
      average_rating = elim target [ none ↦ none | some row ↦ row.average_rating ];
      review_count = elim target [ none ↦ 0 | some row ↦ row.review_count ];
      deleted_at = elim target [ none ↦ none | some row ↦ row.deleted_at ];
    }

-- What the repository and the use cases ask of the database and of the event bus, over a state `S`
-- of the world. `find_one` also finds rows that are deleted softly.
pub record PlaceWorld (S : Type 0) : Type 0 where
  pub find_one : String → S → Option PlaceRow
  pub save_row : PlaceRow → S → S
  pub soft_delete_row : ℕ → String → S → S
  pub restore_row : String → S → S
  pub save_outbox : OutboxRow → S → S
  pub destination_exists : String → S → Bool
  pub publish : List PlaceEvent → S → S

unfoldable pub aggregate_of : Option PlaceRow → Option PlaceAggregate
unfolding to_domain
aggregate_of none = none
aggregate_of (some row) = some (to_domain row)

module _ {S : Type 0} (world : PlaceWorld S) where
  unfoldable pub open_row : Option PlaceRow → Option PlaceRow
  open_row none = none
  open_row (some row) = if is_some row.deleted_at then none else some row

  unfoldable pub enqueue : Moment → String → Option PlaceRow → S → S
  unfolding projection_row
  enqueue m routing_key none s = s
  enqueue m routing_key (some row) s = world.save_outbox (projection_row m row routing_key) s

  unfoldable pub find_by_id : String → S → Option PlaceAggregate
  find_by_id id s = aggregate_of (world.find_one id s)

  unfoldable pub save : Moment → String → PlaceAggregate → S → S
  unfolding to_persistence enqueue
  save m routing_key a s =
      let entity = to_persistence a (world.find_one a.snapshot.id s) in
      let s₁ = world.save_row entity s in enqueue m routing_key (world.find_one entity.id s₁) s₁

  unfoldable pub soft_delete : Moment → String → String → S → S
  unfolding enqueue
  soft_delete m routing_key id s =
      let s₁ = world.soft_delete_row m.now id s in enqueue m routing_key (world.find_one id s₁) s₁

  unfoldable pub restore : Moment → String → String → S → S
  unfolding enqueue open_row
  restore m routing_key id s =
      let s₁ = world.restore_row id s in enqueue m routing_key (open_row (world.find_one id s₁)) s₁
