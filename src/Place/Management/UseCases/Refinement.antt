-- ===== src/Place/Management/UseCases/Refinement.antt =====
-- What the use cases of a place promise, in columns: each refines its operation of the aggregate.
use recommendation_trip_plat.Base.{
  [], Option, String, ℕ, none, some, List, ◌∷◌, ◌≡◌, done, fail, Outcome,
}
use recommendation_trip_plat.Place.Management.Aggregate.{PlaceAggregate}
use recommendation_trip_plat.Place.Management.Storage.{
  PlaceRow, OutboxRow, Moment, PlaceWorld, pending,
}
use recommendation_trip_plat.Place.Management.Storage.Laws.{PlaceWorldLaws, Change}
use recommendation_trip_plat.Place.Management.UseCases.Requests.{
  Request, deleted_at_after, submit_place, update_place, delete_own_place, delete_place_by_admin,
  restore_own_place, restore_place_by_admin,
}

-- The aggregate that a row reads as: its columns, and no events.
abbrev pub read_row : PlaceRow → PlaceAggregate
read_row row = record {
  snapshot = record {
    id = row.id;
    name = row.name;
    description = row.description;
    address = row.address;
    lat = row.lat;
    lng = row.lng;
    category_id = row.category_id;
    partner_id = row.partner_id;
    destination_id = row.destination_id;
    status = row.status;
    rejection_reason = row.rejection_reason;
    opening_hours = row.opening_hours;
    image_urls = row.image_urls;
    thumbnail_url = row.thumbnail_url;
    google_place_id = row.google_place_id;
    tag_scores = row.tag_scores;
    data_source = row.data_source;
    import_batch_id = row.import_batch_id;
    deleted_reason = row.deleted_reason;
    deleted_by_user_id = row.deleted_by_user_id;
    deleted_by_role = row.deleted_by_role;
    deleted_at = row.deleted_at;
  };
  pending_events = [];
}

-- The row that holds an aggregate: the columns of the rating are those of the row before.
abbrev pub written : PlaceAggregate → PlaceRow → Option ℕ → PlaceRow
written a old deleted_at = record {
  id = a.snapshot.id;
  name = a.snapshot.name;
  description = a.snapshot.description;
  address = a.snapshot.address;
  lat = a.snapshot.lat;
  lng = a.snapshot.lng;
  category_id = a.snapshot.category_id;
  partner_id = a.snapshot.partner_id;
  destination_id = a.snapshot.destination_id;
  status = a.snapshot.status;
  rejection_reason = a.snapshot.rejection_reason;
  opening_hours = a.snapshot.opening_hours;
  image_urls = a.snapshot.image_urls;
  thumbnail_url = a.snapshot.thumbnail_url;
  google_place_id = a.snapshot.google_place_id;
  tag_scores = a.snapshot.tag_scores;
  data_source = a.snapshot.data_source;
  import_batch_id = a.snapshot.import_batch_id;
  deleted_reason = a.snapshot.deleted_reason;
  deleted_by_user_id = a.snapshot.deleted_by_user_id;
  deleted_by_role = a.snapshot.deleted_by_role;
  average_rating = old.average_rating;
  review_count = old.review_count;
  deleted_at = deleted_at;
}

-- The outbox row that tells of a row of a place.
abbrev pub projected : Moment → PlaceRow → String → OutboxRow
projected m row key = record {
  id = m.row_id;
  created_at = m.now;
  aggregate_type = "PLACE";
  aggregate_id = row.id;
  event_id = m.event_id;
  event_type = "place.projection.v1";
  routing_key = key;
  payload = record {
    schema_version = 1;
    event_id = m.event_id;
    event_type = "place.projection.v1";
    occurred_at = m.now;
    place = record {
      id = row.id;
      lat = row.lat;
      lng = row.lng;
      category_id = row.category_id;
      destination_id = row.destination_id;
      average_rating = row.average_rating;
      review_count = row.review_count;
      catalog_status = row.status;
      tag_scores = row.tag_scores;
      deleted_at = row.deleted_at;
    };
  };
  status = pending;
  published_at = none;
  last_error = none;
  attempt_count = 0;
}

-- One row for what a request saves, and one more where it then deletes or restores.
abbrev pub told : Request → Moment → Moment → PlaceAggregate → PlaceRow → String → List OutboxRow
told submit_place m n b row key = projected m (written b row row.deleted_at) key ∷ []
told (update_place input) m n b row key = projected m (written b row row.deleted_at) key ∷ []
told delete_own_place m n b row key =
    projected m (written b row row.deleted_at) key
    ∷ projected n (written b row (some n.now)) key
    ∷ []
told (delete_place_by_admin reason) m n b row key =
    projected m (written b row row.deleted_at) key
    ∷ projected n (written b row (some n.now)) key
    ∷ []
told restore_own_place m n b row key =
    projected m (written b row row.deleted_at) key ∷ projected n (written b row none) key ∷ []
told restore_place_by_admin m n b row key =
    projected m (written b row row.deleted_at) key ∷ projected n (written b row none) key ∷ []

module _ {S : Type 0} (world : PlaceWorld S) (laws : PlaceWorldLaws world) (key : String) where
  -- What a request does to the stored row of its place, given what its operation does.
  abbrev pub Refines :
      Request
      → Moment
      → Moment
      → String
      → PlaceRow
      → S
      → Outcome PlaceAggregate (Unit {0})
      → Outcome S (Unit {0})
      → Type 0
  Refines request m n id row s (fail e b) o = o ≡ fail e s
  Refines request m n id row s (done _ b) o =
      (u : S) × (o ≡ done tt u)
      × Change world laws key id (written b row (deleted_at_after request n.now row.deleted_at))
          (told request m n b row key) b.pending_events s u
