-- ===== src/Place/Relay/Tests.antt =====
-- Runs of the relay over a table of three rows.
use recommendation_trip_plat.Base.{
  ℕ, String, ◌≡◌, refl, true, false, none, some, List, [], ◌∷◌, map,
}
use recommendation_trip_plat.Place.Management.Entities.{approved}
use recommendation_trip_plat.Place.Management.Storage.{
  OutboxStatus, OutboxRow, pending, processing, published,
}
use recommendation_trip_plat.Place.Relay.{
  Broker, Query, tick, claim_rows, claim_batch, reset_stale_processing, publish_rows, settle_row,
  mark_published, mark_publish_failure, returned, thrown,
}
use recommendation_trip_plat.Place.Relay.Driver.{no_row}

abbrev row : String → ℕ → OutboxStatus → OutboxRow
row id created_at status = record {
  id = id;
  created_at = created_at;
  aggregate_type = "PLACE";
  aggregate_id = "p1";
  event_id = id;
  event_type = "place.projection.v1";
  routing_key = "place.projection.v1";
  payload = record {
    schema_version = 1;
    event_id = id;
    event_type = "place.projection.v1";
    occurred_at = created_at;
    place = record {
      id = "p1";
      lat = "16.46";
      lng = "107.59";
      category_id = "food";
      destination_id = none;
      average_rating = none;
      review_count = 0;
      catalog_status = approved;
      tag_scores = none;
      deleted_at = none;
    };
  };
  status = status;
  published_at = none;
  last_error = none;
  attempt_count = 14;
}

-- One that is stuck, one that has been published and one that waits.
abbrev table : List OutboxRow
table = row "a" 0 processing ∷ row "b" 5 published ∷ row "c" 10 pending ∷ []

abbrev willing : Broker
willing = record { has_channel = true; answer = λ row. returned true; no_body = "no body" }

abbrev absent : Broker
absent = record { has_channel = false; answer = λ row. thrown "closed"; no_body = "no body" }

abbrev pair : Query
pair rows = no_row ∷ no_row ∷ []

-- What the cast of the code expects.
abbrev row_by_row : Query
row_by_row rows =
    map
      (λ (r : OutboxRow). record {
        id = some r.id;
        routing_key = some r.routing_key;
        payload = some r.payload;
      })
      rows

statuses : List OutboxRow → List OutboxStatus
statuses rows = map (λ (r : OutboxRow). r.status) rows

paired_run : statuses (tick pair 20 10 willing table) ≡ processing ∷ published ∷ processing ∷ []
unfolding statuses tick claim_batch claim_rows reset_stale_processing publish_rows settle_row
    mark_published mark_publish_failure
paired_run = refl

expected_run :
    statuses (tick row_by_row 20 10 willing table) ≡ processing ∷ published ∷ published ∷ []
unfolding statuses tick claim_batch claim_rows reset_stale_processing publish_rows settle_row
    mark_published mark_publish_failure
expected_run = refl
