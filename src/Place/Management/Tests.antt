-- ===== src/Place/Management/Tests.antt =====
-- The aggregate of a place and its use cases over a database in memory.
use recommendation_trip_plat.Base.{
  after, Bool-cases, ◌≡◌, refl, subst, inl, inr, none, some, [], ◌∷◌, ◌==◌,
}
use recommendation_trip_plat.Place.Management.Entities.{draft, partner_created, PlaceActorContext}
use recommendation_trip_plat.Place.Management.Storage.{to_domain, PlaceRow, Moment}
use recommendation_trip_plat.Place.Management.UseCases.Consistency.{
  IsConsistent, AllConsistent, request-AllConsistent,
}
use recommendation_trip_plat.Place.Management.Workflow
use recommendation_trip_plat.Place.Management.Workflow.{Command, run, command-Follows, Follows}
use recommendation_trip_plat.Place.Management.UseCases.Requests
use recommendation_trip_plat.Place.Management.UseCases.Requests.{Request, handle}
use recommendation_trip_plat.Place.Memory.{Memory, memory, memory_laws}

abbrev cafe : PlaceRow
cafe = record {
  id = "p1";
  name = "Cafe";
  description = none;
  address = "1 Le Loi";
  lat = "16.46";
  lng = "107.59";
  opening_hours = none;
  image_urls = none;
  thumbnail_url = none;
  status = draft;
  rejection_reason = none;
  average_rating = none;
  review_count = 0;
  google_place_id = none;
  tag_scores = none;
  destination_id = some "hue";
  data_source = partner_created;
  import_batch_id = none;
  deleted_reason = none;
  deleted_by_user_id = none;
  deleted_by_role = none;
  partner_id = "ann";
  category_id = "food";
  deleted_at = none;
}

abbrev one_place : Memory
one_place = record { rows = cafe ∷ []; outbox = []; events = []; requests = [] }

abbrev ann : PlaceActorContext
ann = record { user_id = "u1"; permissions = []; partner_id = some "ann" }

abbrev moderator : PlaceActorContext
moderator = record {
  user_id = "u2";
  permissions = "places_admin:approve" ∷ "places_admin:delete" ∷ [];
  partner_id = none;
}

abbrev first : Moment
first = record { row_id = "o1"; event_id = "e1"; now = 1000 }

abbrev second : Moment
second = record { row_id = "o2"; event_id = "e2"; now = 2000 }

command-Follows_example :
    Follows
      (Workflow.reject " no photo ")
      moderator
      (to_domain cafe)
      (run (Workflow.reject " no photo ") moderator (to_domain cafe))
command-Follows_example = command-Follows (Workflow.reject " no photo ") moderator (to_domain cafe)

one_place-AllConsistent : AllConsistent memory memory_laws "place" one_place
unfolding AllConsistent
one_place-AllConsistent id row h = elim (Bool-cases ("p1" == id)) [
  | inl e ↦
      let q : some cafe ≡ some row = rw e at h in
      let same : cafe ≡ row = cc in subst IsConsistent same (refl, refl, refl)
  | inr e ↦ let q : none ≡ some row = rw e at h in cc
]

request-AllConsistent_example :
    AllConsistent memory memory_laws "place"
      (after (handle memory "place" Requests.delete_own_place first second "p1" ann one_place))
request-AllConsistent_example =
    request-AllConsistent memory memory_laws "place" Requests.delete_own_place first second "p1" ann
      one_place one_place-AllConsistent
