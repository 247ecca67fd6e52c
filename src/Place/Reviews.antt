-- ===== src/Place/Reviews.antt =====
-- modules/place/reviews: application/services/place-review.service.ts over the repository of
-- infrastructure/persistence, with its mapper, and shared/events/place-review.events.ts. The
-- database and the publisher are an argument; an event has its payload without the metadata.
pub mod Laws
pub mod Settling
pub mod Refinement
pub mod Unique
mod Tests
use Prim.Native.String
use recommendation_trip_plat.Base.{
  if◌then◌else◌, or_else, is_some, Method, pure, modify, get, ◌>>◌, reject_if, or_throw, ℕ, ◌+◌,
  ◌-◌, ◌/◌, String, Bool, false, not, Option, none, some, List, ◌++◌, ◌==◌, resource_not_found,
  review_forbidden, untyped_error, done, fail, ◌>>=◌,
}
use recommendation_trip_plat.Place.Management.Entities.{approved}
use recommendation_trip_plat.Place.Management.Storage.{PlaceRow}

-- place-review.orm-entity.ts, and the model that the mapper makes of it, which has the same fields.
pub record Review : Type 0 where
  pub id : String
  pub place_id : String
  pub user_id : String
  pub rating : ℕ
  pub comment : Option String
  pub image_urls : Option (List String)
  pub created_at : ℕ
  pub updated_at : ℕ
  pub deleted_at : Option ℕ

pub record UpsertReviewCommand : Type 0 where
  pub rating : ℕ
  pub comment : Option String
  pub image_urls : Option (List String)

pub record UpdateOwnReviewCommand : Type 0 where
  pub rating : Option ℕ
  pub comment : Option String
  pub image_urls : Option (List String)

pub record CreatePlaceReviewInput : Type 0 where
  pub place_id : String
  pub user_id : String
  pub rating : ℕ
  pub comment : Option String
  pub image_urls : Option (List String)

-- The review, the place, the user, and the rating: the old and the new one in an update.
pub data ReviewEvent : Type 0 where
  review_created : String → String → String → ℕ → ReviewEvent
  review_updated : String → String → String → ℕ → ℕ → ReviewEvent
  review_deleted : String → String → String → ℕ → ReviewEvent

-- What the repository and the service ask of the database and of the publisher. `find_row` and
-- `find_pair` also find rows that are deleted softly.
pub record ReviewWorld (S : Type 0) : Type 0 where
  pub find_place : String → S → Option PlaceRow
  pub find_row : String → S → Option Review
  pub find_pair : String → String → S → Option Review
  pub save_row : Review → S → S
  pub soft_delete_row : ℕ → String → S → S
  pub restore_row : String → S → S
  pub publish : ReviewEvent → S → S

unfoldable pub apply_model_to_orm : Review → Review → Review
apply_model_to_orm orm model = record orm {
  place_id = model.place_id;
  user_id = model.user_id;
  rating = model.rating;
  comment = model.comment;
  image_urls = model.image_urls;
}

-- `a ?? b` of two values that may be null.
abbrev pub first_of {ℓ} : {A : Type ℓ} → Option A → Option A → Option A
first_of none b = b
first_of (some a) b = some a

abbrev pub is_open : Review → Bool
is_open review = not (is_some review.deleted_at)

abbrev pub open_only : Option Review → Option Review
open_only none = none
open_only (some review) = if is_open review then some review else none

abbrev pub is_visible : Option PlaceRow → Bool
is_visible none = false
is_visible (some row) = elim row.status [ approved ↦ not (is_some row.deleted_at) | _ ↦ false ]

module _ {S : Type 0} (world : ReviewWorld S) where
  unfoldable pub exists_visible_place : String → S → Bool
  exists_visible_place place_id s = is_visible (world.find_place place_id s)

  -- `findById` without the flag.
  unfoldable pub find_by_id : String → S → Option Review
  find_by_id review_id s = open_only (world.find_row review_id s)

  -- `createReview`, with the identifier and the time that the database gives.
  unfoldable pub create_review : String → ℕ → CreatePlaceReviewInput → Method S Review
  create_review uuid now input s =
      let created : Review = record {
        id = uuid;
        place_id = input.place_id;
        user_id = input.user_id;
        rating = input.rating;
        comment = input.comment;
        image_urls = input.image_urls;
        created_at = now;
        updated_at = now;
        deleted_at = none;
      } in
      done created (world.save_row created s)

  abbrev pub save_found : ℕ → Review → Option Review → Method S Review
  unfolding apply_model_to_orm
  save_found now review none s =
      fail (untyped_error (String.◌++◌ "place_review_not_found:" review.id)) s
  save_found now review (some orm) s =
      let saved : Review = record (apply_model_to_orm orm review) { updated_at = now } in
      done saved (world.save_row saved s)

  unfoldable pub save_review : ℕ → Review → Method S Review
  save_review now review s = save_found now review (world.find_row review.id s) s

  abbrev pub created_event : Review → ReviewEvent
  created_event r = review_created r.id r.place_id r.user_id r.rating

  abbrev pub insert_review : String → ℕ → String → String → UpsertReviewCommand → Method S Review
  unfolding create_review
  insert_review uuid now place_id user_id command = do
    saved ← create_review uuid now (record {
      place_id = place_id;
      user_id = user_id;
      rating = command.rating;
      comment = command.comment;
      image_urls = command.image_urls;
    })
    modify (world.publish (created_event saved))
    pure saved

  abbrev pub revive_review : Review → Review → Method S Review
  unfolding find_by_id
  revive_review existing saved = do
    modify (world.restore_row existing.id)
    modify (world.publish (created_event saved))
    s ← get
    or_throw (resource_not_found "review_not_found") (find_by_id saved.id s)

  abbrev pub finish_overwrite : Review → Review → Method S Review
  finish_overwrite existing saved =
      if is_some existing.deleted_at
      then revive_review existing saved
      else (modify (
            world.publish
              (review_updated saved.id saved.place_id saved.user_id existing.rating saved.rating))
          >> pure saved)

  abbrev pub overwrite_review : ℕ → Review → UpsertReviewCommand → Method S Review
  unfolding save_review
  overwrite_review now existing command = do
    saved ← save_review now (record existing {
      rating = command.rating;
      comment = command.comment;
      image_urls = command.image_urls;
    })
    finish_overwrite existing saved

  abbrev pub upsert_found :
      String → ℕ → String → String → UpsertReviewCommand → Option Review → Method S Review
  upsert_found uuid now place_id user_id command none =
      insert_review uuid now place_id user_id command
  upsert_found uuid now place_id user_id command (some existing) =
      overwrite_review now existing command

  unfoldable pub upsert_review :
      String → ℕ → String → String → UpsertReviewCommand → Method S Review
  unfolding exists_visible_place
  upsert_review uuid now place_id user_id command = do
    s ← get
    reject_if (not (exists_visible_place place_id s)) (resource_not_found "place_not_found")
    upsert_found uuid now place_id user_id command (world.find_pair user_id place_id s)

  -- The review of a user, by its identifier.
  unfoldable pub own_review : String → String → Method S Review
  unfolding find_by_id
  own_review review_id user_id = do
    s ← get
    review ← or_throw (resource_not_found "review_not_found") (find_by_id review_id s)
    reject_if (not (review.user_id == user_id)) review_forbidden
    pure review

  unfoldable pub update_own_review : ℕ → String → String → UpdateOwnReviewCommand → Method S Review
  unfolding own_review save_review
  update_own_review now review_id user_id command = do
    review ← own_review review_id user_id
    saved ← save_review now (record review {
      rating = or_else command.rating review.rating;
      comment = first_of command.comment review.comment;
      image_urls = first_of command.image_urls review.image_urls;
    })
    modify (
        world.publish
          (review_updated saved.id saved.place_id saved.user_id review.rating saved.rating))
    pure saved

  -- `softDelete` and the event.
  abbrev pub remove_review : ℕ → String → Review → Method S (Unit {0})
  remove_review now review_id review = do
    modify (world.soft_delete_row now review_id)
    modify (world.publish (review_deleted review.id review.place_id review.user_id review.rating))

  unfoldable pub delete_review_by_admin : ℕ → String → Method S (Unit {0})
  unfolding find_by_id
  delete_review_by_admin now review_id = do
    s ← get
    review ← or_throw (resource_not_found "review_not_found") (find_by_id review_id s)
    remove_review now review_id review

  unfoldable pub restore_review_by_admin : String → Method S (Unit {0})
  restore_review_by_admin review_id = do
    s ← get
    _ ← or_throw (resource_not_found "review_not_found") (world.find_row review_id s)
    modify (world.restore_row review_id)

  unfoldable pub delete_own_review : ℕ → String → String → Method S (Unit {0})
  unfolding own_review
  delete_own_review now review_id user_id = do
    review ← own_review review_id user_id
    remove_review now review_id review
