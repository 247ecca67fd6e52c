-- ===== src/Place/Management/UseCases/Requests.antt =====
-- The use cases that change a place as one type of requests.
use recommendation_trip_plat.Base.{Method, ℕ, String, ◌≡◌, false, Option, none, some, List, [], ◌∷◌}
use recommendation_trip_plat.Place.Management.UseCases.{
  in_memory, load, call, publish_events, is_missing,
}
use recommendation_trip_plat.Place.Management.Storage.{
  PlaceRow, OutboxRow, Moment, projection_row, PlaceWorld,
}
use recommendation_trip_plat.Place.Management.Entities.{PlaceActorContext, UpdatePlaceInput}
use recommendation_trip_plat.Place.Management.UseCases
use recommendation_trip_plat.Place.Management.Workflow
use recommendation_trip_plat.Place.Management.Workflow.{Command, run, command-Follows, Follows}

pub data Request : Type 0 where
  submit_place : Request
  update_place : UpdatePlaceInput → Request
  delete_own_place : Request
  delete_place_by_admin : (reason : String) → Request
  restore_own_place restore_place_by_admin : Request

-- The operation of the aggregate that a request asks for.
unfoldable pub command_of : Request → Command
command_of submit_place = Workflow.submit_for_review
command_of (update_place input) = Workflow.update input
command_of delete_own_place = Workflow.delete_by_owner
command_of (delete_place_by_admin reason) = Workflow.delete_by_admin reason
command_of restore_own_place = Workflow.restore_by_owner
command_of restore_place_by_admin = Workflow.restore_by_admin

-- The time of the deletion after a request.
abbrev pub deleted_at_after : Request → ℕ → Option ℕ → Option ℕ
deleted_at_after submit_place now old = old
deleted_at_after (update_place input) now old = old
deleted_at_after delete_own_place now old = some now
deleted_at_after (delete_place_by_admin reason) now old = some now
deleted_at_after restore_own_place now old = none
deleted_at_after restore_place_by_admin now old = none

-- The outbox rows of a request that saves `row`: one for the save, and one more for what changes
-- the time of the deletion.
abbrev pub rows_of : Request → Moment → Moment → PlaceRow → String → List OutboxRow
rows_of submit_place m n row key = projection_row m row key ∷ []
rows_of (update_place input) m n row key = projection_row m row key ∷ []
rows_of request m n row key =
    projection_row m row key
    ∷ projection_row n (record row { deleted_at = deleted_at_after request n.now row.deleted_at })
        key
    ∷ []

module _ {S : Type 0} (world : PlaceWorld S) (key : String) where
  unfoldable pub handle :
      Request → Moment → Moment → String → PlaceActorContext → Method S (Unit {0})
  handle submit_place m n id actor = UseCases.submit_place world key m id actor
  handle (update_place input) m n id actor = UseCases.update_place world key m id actor input
  handle delete_own_place m n id actor = UseCases.delete_own_place world key m n id actor
  handle (delete_place_by_admin reason) m n id actor =
      UseCases.delete_place_by_admin world key m n id reason actor
  handle restore_own_place m n id actor = UseCases.restore_own_place world key m n id actor
  handle restore_place_by_admin m n id actor =
      UseCases.restore_place_by_admin world key m n id actor

  -- The destination that an update names exists.
  abbrev pub DestinationExists : Request → S → Type 0
  DestinationExists (update_place input) s = is_missing world key input.destination_id s ≡ false
  DestinationExists _ s = Unit
