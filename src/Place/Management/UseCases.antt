-- ===== src/Place/Management/UseCases.antt =====
-- modules/place/management/application/use-cases: each loads a place, runs an operation of the
-- aggregate, stores it and publishes the events.
pub mod Requests
pub mod Laws
pub mod Refinement
pub mod Consistency
use recommendation_trip_plat.Base.{
  Outcome, Method, pure, modify, get, ◌>>=◌, ◌>>◌, reject_if, or_throw, is_empty, String, Bool,
  false, not, ◌&&◌, Option, some, resource_not_found, done, fail,
}
use recommendation_trip_plat.Place.Management.Entities.{Place, PlaceActorContext, UpdatePlaceInput}
use recommendation_trip_plat.Place.Management.Aggregate.{PlaceAggregate, pull_events}
use recommendation_trip_plat.Place.Management.Aggregate
use recommendation_trip_plat.Place.Management.Storage.{
  PlaceWorld, Moment, find_by_id, save, soft_delete, restore,
}

module _ {S : Type 0} (world : PlaceWorld S) (routing_key : String) where
  -- `const place = await repository.findById(id); if (!place) throw ...`
  unfoldable pub load : String → Method S PlaceAggregate
  unfolding find_by_id
  load id s = or_throw (resource_not_found "place_not_found") (find_by_id world id s) s

  -- A call of a method of the aggregate in memory leaves the world as it is.
  abbrev pub in_memory : S → Outcome PlaceAggregate (Unit {0}) → Outcome S PlaceAggregate
  in_memory s (done x b) = done b s
  in_memory s (fail e b) = fail e s

  unfoldable pub call : Method PlaceAggregate (Unit {0}) → PlaceAggregate → Method S PlaceAggregate
  call method a s = in_memory s (method a)

  unfoldable pub publish_events : PlaceAggregate → Method S (Unit {0})
  publish_events a s = elim (pull_events a) [
    | done events b ↦ done tt (world.publish events s)
    | fail e b ↦ fail e s
  ]

  unfoldable pub submit_place : Moment → String → PlaceActorContext → Method S (Unit {0})
  unfolding load call publish_events save Aggregate.submit_for_review
  submit_place m place_id actor = do
    place ← load place_id
    place ← call (Aggregate.submit_for_review actor) place
    modify (save world m routing_key place)
    publish_events place

  unfoldable pub is_missing : Option (Option String) → S → Bool
  is_missing (some (some id)) s = not (is_empty id) && not (world.destination_exists id s)
  is_missing _ s = false

  unfoldable pub update_place :
      Moment → String → PlaceActorContext → UpdatePlaceInput → Method S (Unit {0})
  unfolding load call publish_events save Aggregate.update is_missing
  update_place m place_id actor input = do
    place ← load place_id
    s ← get
    reject_if (is_missing input.destination_id s) (resource_not_found "destination_not_found")
    place ← call (Aggregate.update actor input) place
    modify (save world m routing_key place)
    publish_events place

  unfoldable pub delete_own_place :
      Moment → Moment → String → PlaceActorContext → Method S (Unit {0})
  unfolding load call publish_events save soft_delete Aggregate.delete_by_owner
  delete_own_place m n place_id actor = do
    place ← load place_id
    place ← call (Aggregate.delete_by_owner actor) place
    modify (save world m routing_key place)
    modify (soft_delete world n routing_key place_id)
    publish_events place

  unfoldable pub delete_place_by_admin :
      Moment → Moment → String → String → PlaceActorContext → Method S (Unit {0})
  unfolding load call publish_events save soft_delete Aggregate.delete_by_admin
  delete_place_by_admin m n place_id reason actor = do
    place ← load place_id
    place ← call (Aggregate.delete_by_admin actor reason) place
    modify (save world m routing_key place)
    modify (soft_delete world n routing_key place_id)
    publish_events place

  unfoldable pub restore_own_place :
      Moment → Moment → String → PlaceActorContext → Method S (Unit {0})
  unfolding load call publish_events save restore Aggregate.restore_by_owner
  restore_own_place m n place_id actor = do
    place ← load place_id
    place ← call (Aggregate.restore_by_owner actor) place
    modify (save world m routing_key place)
    modify (restore world n routing_key place_id)
    publish_events place

  unfoldable pub restore_place_by_admin :
      Moment → Moment → String → PlaceActorContext → Method S (Unit {0})
  unfolding load call publish_events save restore Aggregate.restore_by_admin
  restore_place_by_admin m n place_id actor = do
    place ← load place_id
    place ← call (Aggregate.restore_by_admin actor) place
    modify (save world m routing_key place)
    modify (restore world n routing_key place_id)
    publish_events place

  unfoldable pub get_place : String → Method S Place
  unfolding load
  get_place place_id = do place ← load place_id; pure place.snapshot
