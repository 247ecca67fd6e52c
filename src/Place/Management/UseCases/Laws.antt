-- ===== src/Place/Management/UseCases/Laws.antt =====
-- The use cases that change a place: each refines its operation of the aggregate.
use recommendation_trip_plat.Base.{
  Outcome, Method, modify, continue, ◌>>◌, or_throw, String, ◌≡◌, refl, ap, subst, ◌∙◌, none, some,
  List, [], ◌∷◌, resource_not_found, done, fail,
}
use recommendation_trip_plat.Place.Management.UseCases.{
  in_memory, load, call, publish_events, is_missing,
}
use recommendation_trip_plat.Place.Management.Storage.{
  aggregate_of, PlaceRow, OutboxRow, Moment, projection_row, to_domain, to_persistence, PlaceWorld,
  find_by_id, save, soft_delete, restore,
}
use mathlib.Core.List.{append-nil}
use recommendation_trip_plat.Place.Management.Entities.{PlaceActorContext, PlaceEvent}
use recommendation_trip_plat.Place.Management.Storage.Laws.{
  PlaceWorldLaws, Change, Change-trans, save-Change, soft_delete-Change, restore-Change,
  publish-Change,
}
use recommendation_trip_plat.Place.Management.UseCases
use recommendation_trip_plat.Place.Management.Aggregate.{PlaceAggregate}
use recommendation_trip_plat.Place.Management.Workflow.{Command, run, command-Follows, Follows}
use recommendation_trip_plat.Place.Management.UseCases.Requests.{
  Request, command_of, deleted_at_after, rows_of, handle, DestinationExists, submit_place,
  update_place, delete_own_place, delete_place_by_admin, restore_own_place, restore_place_by_admin,
}

module _ {S : Type 0} (world : PlaceWorld S) (laws : PlaceWorldLaws world) (key : String) where
  -- What a request does to the stored row of its place, given what its operation does.
  abbrev pub Implements :
      Request
      → Moment
      → Moment
      → String
      → PlaceRow
      → S
      → Outcome PlaceAggregate (Unit {0})
      → Outcome S (Unit {0})
      → Type 0
  Implements request m n id row s (fail e b) o = o ≡ fail e s
  Implements request m n id row s (done _ b) o =
      let saved = to_persistence b (some row) in
      (u : S) × (o ≡ done tt u)
      × Change world laws key id
          (record saved { deleted_at = deleted_at_after request n.now row.deleted_at })
          (rows_of request m n saved key) b.pending_events s u

  pub load-found :
      (id : String) (s : S) (row : PlaceRow)
      → world.find_one id s ≡ some row
      → load world key id s ≡ done (to_domain row) s
  unfolding load find_by_id aggregate_of
  load-found id s row h =
      ap (λ o. or_throw (resource_not_found "place_not_found") (aggregate_of o) s) h

  pub load-missing :
      (id : String) (s : S)
      → world.find_one id s ≡ none
      → load world key id s ≡ fail (resource_not_found "place_not_found") s
  unfolding load find_by_id aggregate_of
  load-missing id s h =
      ap (λ o. or_throw (resource_not_found "place_not_found") (aggregate_of o) s) h

  run-same_id :
      (c : Command) (actor : PlaceActorContext) (a b : PlaceAggregate)
      → run c actor a ≡ done tt b
      → b.snapshot.id ≡ a.snapshot.id
  run-same_id c actor a b h = (subst (Follows c actor a) h (command-Follows c actor a)).2.0

  saved-Change :
      (m : Moment) (id : String) (row : PlaceRow) (s : S) (b : PlaceAggregate)
      → world.find_one id s ≡ some row
      → b.snapshot.id ≡ id
      → Change world laws key id
          (to_persistence b (some row))
          (projection_row m (to_persistence b (some row)) key ∷ [])
          []
          s
          (save world m key b s)
  saved-Change m id row s b h e =
      subst
        (λ i.
          Change world laws key i (to_persistence b (some row))
            (projection_row m (to_persistence b (some row)) key ∷ []) [] s (save world m key b s))
        e (save-Change world laws key m b row s (rw e h))

  published-Change :
      (id : String) (row : PlaceRow) (rows : List OutboxRow) (es : List PlaceEvent) (s u : S)
      → Change world laws key id row rows [] s u
      → Change world laws key id row rows es s (world.publish es u)
  published-Change id row rows es s u c =
      subst (λ xs. Change world laws key id row xs es s (world.publish es u)) (append-nil rows)
        (Change-trans world laws key id row row rows [] [] es s u (world.publish es u) c
          (publish-Change world laws key id row es u c.found))

  Saves :
      Request
      → Moment
      → Moment
      → String
      → PlaceRow
      → S
      → PlaceAggregate
      → Outcome S (Unit {0})
      → Type 0
  Saves request m n id row s b o = Implements request m n id row s (done tt b) o

  stored-Implements :
      (request : Request) (m n : Moment) (id : String) (actor : PlaceActorContext) (s : S)
      (row : PlaceRow) (rest : PlaceAggregate → Method S (Unit {0}))
      → world.find_one id s ≡ some row
      → ((b : PlaceAggregate) → b.snapshot.id ≡ id → Saves request m n id row s b (rest b s))
      → Implements request m n id row s
          (run (command_of request) actor (to_domain row))
          (continue rest (in_memory world key s (run (command_of request) actor (to_domain row))))
  unfolding Saves to_domain
  stored-Implements request m n id actor s row rest h k =
      go (run (command_of request) actor (to_domain row)) (λ b p.
        run-same_id (command_of request) actor (to_domain row) b p ∙ laws.found_id id s row h)
    where
      go :
          (o : Outcome PlaceAggregate (Unit {0}))
          → ((b : PlaceAggregate) → o ≡ done tt b → b.snapshot.id ≡ id)
          → Implements request m n id row s o (continue rest (in_memory world key s o))
      go (done _ b) same = k b (same b refl)
      go (fail e b) same = refl

  deleted-Change :
      (m n : Moment) (id : String) (row : PlaceRow) (s : S) (b : PlaceAggregate)
      → world.find_one id s ≡ some row
      → b.snapshot.id ≡ id
      → let saved = to_persistence b (some row) in
        let gone : PlaceRow = record saved { deleted_at = some n.now } in
        Change world laws key id gone
          (projection_row m saved key ∷ projection_row n gone key ∷ [])
          []
          s
          (soft_delete world n key id (save world m key b s))
  deleted-Change m n id row s b h same =
      let saved = to_persistence b (some row) in
      let gone : PlaceRow = record saved { deleted_at = some n.now } in
      let c = saved-Change m id row s b h same in
      let t = save world m key b s in
      Change-trans world laws key id saved gone (projection_row m saved key ∷ [])
        (projection_row n gone key ∷ []) [] [] s t (soft_delete world n key id t) c
        (soft_delete-Change world laws key n id saved t c.found)

  restored-Change :
      (m n : Moment) (id : String) (row : PlaceRow) (s : S) (b : PlaceAggregate)
      → world.find_one id s ≡ some row
      → b.snapshot.id ≡ id
      → let saved = to_persistence b (some row) in
        let back : PlaceRow = record saved { deleted_at = none } in
        Change world laws key id back
          (projection_row m saved key ∷ projection_row n back key ∷ [])
          []
          s
          (restore world n key id (save world m key b s))
  restored-Change m n id row s b h same =
      let saved = to_persistence b (some row) in
      let back : PlaceRow = record saved { deleted_at = none } in
      let c = saved-Change m id row s b h same in
      let t = save world m key b s in
      Change-trans world laws key id saved back (projection_row m saved key ∷ [])
        (projection_row n back key ∷ []) [] [] s t (restore world n key id t) c
        (restore-Change world laws key n id saved t c.found)

  -- What a request publishes over what it stores.
  publishing :
      (request : Request) (m n : Moment) (id : String) (row : PlaceRow) (s : S) (b : PlaceAggregate)
      (t : S)
      → Change world laws key id
          (record (to_persistence b (some row)) {
            deleted_at = deleted_at_after request n.now row.deleted_at;
          })
          (rows_of request m n (to_persistence b (some row)) key)
          []
          s
          t
      → Saves request m n id row s b (publish_events world key b t)
  unfolding Saves publish_events
  publishing request m n id row s b t c = (
    world.publish b.pending_events t,
    refl,
    published-Change id
        (record (to_persistence b (some row)) {
          deleted_at = deleted_at_after request n.now row.deleted_at;
        })
        (rows_of request m n (to_persistence b (some row)) key) b.pending_events s t c,
  )

  -- The same by the mapper and the projection of the code.
  pub request-Implements :
      (request : Request) (m n : Moment) (id : String) (actor : PlaceActorContext) (s : S)
      (row : PlaceRow)
      → world.find_one id s ≡ some row
      → DestinationExists world key request s
      → Implements request m n id row s
          (run (command_of request) actor (to_domain row))
          (handle world key request m n id actor s)
  unfolding handle UseCases.submit_place UseCases.update_place UseCases.delete_own_place
      UseCases.delete_place_by_admin UseCases.restore_own_place UseCases.restore_place_by_admin call
      run command_of to_persistence
  request-Implements submit_place m n id actor s row h d = rw (load-found id s row h) (
      stored-Implements submit_place m n id actor s row
        (λ b. modify (save world m key b) >> publish_events world key b) h
        λ b same.
          publishing submit_place m n id row s b (save world m key b s)
            (saved-Change m id row s b h same))
  request-Implements (update_place input) m n id actor s row h d = rw (load-found id s row h) (
      rw d (
        stored-Implements (update_place input) m n id actor s row
          (λ b. modify (save world m key b) >> publish_events world key b) h
          λ b same.
            publishing (update_place input) m n id row s b (save world m key b s)
              (saved-Change m id row s b h same)))
  request-Implements delete_own_place m n id actor s row h d = rw (load-found id s row h) (
      stored-Implements delete_own_place m n id actor s row
        (λ b.
          modify (save world m key b)
          >> (modify (soft_delete world n key id) >> publish_events world key b))
        h
        λ b same.
          publishing delete_own_place m n id row s b
            (soft_delete world n key id (save world m key b s))
            (deleted-Change m n id row s b h same))
  request-Implements (delete_place_by_admin reason) m n id actor s row h d =
      rw (load-found id s row h) (
        stored-Implements (delete_place_by_admin reason) m n id actor s row
          (λ b.
            modify (save world m key b)
            >> (modify (soft_delete world n key id) >> publish_events world key b))
          h
          λ b same.
            publishing (delete_place_by_admin reason) m n id row s b
              (soft_delete world n key id (save world m key b s))
              (deleted-Change m n id row s b h same))
  request-Implements restore_own_place m n id actor s row h d = rw (load-found id s row h) (
      stored-Implements restore_own_place m n id actor s row
        (λ b.
          modify (save world m key b)
          >> (modify (restore world n key id) >> publish_events world key b))
        h
        λ b same.
          publishing restore_own_place m n id row s b
            (restore world n key id (save world m key b s)) (restored-Change m n id row s b h same))
  request-Implements restore_place_by_admin m n id actor s row h d = rw (load-found id s row h) (
      stored-Implements restore_place_by_admin m n id actor s row
        (λ b.
          modify (save world m key b)
          >> (modify (restore world n key id) >> publish_events world key b))
        h
        λ b same.
          publishing restore_place_by_admin m n id row s b
            (restore world n key id (save world m key b s)) (restored-Change m n id row s b h same))
