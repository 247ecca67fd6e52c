-- ===== src/Place/Management/UseCases/Consistency.antt =====
-- The marks of a deletion under the use cases that change a place.
use recommendation_trip_plat.Base.{
  inr, inl, ◌==◌, sym, ◌⊎◌, after, true, eq_iff, is_some, Option-cases, Bool-cases, Outcome, ℕ,
  String, ◌≡◌, refl, ap, subst, ◌∙◌, none, some, resource_not_found, done, fail,
}
use recommendation_trip_plat.Place.Management.UseCases.{
  in_memory, load, call, publish_events, is_missing,
}
use recommendation_trip_plat.Place.Management.Storage.{
  PlaceRow, Moment, to_domain, to_persistence, PlaceWorld,
}
use recommendation_trip_plat.Place.Management.Entities.{PlaceActorContext, UpdatePlaceInput}
use recommendation_trip_plat.Place.Management.Storage.Laws.{PlaceWorldLaws}
use recommendation_trip_plat.Place.Management.UseCases
use recommendation_trip_plat.Place.Management.Aggregate.{PlaceAggregate}
use recommendation_trip_plat.Place.Management.Workflow.{run, command-Follows, Follows}
use recommendation_trip_plat.Place.Management.UseCases.Requests.{
  Request, command_of, deleted_at_after, handle, DestinationExists, submit_place, update_place,
  delete_own_place, delete_place_by_admin, restore_own_place, restore_place_by_admin,
}
use recommendation_trip_plat.Place.Management.UseCases.Laws.{
  Implements, load-found, load-missing, request-Implements,
}

-- A row has the marks of a deletion exactly while it is deleted.
abbrev pub IsConsistent : PlaceRow → Type 0
IsConsistent row =
    (is_some row.deleted_by_role ≡ is_some row.deleted_at)
    × (is_some row.deleted_by_user_id ≡ is_some row.deleted_at)
    × (is_some row.deleted_reason ≡ is_some row.deleted_at)

module _ {S : Type 0} (world : PlaceWorld S) (laws : PlaceWorldLaws world) (key : String) where
  -- A request for a place that is not stored throws and changes nothing.
  handle_missing :
      (request : Request) (m n : Moment) (id : String) (actor : PlaceActorContext) (s : S)
      → world.find_one id s ≡ none
      → handle world key request m n id actor s ≡ fail (resource_not_found "place_not_found") s
  unfolding handle UseCases.submit_place UseCases.update_place UseCases.delete_own_place
      UseCases.delete_place_by_admin UseCases.restore_own_place UseCases.restore_place_by_admin
  handle_missing submit_place m n id actor s h = rw (load-missing world laws key id s h)
  handle_missing (update_place input) m n id actor s h = rw (load-missing world laws key id s h)
  handle_missing delete_own_place m n id actor s h = rw (load-missing world laws key id s h)
  handle_missing (delete_place_by_admin reason) m n id actor s h =
      rw (load-missing world laws key id s h)
  handle_missing restore_own_place m n id actor s h = rw (load-missing world laws key id s h)
  handle_missing restore_place_by_admin m n id actor s h = rw (load-missing world laws key id s h)

  -- An update that names a destination that does not exist.
  update_nowhere :
      (input : UpdatePlaceInput) (m n : Moment) (id : String) (actor : PlaceActorContext) (s : S)
      (row : PlaceRow)
      → world.find_one id s ≡ some row
      → is_missing world key input.destination_id s ≡ true
      → handle world key (update_place input) m n id actor s
        ≡ fail (resource_not_found "destination_not_found") s
  unfolding handle UseCases.update_place
  update_nowhere input m n id actor s row h d = rw (load-found world laws key id s row h) (rw d)

  -- A property of every stored row, and that a request can only break it at the row it writes.
  abbrev pub AllRows : (PlaceRow → Type 0) → S → Type 0
  AllRows P s = (id : String) (row : PlaceRow) → world.find_one id s ≡ some row → P row

  abbrev pub Carries : (PlaceRow → Type 0) → Request → ℕ → PlaceActorContext → Type 0
  Carries P request now actor =
      (row : PlaceRow) (b : PlaceAggregate)
      → Follows (command_of request) actor (to_domain row) (done tt b)
      → P row
      → P (record (to_persistence b (some row)) {
        deleted_at = deleted_at_after request now row.deleted_at;
      })

  unfoldable pub AllConsistent : S → Type 0
  AllConsistent s = AllRows IsConsistent s

  run-IsConsistent :
      (request : Request) (now : ℕ) (actor : PlaceActorContext) (row : PlaceRow)
      (b : PlaceAggregate)
      → Follows (command_of request) actor (to_domain row) (done tt b)
      → IsConsistent row
      → IsConsistent (record (to_persistence b (some row)) {
        deleted_at = deleted_at_after request now row.deleted_at;
      })
  unfolding to_domain to_persistence command_of
  run-IsConsistent submit_place now actor row b (_, (r, u, d), _, _) c = rw (r, u, d) c
  run-IsConsistent (update_place input) now actor row b (_, (r, u, d), _, _) c = rw (r, u, d) c
  run-IsConsistent delete_own_place now actor row b (_, (r, u, d), _, _) c =
      rw (r, u, d) (refl, refl, refl)
  run-IsConsistent (delete_place_by_admin reason) now actor row b (_, (r, u, d), _, _) c =
      rw (r, u, d) (refl, refl, refl)
  run-IsConsistent restore_own_place now actor row b (_, (r, u, d), _, _) c =
      rw (r, u, d) (refl, refl, refl)
  run-IsConsistent restore_place_by_admin now actor row b (_, (r, u, d), _, _) c =
      rw (r, u, d) (refl, refl, refl)

  refined-AllRows :
      (P : PlaceRow → Type 0) (request : Request) (m n : Moment) (id : String)
      (actor : PlaceActorContext) (s : S) (row : PlaceRow)
      → world.find_one id s ≡ some row
      → (o : Outcome PlaceAggregate (Unit {0})) (p : Outcome S (Unit {0}))
      → Follows (command_of request) actor (to_domain row) o
      → Implements world laws key request m n id row s o p
      → Carries P request n.now actor
      → AllRows P s
      → AllRows P (after p)
  refined-AllRows P request m n id actor s row h (fail e b) p f r k all =
      subst (λ q. AllRows P (after q)) (sym r) all
  refined-AllRows P request m n id actor s row h (done _ b) p f (u, q, c) k all =
      subst (λ q. AllRows P (after q)) (sym q)
        λ other r e. elim (Bool-cases (id == other)) [
          | inl here ↦
              let new : PlaceRow = record (to_persistence b (some row)) {
                deleted_at = deleted_at_after request n.now row.deleted_at;
              } in
              let at : id ≡ other = (eq_iff id other).0 here in
              let same : some new ≡ some r = sym c.found ∙ (ap (λ i. world.find_one i u) at ∙ e) in
              subst P (let same_row : new ≡ r = cc in same_row) (k row b f (all id row h))
          | inr away ↦ all other r (sym (c.others other away) ∙ e)
        ]

  pub request-AllRows :
      (P : PlaceRow → Type 0) (request : Request) (m n : Moment) (id : String)
      (actor : PlaceActorContext) (s : S)
      → Carries P request n.now actor
      → AllRows P s
      → AllRows P (after (handle world key request m n id actor s))
  request-AllRows P request m n id actor s k all = elim (Option-cases (world.find_one id s)) [
    | inl none_there ↦
        subst (λ o. AllRows P (after o)) (sym (handle_missing request m n id actor s none_there))
          all
    | inr (row, h) ↦ elim (destination_cases request s) [
      | inl d ↦
          refined-AllRows P request m n id actor s row h
            (run (command_of request) actor (to_domain row))
            (handle world key request m n id actor s)
            (command-Follows (command_of request) actor (to_domain row))
            (request-Implements world laws key request m n id actor s row h d) k all
      | inr (input, same, missing) ↦
          subst (λ r. AllRows P (after (handle world key r m n id actor s))) (sym same)
            (subst (λ o. AllRows P (after o))
              (sym (update_nowhere input m n id actor s row h missing)) all)
    ]
  ]
    where
      destination_cases :
          (request : Request) (s : S)
          → DestinationExists world key request s
            ⊎ ((input : UpdatePlaceInput) × (request ≡ update_place input)
                × (is_missing world key input.destination_id s ≡ true))
      destination_cases (update_place input) s =
          elim (Bool-cases (is_missing world key input.destination_id s)) [
            | inl lost ↦ inr (input, refl, lost)
            | inr kept ↦ inl kept
          ]
      destination_cases submit_place s = inl tt
      destination_cases delete_own_place s = inl tt
      destination_cases (delete_place_by_admin reason) s = inl tt
      destination_cases restore_own_place s = inl tt
      destination_cases restore_place_by_admin s = inl tt

  -- Every request of anybody, for any place, keeps this for every stored place: whether a place is
  -- deleted and whether it says by whom, in what role and for what reason never come apart.
  pub request-AllConsistent :
      (request : Request) (m n : Moment) (id : String) (actor : PlaceActorContext) (s : S)
      → AllConsistent s
      → AllConsistent (after (handle world key request m n id actor s))
  unfolding AllConsistent
  request-AllConsistent request m n id actor s all =
      request-AllRows IsConsistent request m n id actor s (run-IsConsistent request n.now actor) all
