-- ===== src/Trip/Handlers/Laws.antt =====
-- What the handlers do to the stored trips, by the laws of their ports.
use recommendation_trip_plat.Base.{
  if◌then◌else◌, or_else, Bool-cases, Option-cases, Outcome, after, continue, ◌>>=◌, String, ◌≡◌,
  refl, sym, ◌≢◌, inl, inr, false, some, arith, ◌==◌, eq_iff, eq_refl, resource_not_found, done,
  fail,
}
use recommendation_trip_plat.Trip.Aggregate.History.{IsFresh, run-IsValid, run}
use recommendation_trip_plat.Trip.Aggregate.Invariant.{IsValid}
use mathlib.Core.Path.{subst}
use recommendation_trip_plat.Trip.Handlers.{
  kept, AddTripItemCommand, UpdateTripItemCommand, own_trip, on_trip,
}
use recommendation_trip_plat.Trip.Aggregate.Lifecycle.{run-Follows, Follows}
use recommendation_trip_plat.Trip.Ports.{TripPortsLaws, TripPorts}
use recommendation_trip_plat.Trip.Aggregate.{Trip}
use recommendation_trip_plat.Trip.Handlers
use recommendation_trip_plat.Trip.Handlers.Requests.{
  Request, trip_of, user_of, command_of, handle, check, save_changed, handle_lem, update_trip_item,
  add_trip_item,
}

module _ {S : Type 0} (ports : TripPorts S) (laws : TripPortsLaws ports) where
  open laws use {stored, reload, find_stored, save_returns, stored_save, place_reads}

  -- What a request does to the stored trips, given the trip that is stored under its identifier.
  abbrev pub Refines : Request → S → Trip → Outcome S (Unit {0}) → Type 0
  Refines r s t (done _ u) =
      (t' : Trip) × (run (command_of r) t ≡ done tt t')
      × ((id : String) → stored u id ≡ (if t.id == id then some (reload t') else stored s id))
  Refines r s t (fail e u) = u ≡ s

  pub own_trip-done :
      (trip_id : String) (s : S) (t : Trip)
      → stored s trip_id ≡ some t
      → own_trip ports trip_id t.user_id s ≡ done t s
  unfolding own_trip
  own_trip-done trip_id s t e = simp (find_stored, e, eq_refl)

  check_reads : (r : Request) (t : Trip) (s : S) → after (check ports r t s) ≡ s
  unfolding check
  check_reads (add_trip_item uuid c) t s = place_reads c.place_id t.destination_id s
  check_reads (update_trip_item c) t s = elim (Bool-cases (Handlers.is_truthy c.place_id)) [
    | inl e ↦ rw e (place_reads (or_else c.place_id "") t.destination_id s)
    | inr e ↦ rw e
  ]
  check_reads _ t s = refl

  saved :
      (r : Request) (s : S) (t : Trip) (o : Outcome Trip (Unit {0}))
      → run (command_of r) t ≡ o
      → Refines r s t (continue ports.save (kept o s))
  saved r s t (fail e t') p = refl
  saved r s t (done _ t') p =
      let (u, e) = save_returns t' s in
      let same : t'.id ≡ t.id =
        ((subst (Follows (command_of r) t) p (run-Follows (command_of r) t)).2).0 in
      rw e (
        t',
        p,
        λ id.
            subst
              (λ v. stored (after v) id ≡ (if t.id == id then some (reload t') else stored s id)) e
              (subst
                (λ k.
                  stored (after (ports.save t' s)) id
                  ≡ (if k == id then some (reload t') else stored s id))
                same (stored_save t' s id)),
      )

  checked :
      (r : Request) (s : S) (t : Trip) (o : Outcome S (Unit {0}))
      → after o ≡ s
      → Refines r s t (continue (λ _. on_trip ports (run (command_of r)) t >>= ports.save) o)
  checked r s t (fail e u) p = p
  checked r s t (done _ u) p =
      subst (λ v. Refines r s t (continue ports.save (kept (run (command_of r) t) v))) (sym p)
        (saved r s t (run (command_of r) t) refl)

  -- A request of the owner refines the operation of the aggregate: if the handler returns, the
  -- operation returns on the stored trip, and the trip that it leaves is stored in its place, with
  -- every other stored trip as it was; if it throws, nothing has changed.
  pub handle-Refines :
      (r : Request) (s : S) (t : Trip)
      → stored s (trip_of r) ≡ some t
      → t.user_id ≡ user_of r
      → Refines r s t (handle ports r s)
  unfolding save_changed
  handle-Refines r s t e owner = rw handle_lem (
      rw (← owner) (
        rw (own_trip-done (trip_of r) s t e)
          (checked r s t (check ports r t s) (check_reads r t s))))

  pub own_trip-fail :
      (trip_id user_id : String) (s : S)
      → ((t : Trip) → stored s trip_id ≡ some t → t.user_id ≢ user_id)
      → own_trip ports trip_id user_id s ≡ fail (resource_not_found "trip_not_found") s
  unfolding own_trip
  own_trip-fail trip_id user_id s other = elim (Option-cases (stored s trip_id)) [
    | inl e ↦ simp (find_stored, e)
    | inr (t, e) ↦
        let differs : (t.user_id == user_id) ≡ false =
          ground (arith, eq_iff t.user_id user_id, other t e) in
        simp (find_stored, e, differs)
  ]

  -- A request of somebody else, or of a trip that is not stored, fails in one and the same way, and
  -- changes nothing.
  pub handle_stranger :
      (r : Request) (s : S)
      → ((t : Trip) → stored s (trip_of r) ≡ some t → t.user_id ≢ user_of r)
      → handle ports r s ≡ fail (resource_not_found "trip_not_found") s
  handle_stranger r s other = rw handle_lem (rw (own_trip-fail (trip_of r) (user_of r) s other))

  -- Every stored trip satisfies the invariant.
  abbrev pub AllValid : S → Type 0
  AllValid s = (id : String) (t : Trip) → stored s id ≡ some t → IsValid t

  refined-AllValid :
      (r : Request) (s : S) (t : Trip) (o : Outcome S (Unit {0}))
      → ((u : Trip) → IsValid u → IsValid (reload u))
      → IsFresh (command_of r) t
      → IsValid t
      → AllValid s
      → Refines r s t o
      → AllValid (after o)
  refined-AllValid r s t (fail e u) keep f v all same = subst AllValid (sym same) all
  refined-AllValid r s t (done _ u) keep f v all (t', ran, there) = λ id w e.
      elim (Bool-cases (t.id == id)) [
        | inl here ↦
            subst IsValid (cc (there id, here, e))
              (keep t' (subst (λ o. IsValid (after o)) ran (run-IsValid (command_of r) t f v)))
        | inr away ↦ all id w (cc (there id, away, e))
      ]

  -- If loading a saved trip keeps the invariant and `randomUUID` returns new identifiers, every
  -- request of anybody leaves a store of trips that all satisfy it.
  pub handle-AllValid :
      (r : Request) (s : S)
      → ((u : Trip) → IsValid u → IsValid (reload u))
      → ((t : Trip) → stored s (trip_of r) ≡ some t → IsFresh (command_of r) t)
      → AllValid s
      → AllValid (after (handle ports r s))
  handle-AllValid r s keep fresh all = elim (Option-cases (stored s (trip_of r))) [
    | inl e ↦ subst (λ o. AllValid (after o)) (sym (handle_stranger r s (λ t h. cc))) all
    | inr (t, e) ↦ elim (Bool-cases (t.user_id == user_of r)) [
      | inl owner ↦
          refined-AllValid r s t (handle ports r s) keep (fresh t e) (all (trip_of r) t e) all
            (handle-Refines r s t e ((eq_iff t.user_id (user_of r)).0 owner))
      | inr other ↦
          subst (λ o. AllValid (after o))
            (sym
              (handle_stranger r s (λ u h q. cc (h, e, other, (eq_iff u.user_id (user_of r)).1 q))))
            all
    ]
  ]
