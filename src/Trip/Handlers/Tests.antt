-- ===== src/Trip/Handlers/Tests.antt =====
-- The trip handlers over a store in memory, which meets the laws of the ports.
use recommendation_trip_plat.Base.{
  Bool-cases, All, after, ◌≡◌, refl, ap, subst, ◌∙◌, ◌≢◌, inl, inr, ◌==◌, eq_iff,
  resource_not_found, fail,
}
use recommendation_trip_plat.Trip.Memory.{memory, memory_laws, mine, one_trip}
use recommendation_trip_plat.Trip.Aggregate.{Trip}
use recommendation_trip_plat.Trip.Aggregate.Invariant.{IsValid}
use recommendation_trip_plat.Trip.Handlers.Requests
use recommendation_trip_plat.Trip.Handlers.Requests.{Request, handle}
use recommendation_trip_plat.Trip.Handlers.Laws.{
  Refines, handle-Refines, handle_stranger, AllValid, handle-AllValid,
}

abbrev request : Request
request = Requests.add_trip_day "d1" "t1" "ann" 1 "2025-05-01"

handle-Refines_example :
    Refines memory memory_laws request one_trip mine (handle memory request one_trip)
handle-Refines_example = handle-Refines memory memory_laws request one_trip mine refl refl

handle_stranger_example :
    handle memory (Requests.remove_trip_day "t1" "bob" "d1") one_trip
    ≡ fail (resource_not_found "trip_not_found") one_trip
handle_stranger_example =
    handle_stranger memory memory_laws (Requests.remove_trip_day "t1" "bob" "d1") one_trip (λ t e q.
      let same : mine ≡ t = cc in
      cc ((eq_iff "ann" "bob").1 (ap (λ (u : Trip). u.user_id) same ∙ q)))

mine-IsValid : IsValid mine
mine-IsValid = record { day_ids = tt; indices = tt; valid_days = tt }

one_trip-AllValid : AllValid memory memory_laws one_trip
one_trip-AllValid id t e = elim (Bool-cases ("t1" == id)) [
  | inl here ↦ subst IsValid (cc (here, e)) mine-IsValid
  | inr away ↦ cc (away, e)
]

handle-AllValid_example : AllValid memory memory_laws (after (handle memory request one_trip))
handle-AllValid_example =
    handle-AllValid memory memory_laws request one_trip (λ u v. v)
      (λ t e.
        let same : mine ≡ t = cc in subst (λ (u : Trip). All (λ d. d.id ≢ "d1") u.days) same tt)
      one_trip-AllValid
