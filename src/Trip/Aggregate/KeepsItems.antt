-- ===== src/Trip/Aggregate/KeepsItems.antt =====
-- The operations of the aggregate on the items of a day keep the invariant, also where they throw.
use recommendation_trip_plat.Trip.Aggregate.{
  new_item, overlaps, CreateTripInput, TripStatus, cancelled, completed, ongoing, upcoming,
  new_time_slot, TripItem, TimeSlot, Trip, AddTripItemInput, UpdateTripItemInput, has_day_id,
  has_item_id, on_day, on_item, overlaps_item,
}
use recommendation_trip_plat.Base.{
  Bool-cases, List, Result-cases, inr, All-update_found, inl, AllPairs-update_first_same,
  Option-cases, update_first, find?-test, eq_iff, filter, find?-All, Keeps, find?, any, ◌∷◌, [],
  false, ◌==◌, not, ◌≢◌, All, any-false, ◌+◌, ◌≡◌, String, some, after, arith, refl,
}
use recommendation_trip_plat.Trip.Aggregate.Invariant.{
  filter_items-IsValidDay, on_item-IsValidDay, set_slot-IsValidDay, push_item-IsValidDay, IsValid,
  IsValidDay,
}
use recommendation_trip_plat.Trip.Entities
use recommendation_trip_plat.Trip.Entities.{TripDay}
use recommendation_trip_plat.Trip.Aggregate
use recommendation_trip_plat.Trip.TimeSlot.Laws.{new_time_slot-IsValid}
use recommendation_trip_plat.Trip.Aggregate.Keeps.{rename-IsValid}

-- `on_day` at the day that was found.
module _ (id : String) (day : TripDay) (t : Trip)
    (found : find? (has_day_id id) t.days ≡ some day) where
  pub found_id : day.id ≡ id
  found_id = (eq_iff day.id id).0 (find?-test (has_day_id id) t.days found)

  pub found-IsValidDay : IsValid t → IsValidDay t.id t.date_range day
  found-IsValidDay v =
      find?-All (IsValidDay t.id t.date_range) (has_day_id id) t.days v.valid_days found

-- `f` need only keep the one day that was found.
module _ (id : String) (day : TripDay) (t : Trip)
    (found : find? (has_day_id id) t.days ≡ some day) where
  found_only :
      (f : TripDay → TripDay)
      → ((d : TripDay) → (f d).id ≡ d.id)
      → ((d : TripDay) → (f d).day_index ≡ d.day_index)
      → (IsValidDay t.id t.date_range day → IsValidDay t.id t.date_range (f day))
      → IsValid t
      → IsValid (record t { version = t.version + 1; days = update_first (has_day_id id) f t.days })
  found_only f p q k v = record {
    day_ids =
        AllPairs-update_first_same (λ (a b : TripDay). a.id ≢ b.id) (has_day_id id) f t.days
          (λ x y _ r. rw p r) (λ x y _ r. rw p r) v.day_ids;
    indices =
        AllPairs-update_first_same (λ (a b : TripDay). a.day_index ≢ b.day_index) (has_day_id id) f
          t.days (λ x y _ r. rw q r) (λ x y _ r. rw q r) v.indices;
    valid_days =
        All-update_found (IsValidDay t.id t.date_range) (has_day_id id) f t.days day found k
          v.valid_days;
  }

pub add_item-IsValid :
    (uuid : String) (input : AddTripItemInput) (t : Trip)
    → All (λ (d : TripDay). All (λ (i : TripItem). i.id ≢ uuid) d.items) t.days
    → IsValid t
    → IsValid (after (Aggregate.add_item uuid input t))
unfolding Aggregate.add_item
add_item-IsValid uuid input t fresh v =
    elim (Option-cases (find? (has_day_id input.trip_day_id) t.days)) [
      | inl missing ↦ ground arith
      | inr (day, found) ↦ elim (Result-cases (new_time_slot input.start_time input.end_time)) [
        | inl (slot, made) ↦ ground (
          arith,
          λ (free : any (overlaps_item slot) day.items ≡ false).
              found_only input.trip_day_id day t found
                (Entities.add_item (new_item uuid input day slot)) (λ d. refl) (λ d. refl)
                (λ w.
                  push_item-IsValidDay t.id t.date_range day w (new_item uuid input day slot) refl
                    (find?-All (λ (d : TripDay). All (λ (i : TripItem). i.id ≢ uuid) d.items)
                      (has_day_id input.trip_day_id) t.days fresh found)
                    (new_time_slot-IsValid input.start_time input.end_time slot made).0
                    (any-false (overlaps_item slot) day.items free))
                v,
        )
        | inr (e, refused) ↦ ground arith
      ]
    ]

-- The items that the check of `rescheduleItem` has compared.
others_free :
    (id : String) (slot : TimeSlot) (items : List TripItem)
    → any (overlaps_item slot) (filter (λ (i : TripItem). not (i.id == id)) items) ≡ false
    → All (λ (j : TripItem). has_item_id id j ≡ false → overlaps j.time_slot slot ≡ false) items
unfolding any filter
others_free id slot [] h = tt
others_free id slot (i ∷ is) h = elim (Bool-cases (i.id == id)) [
  | inl e ↦ (λ w. cc, others_free id slot is (rw e at h))
  | inr e ↦ (λ w. ground arith, others_free id slot is (ground arith))
]

pub reschedule_item-IsValid :
    (day_id item_id start_time end_time : String)
    → Keeps IsValid (Aggregate.reschedule_item day_id item_id start_time end_time)
unfolding Aggregate.reschedule_item
reschedule_item-IsValid day_id item_id start_time end_time t v =
    elim (Option-cases (find? (has_day_id day_id) t.days)) [
      | inl missing ↦ ground arith
      | inr (day, found) ↦ elim (Result-cases (new_time_slot start_time end_time)) [
        | inl (slot, made) ↦ ground (
          arith,
          λ (free : any (overlaps_item slot)
                  (filter (λ (i : TripItem). not (i.id == item_id)) day.items)
                ≡ false).
              found_only day_id day t found
                (on_item item_id (λ (i : TripItem). record i { time_slot = slot })) (λ d. refl)
                (λ d. refl)
                (λ w.
                  set_slot-IsValidDay t.id t.date_range day w item_id slot
                    (new_time_slot-IsValid start_time end_time slot made).0
                    (others_free item_id slot day.items free))
                v,
        )
        | inr (e, refused) ↦ ground arith
      ]
    ]

without_item : String → TripDay → TripDay
without_item item_id d = record d {
  items = filter (λ (i : TripItem). not (i.id == item_id)) d.items;
}

removed-IsValid :
    (day_id item_id : String) (day : TripDay) (t : Trip)
    → find? (has_day_id day_id) t.days ≡ some day
    → IsValid t
    → IsValid (record t {
      version = t.version + 1;
      days = update_first (has_day_id day_id) (without_item item_id) t.days;
    })
unfolding without_item
removed-IsValid day_id item_id day t found v =
    found_only day_id day t found (without_item item_id) (λ d. refl) (λ d. refl)
      (λ w.
        filter_items-IsValidDay t.id t.date_range day w (λ (i : TripItem). not (i.id == item_id)))
      v

pub remove_item-IsValid :
    (day_id item_id : String) → Keeps IsValid (Aggregate.remove_item day_id item_id)
unfolding Aggregate.remove_item without_item
remove_item-IsValid day_id item_id t v = elim (Option-cases (find? (has_day_id day_id) t.days)) [
  | inl missing ↦ ground arith
  | inr (day, found) ↦
      let u : Trip = record t {
        version = t.version + 1;
        days = update_first (has_day_id day_id) (without_item item_id) t.days;
      } in
      let w = removed-IsValid day_id item_id day t found v in
      ground (arith, w, rename-IsValid u (record u { version = t.version }) refl refl refl w)
]

updated_item_keeps :
    (input : UpdateTripItemInput) (i : TripItem)
    → ((Aggregate.updated_item input i).id ≡ i.id)
      × ((Aggregate.updated_item input i).trip_day_id ≡ i.trip_day_id)
      × ((Aggregate.updated_item input i).time_slot ≡ i.time_slot)
unfolding Aggregate.updated_item
updated_item_keeps input i = ground arith

pub update_item-IsValid :
    (input : UpdateTripItemInput) → Keeps IsValid (Aggregate.update_item input)
unfolding Aggregate.update_item
update_item-IsValid input t v = elim (Option-cases (find? (has_day_id input.trip_day_id) t.days)) [
  | inl missing ↦ ground arith
  | inr (day, found) ↦ ground (
    arith,
    found_only input.trip_day_id day t found (on_item input.item_id (Aggregate.updated_item input))
        (λ d. refl) (λ d. refl)
        (λ w.
          on_item-IsValidDay t.id t.date_range day w input.item_id (Aggregate.updated_item input)
            (updated_item_keeps input))
        v,
  )
]
