-- ===== src/Trip/Aggregate/Items.antt =====
-- Failing commands, and the items of a day: adding one and taking it away again.
use recommendation_trip_plat.Base.{
  Outcome, Option, none, Bool-cases, ◌⊎◌, Bool, ◌∙◌, update_first-update_first, find?-test,
  find?-update_first, All-map, filter-push, [], ◌∷◌, length-push, ◌++◌, ◌>>◌, continue, filter,
  find?-All, true, eq_iff, ok, eqb, All, refl, ◌≢◌, Result-cases, update_first, ◌+◌, some, done, ℕ,
  update_first-found, inr, length-filter, inl, ◌==◌, not, find?, Option-cases, arith,
  filter-same_length, fail, false, ◌≡◌, AppError, String,
}
use mathlib.Core.Path.{ap, sym, subst}
use recommendation_trip_plat.Trip.Aggregate.{
  TripStatus, on_day, text, contains_date, new_item, new_time_slot, AddTripItemInput, has_day_id,
  TripItem, TripDay, Trip,
}
use recommendation_trip_plat.Trip.Entities
use recommendation_trip_plat.Trip.Aggregate
use recommendation_trip_plat.Trip.Aggregate.History.{
  add_item, remove_item, Command, run, update_day,
}

abbrev IsUpdateDay : Command → Type 0
IsUpdateDay (update_day id k date) = Unit
IsUpdateDay _ = ⊥

removed_nothing :
    (item_id : String) (d : TripDay)
    → (Entities.remove_item item_id d).1 ≡ false
    → (Entities.remove_item item_id d).0 ≡ d
unfolding Entities.remove_item
removed_nothing item_id d h = λ i. record d {
  items =
      filter-same_length (λ (item : TripItem). not (item.id == item_id)) d.items
        (ground (arith, length-filter (λ (item : TripItem). not (item.id == item_id)) d.items)) i;
}

remove_item_atomic :
    (day_id item_id : String) (t u : Trip) (e : AppError)
    → Aggregate.remove_item day_id item_id t ≡ fail e u
    → u ≡ t
unfolding Aggregate.remove_item
remove_item_atomic day_id item_id t u e h = elim (Option-cases (find? (has_day_id day_id) t.days)) [
  | inl missing ↦ ground arith
  | inr (day, found) ↦ ground (
    arith,
    removed_nothing item_id day,
    λ (w : (Entities.remove_item item_id day).0 ≡ day).
        update_first-found (has_day_id day_id) (λ d. (Entities.remove_item item_id d).0) t.days day
          found w,
  )
]

-- A command other than `updateDay` that throws leaves the trip as it was.
pub fail_atomic :
    (c : Command) (t u : Trip) (e : AppError) → ¬ IsUpdateDay c → run c t ≡ fail e u → u ≡ t
unfolding run Aggregate.set_title Aggregate.add_day Aggregate.remove_day Aggregate.add_item
    Aggregate.reschedule_item Aggregate.update_item Aggregate.confirm Aggregate.cancel
    Aggregate.start Aggregate.complete
fail_atomic (update_day id k date) t u e n h = absurd (n tt)
fail_atomic (remove_item d i) t u e n h = remove_item_atomic d i t u e h
fail_atomic _ t u e n h = ground arith

module _ (day_id : String) (day : TripDay) where
  index_fails :
      (k : Option ℕ) (t u : Trip) (e : AppError)
      → Aggregate.update_day_index day_id day k t ≡ fail e u
      → u ≡ t
  unfolding Aggregate.update_day_index
  index_fails none t u e h = cc
  index_fails (some n) t u e h = ground arith

  -- Where the index is given and is another one, it is written at once.
  WithIndex : Option ℕ → Trip → Trip → Type 0
  WithIndex k t u =
      (u ≡ t)
      ⊎ ((n : ℕ) × (k ≡ some n)
          × (u ≡ record t {
            days =
                update_first (λ (d : TripDay). d.id == day_id) (λ d. record d { day_index = n })
                  t.days;
          }))

  index_returns :
      (k : Option ℕ) (t u : Trip)
      → Aggregate.update_day_index day_id day k t ≡ done tt u
      → WithIndex k t u
  unfolding Aggregate.update_day_index WithIndex
  index_returns none t u h = inl cc
  index_returns (some n) t u h = elim (Bool-cases (eqb n day.day_index)) [
    | inl e ↦ inl (ground arith)
    | inr e ↦ inr (n, refl, ground arith)
  ]

  date_fails :
      (date : Option String) (t u : Trip) (e : AppError)
      → Aggregate.update_day_date day_id day date t ≡ fail e u
      → (u ≡ t) × ((d : String) × (date ≡ some d) × (contains_date t.date_range (text d) ≢ ok true))
  unfolding Aggregate.update_day_date
  date_fails none t u e h = cc
  date_fails (some d) t u e h = (ground arith, (d, refl, λ q. ground arith))

-- An `updateDay` that throws leaves the trip as it was, or with the new index of the day and nothing
-- else changed; the second only if the date that was given is not found to be in the range of the trip.
pub update_day_fails :
    (day_id : String) (k : Option ℕ) (date : Option String) (t u : Trip) (e : AppError)
    → run (update_day day_id k date) t ≡ fail e u
    → (u ≡ t)
      ⊎ (((n : ℕ) × (k ≡ some n)
            × (u ≡ record t {
              days =
                  update_first
                    (λ (d : TripDay). d.id == day_id)
                    (λ d. record d { day_index = n })
                    t.days;
            }))
          × ((d : String) × (date ≡ some d) × (contains_date t.date_range (text d) ≢ ok true)))
unfolding run Aggregate.update_day Aggregate.ensure_not_terminal_state Aggregate.find_day_or_throw
    Aggregate.bump_version WithIndex
update_day_fails day_id k date t u e h = elim (Bool-cases (Aggregate.is_terminal t.status)) [
  | inl over ↦ let q : fail _ t ≡ fail e u = rw over at h in inl (cc)
  | inr live ↦ elim (Option-cases (find? (has_day_id day_id) t.days)) [
    | inl missing ↦ let q : fail _ t ≡ fail e u = rw missing at (rw live at h) in inl (cc)
    | inr (day, found) ↦
        written day (Aggregate.update_day_index day_id day k t) refl (rw found at (rw live at h))
  ]
]
  where
    Left : Trip → Type 0
    Left v =
        (v ≡ t)
        ⊎ (((n : ℕ) × (k ≡ some n)
              × (v ≡ record t {
                days =
                    update_first (λ (d : TripDay). d.id == day_id) (λ d. record d { day_index = n })
                      t.days;
              }))
            × ((d : String) × (date ≡ some d) × (contains_date t.date_range (text d) ≢ ok true)))

    dated :
        (day : TripDay) (s : Trip) (o : Outcome Trip (Unit {0}))
        → WithIndex day_id day k t s
        → Aggregate.update_day_date day_id day date s ≡ o
        → continue (λ _. Aggregate.bump_version) o ≡ fail e u
        → Left u
    dated day s (done _ v) w p q = cc
    dated day s (fail x v) w p q =
        let (kept, (d, given, outside)) = date_fails day_id day date s v x p in
        let same : u ≡ s = cc in
        elim w [
          | inl stays ↦ inl (same ∙ stays)
          | inr (n, new, changed) ↦ inr (
            (n, new, same ∙ changed),
            (
              d,
              given,
              λ r. outside (ap (λ (z : Trip). contains_date z.date_range (text d)) changed ∙ r),
            ),
          )
        ]

    written :
        (day : TripDay) (o : Outcome Trip (Unit {0}))
        → Aggregate.update_day_index day_id day k t ≡ o
        → continue (λ _. Aggregate.update_day_date day_id day date >> Aggregate.bump_version) o
          ≡ fail e u
        → Left u
    written day (fail x v) p q = let kept : v ≡ t = index_fails day_id day k t v x p in inl (cc)
    written day (done _ s) p q =
        dated day s (Aggregate.update_day_date day_id day date s) (index_returns day_id day k t s p)
          refl q

-- The effect of `addItem` where it returns: the trip's clock of versions moves on, and the day that
-- was found has the new item at its end.
added :
    (uuid : String) (input : AddTripItemInput) (t u : Trip)
    → run (add_item uuid input) t ≡ done tt u
    → (day : TripDay) × (item : TripItem) × (find? (has_day_id input.trip_day_id) t.days ≡ some day)
      × (item.id ≡ uuid)
      × (Aggregate.is_terminal t.status ≡ false)
      × (u ≡ record t {
        version = t.version + 1;
        days = update_first (has_day_id input.trip_day_id) (Entities.add_item item) t.days;
      })
unfolding run Aggregate.add_item
added uuid input t u h = elim (Option-cases (find? (has_day_id input.trip_day_id) t.days)) [
  | inl missing ↦ ground arith
  | inr (day, found) ↦ elim (Result-cases (new_time_slot input.start_time input.end_time)) [
    | inl (slot, made) ↦
        (day, new_item uuid input day slot, found, refl, ground arith, ground arith)
    | inr (e, refused) ↦ ground arith
  ]
]

module _ (uuid : String) (item : TripItem) (named : item.id ≡ uuid) (day : TripDay)
    (free : All (λ (i : TripItem). i.id ≢ uuid) day.items) where
  others_stay : filter (λ (i : TripItem). not (i.id == uuid)) (day.items ++ item ∷ []) ≡ day.items
  others_stay =
      filter-push (λ (i : TripItem). not (i.id == uuid)) day.items item
        (All-map (λ i n. ground (arith, eq_iff i.id uuid)) day.items free)
        (ground (arith, eq_iff item.id uuid))

  removal : Entities.remove_item uuid (Entities.add_item item day) ≡ (day, true)
  unfolding Entities.remove_item Entities.add_item
  removal = ground (arith, others_stay, length-push (λ (_ : TripItem). true) day.items item)

taken :
    (uuid id : String) (t : Trip) (day : TripDay) (item : TripItem)
    → Aggregate.is_terminal t.status ≡ false
    → find? (has_day_id id) t.days ≡ some day
    → item.id ≡ uuid
    → All (λ (i : TripItem). i.id ≢ uuid) day.items
    → run (remove_item id uuid) (record t {
      version = t.version + 1;
      days = update_first (has_day_id id) (Entities.add_item item) t.days;
    })
      ≡ done tt (record t { version = t.version + 2 })
unfolding run Aggregate.remove_item
taken uuid id t day item live found named free =
    let gone = removal uuid item named day free in
    let stays =
      find?-update_first (has_day_id id) (Entities.add_item item) t.days day found
        (unfold Entities.add_item in find?-test (has_day_id id) t.days found) in
    let back =
      update_first-update_first (has_day_id id) (Entities.add_item item)
        (λ d. (Entities.remove_item uuid d).0) t.days (λ d e. unfold Entities.add_item in e)
      ∙ update_first-found (has_day_id id)
          (λ d. (Entities.remove_item uuid (Entities.add_item item d)).0) t.days day found
          (ap (λ (r : TripDay × Bool). r.0) gone) in
    ground (arith, gone, stays, back)

-- Removing the item that a command has added with a new identifier gives back the days as they
-- were, and the removal returns.
pub remove-add_item :
    (uuid : String) (input : AddTripItemInput) (t u : Trip)
    → All (λ (d : TripDay). All (λ (i : TripItem). i.id ≢ uuid) d.items) t.days
    → run (add_item uuid input) t ≡ done tt u
    → run (remove_item input.trip_day_id uuid) u ≡ done tt (record t { version = t.version + 2 })
remove-add_item uuid input t u fresh h =
    let (day, item, found, named, live, same) = added uuid input t u h in
    let free : All (λ (i : TripItem). i.id ≢ uuid) day.items =
      find?-All (λ (d : TripDay). All (λ (i : TripItem). i.id ≢ uuid) d.items)
        (has_day_id input.trip_day_id) t.days fresh found in
    subst
      (λ v.
        run (remove_item input.trip_day_id uuid) v ≡ done tt (record t { version = t.version + 2 }))
      (sym same) (taken uuid input.trip_day_id t day item live found named free)
