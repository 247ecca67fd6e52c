-- ===== src/Trip/Aggregate/Lifecycle.antt =====
-- The status and the version of a trip under its operations.
use recommendation_trip_plat.Base.{
  trip_invalid_state_transition, true, length, ltb, ℕ, Option, any, trip_terminal_state_mutation,
  AppError, String, ◌↔◌, fail, ◌+◌, ◌≢◌, arith, done, ◌⊎◌, ◌≡◌, none, some,
}
use recommendation_trip_plat.Trip.Aggregate.{
  TripDay, AddTripItemInput, UpdateTripItemInput, Outcome, Trip, TripStatus, draft, upcoming,
  ongoing, completed, cancelled,
}
use recommendation_trip_plat.Trip.Aggregate
use recommendation_trip_plat.Trip.Aggregate.History.{
  Command, run, set_title, add_day, update_day, remove_day, add_item, reschedule_item, remove_item,
  update_item, confirm, cancel, start, complete,
}

-- The moves of the status: the commands that make them, and those that leave it alone.
abbrev pub Moves : Command → TripStatus → TripStatus → Type 0
Moves confirm s s' = (s ≡ draft) × (s' ≡ upcoming)
Moves start s s' = (s ≡ upcoming) × (s' ≡ ongoing)
Moves complete s s' = (s ≡ ongoing) × (s' ≡ completed)
Moves cancel s s' = ((s ≡ draft) ⊎ (s ≡ upcoming)) × (s' ≡ cancelled)
Moves _ s s' = (s' ≡ s) × (s ≢ completed) × (s ≢ cancelled)

abbrev pub IsTerminal : TripStatus → Type 0
IsTerminal s = (s ≡ completed) ⊎ (s ≡ cancelled)

-- What no command changes.
abbrev pub SameTrip : Trip → Trip → Type 0
SameTrip t u =
    (u.id ≡ t.id)
    × (u.user_id ≡ t.user_id)
    × (u.destination_id ≡ t.destination_id)
    × (u.date_range ≡ t.date_range)

-- What a command does to the status and the version.
abbrev pub Follows : Command → Trip → Outcome Trip (Unit {0}) → Type 0
Follows c t (done _ u) = Moves c t.status u.status × (u.version ≡ t.version + 1) × SameTrip t u
Follows c t (fail e u) = (u.status ≡ t.status) × (u.version ≡ t.version) × SameTrip t u

add_item-Follows :
    (uuid : String) (input : AddTripItemInput) (t : Trip)
    → Follows (add_item uuid input) t (Aggregate.add_item uuid input t)
unfolding Aggregate.add_item
add_item-Follows uuid input t = ground arith

reschedule_item-Follows :
    (d i s e : String) (t : Trip)
    → Follows (reschedule_item d i s e) t (Aggregate.reschedule_item d i s e t)
unfolding Aggregate.reschedule_item
reschedule_item-Follows d i s e t = ground arith

remove_item-Follows :
    (d i : String) (t : Trip) → Follows (remove_item d i) t (Aggregate.remove_item d i t)
unfolding Aggregate.remove_item
remove_item-Follows d i t = ground arith

update_item-Follows :
    (input : UpdateTripItemInput) (t : Trip)
    → Follows (update_item input) t (Aggregate.update_item input t)
unfolding Aggregate.update_item
update_item-Follows input t = ground arith

update_day-Follows :
    (id : String) (k : Option ℕ) (date : Option String) (t : Trip)
    → Follows (update_day id k date) t (Aggregate.update_day id k date t)
unfolding Aggregate.update_day Aggregate.update_day_index Aggregate.update_day_date
update_day-Follows id none none t = ground arith
update_day-Follows id (some k) none t = ground arith
update_day-Follows id none (some date) t = ground arith
update_day-Follows id (some k) (some date) t = ground arith

-- A command that returns makes the move of the status that is its own and raises the version by
-- one; a command that throws leaves both. Neither changes the identifier, the owner, the
-- destination and the range of dates.
pub run-Follows : (c : Command) (t : Trip) → Follows c t (run c t)
unfolding run Aggregate.set_title Aggregate.add_day Aggregate.remove_day Aggregate.confirm
    Aggregate.cancel Aggregate.start Aggregate.complete
run-Follows (set_title title) t = ground arith
run-Follows (add_day id k date) t = ground arith
run-Follows (remove_day id) t = ground arith
run-Follows confirm t = ground arith
run-Follows cancel t = ground arith
run-Follows start t = ground arith
run-Follows complete t = ground arith
run-Follows (update_day id k date) t = update_day-Follows id k date t
run-Follows (add_item uuid input) t = add_item-Follows uuid input t
run-Follows (reschedule_item d i s e) t = reschedule_item-Follows d i s e t
run-Follows (remove_item d i) t = remove_item-Follows d i t
run-Follows (update_item input) t = update_item-Follows input t

-- A completed or cancelled trip is frozen: every command throws and leaves it as it is.
pub terminal_frozen :
    (c : Command) (t : Trip) → IsTerminal t.status → (e : AppError) × (run c t ≡ fail e t)
unfolding run Aggregate.set_title Aggregate.add_day Aggregate.update_day Aggregate.remove_day
    Aggregate.add_item Aggregate.reschedule_item Aggregate.remove_item Aggregate.update_item
    Aggregate.confirm Aggregate.cancel Aggregate.start Aggregate.complete
terminal_frozen confirm t h =
    (trip_invalid_state_transition "trip_confirm_requires_draft_status", ground arith)
terminal_frozen cancel t h =
    (trip_invalid_state_transition "trip_cancel_requires_draft_or_upcoming_status", ground arith)
terminal_frozen start t h =
    (trip_invalid_state_transition "trip_start_requires_upcoming_status", ground arith)
terminal_frozen complete t h =
    (trip_invalid_state_transition "trip_complete_requires_ongoing_status", ground arith)
terminal_frozen _ t h = (trip_terminal_state_mutation, ground arith)

-- A draft can be confirmed exactly if one of its days has an item.
pub confirm_iff :
    (t : Trip)
    → ((u : Trip) × (run confirm t ≡ done tt u))
      ↔ ((t.status ≡ draft) × (any (λ (d : TripDay). ltb 0 (length d.items)) t.days ≡ true))
unfolding run Aggregate.confirm
confirm_iff t = (
  λ (u, h). ground arith,
  λ h. (record t { status = upcoming; version = t.version + 1 }, ground arith),
)
