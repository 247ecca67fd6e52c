-- ===== src/Trip/Aggregate/History.antt =====
-- The operations of the aggregate as one type of commands, and the trips that a history of commands
-- reaches.
use recommendation_trip_plat.Base.{◌≢◌, All, Option, after, ok, ◌≡◌}
use recommendation_trip_plat.Trip.Aggregate.{
  ℕ, Method, String, Trip, AddTripItemInput, UpdateTripItemInput, CreateTripInput,
}
use recommendation_trip_plat.Trip.Aggregate
use recommendation_trip_plat.Trip.Entities.{TripItem, TripDay}
use recommendation_trip_plat.Trip.Aggregate.Invariant.{IsValid}
use recommendation_trip_plat.Trip.Aggregate.Keeps
use recommendation_trip_plat.Trip.Aggregate.KeepsItems

pub data Command : Type 0 where
  set_title : (title : String) → Command
  add_day : (id : String) (day_index : ℕ) (date : String) → Command
  update_day : (day_id : String) (day_index : Option ℕ) (date : Option String) → Command
  remove_day : (day_id : String) → Command
  add_item : (uuid : String) → AddTripItemInput → Command
  reschedule_item : (day_id item_id start_time end_time : String) → Command
  remove_item : (day_id item_id : String) → Command
  update_item : UpdateTripItemInput → Command
  confirm cancel start complete : Command

unfoldable pub run : Command → Method Trip (Unit {0})
run (set_title title) = Aggregate.set_title title
run (add_day id day_index date) = Aggregate.add_day id day_index date
run (update_day day_id day_index date) = Aggregate.update_day day_id day_index date
run (remove_day day_id) = Aggregate.remove_day day_id
run (add_item uuid input) = Aggregate.add_item uuid input
run (reschedule_item day_id item_id start_time end_time) =
    Aggregate.reschedule_item day_id item_id start_time end_time
run (remove_item day_id item_id) = Aggregate.remove_item day_id item_id
run (update_item input) = Aggregate.update_item input
run confirm = Aggregate.confirm
run cancel = Aggregate.cancel
run start = Aggregate.start
run complete = Aggregate.complete

-- The identifier that `randomUUID` has returned is new.
abbrev pub IsFresh : Command → Trip → Type 0
IsFresh (add_day id day_index date) t = All (λ (d : TripDay). d.id ≢ id) t.days
IsFresh (add_item uuid input) t =
    All (λ (d : TripDay). All (λ (i : TripItem). i.id ≢ uuid) d.items) t.days
IsFresh _ t = Unit

pub run-IsValid : (c : Command) (t : Trip) → IsFresh c t → IsValid t → IsValid (after (run c t))
unfolding run
run-IsValid (set_title title) t f v = Keeps.set_title-IsValid title t v
run-IsValid (add_day id k date) t f v = Keeps.add_day-IsValid id k date t f v
run-IsValid (update_day id k date) t f v = Keeps.update_day-IsValid id k date t v
run-IsValid (remove_day id) t f v = Keeps.remove_day-IsValid id t v
run-IsValid (add_item uuid input) t f v = KeepsItems.add_item-IsValid uuid input t f v
run-IsValid (reschedule_item d i s e) t f v = KeepsItems.reschedule_item-IsValid d i s e t v
run-IsValid (remove_item d i) t f v = KeepsItems.remove_item-IsValid d i t v
run-IsValid (update_item input) t f v = KeepsItems.update_item-IsValid input t v
run-IsValid confirm t f v = Keeps.confirm-IsValid t v
run-IsValid cancel t f v = Keeps.cancel-IsValid t v
run-IsValid start t f v = Keeps.start-IsValid t v
run-IsValid complete t f v = Keeps.complete-IsValid t v

-- The trips that commands reach, whether they return or throw.
pub data Reach (s : Trip) : Trip → Type 0 where
  created : Reach s s
  then_run : {t : Trip} → Reach s t → (c : Command) → IsFresh c t → Reach s (after (run c t))

Reach-IsValid : {s t : Trip} → IsValid s → Reach s t → IsValid t
Reach-IsValid v created = v
Reach-IsValid v (then_run {t} r c f) = run-IsValid c t f (Reach-IsValid v r)

-- Whatever commands follow its creation, with new identifiers, and whether they return or throw,
-- a trip satisfies the invariant: its days have distinct identifiers and indices and dates in its
-- range, and the items of a day have distinct identifiers and slots that do not overlap.
pub history-IsValid :
    (uuid : String) (input : CreateTripInput) (s t : Trip)
    → Aggregate.create uuid input ≡ ok s
    → Reach s t
    → IsValid t
history-IsValid uuid input s t e r = Reach-IsValid (Keeps.create-IsValid uuid input s e) r
