-- ===== src/Trip/Entities.antt =====
-- modules/trip/domain/entities/trip-item.entity.ts and trip-day.entity.ts. An entity is the record
-- of its `props`; a method that assigns to them returns the new record.
use recommendation_trip_plat.Base.{
  ℕ, String, Bool, not, List, [], ◌∷◌, ◌++◌, Option, Result, and_then, ok, length, find?, filter,
  ltb, ◌==◌,
}
use recommendation_trip_plat.Trip.TimeSlot.{TimeSlot, new_time_slot}

pub record TripItem : Type 0 where
  pub id : String
  pub trip_day_id : String
  pub place_id : String
  pub type : String
  pub note : Option String
  pub sort_order : ℕ
  pub time_slot : TimeSlot

-- The constructor of the slot may throw; the item is then as it was.
unfoldable pub change_time : TripItem → String → String → Result TripItem
change_time this start_time end_time =
    and_then (new_time_slot start_time end_time) λ slot. ok (record this { time_slot = slot })

unfoldable pub change_place : String → TripItem → TripItem
change_place place_id this = record this { place_id = place_id }

unfoldable pub change_type : String → TripItem → TripItem
change_type type this = record this { type = type }

unfoldable pub change_note : Option String → TripItem → TripItem
change_note note this = record this { note = note }

unfoldable pub change_sort_order : ℕ → TripItem → TripItem
change_sort_order sort_order this = record this { sort_order = sort_order }

pub record TripDay : Type 0 where
  pub id : String
  pub trip_id : String
  pub day_index : ℕ
  pub date : String
  pub items : List TripItem

unfoldable pub change_day_index : ℕ → TripDay → TripDay
change_day_index day_index this = record this { day_index = day_index }

unfoldable pub change_date : String → TripDay → TripDay
change_date date this = record this { date = date }

unfoldable pub find_item : String → TripDay → Option TripItem
find_item item_id this = find? (λ item. item.id == item_id) this.items

unfoldable pub has_any_item : TripDay → Bool
has_any_item this = ltb 0 (length this.items)

unfoldable pub add_item : TripItem → TripDay → TripDay
add_item item this = record this { items = this.items ++ item ∷ [] }

-- The day without the item, and whether an item was removed.
unfoldable pub remove_item : String → TripDay → TripDay × Bool
remove_item item_id this =
    let items = filter (λ item. not (item.id == item_id)) this.items in
    (record this { items = items }, ltb (length items) (length this.items))
