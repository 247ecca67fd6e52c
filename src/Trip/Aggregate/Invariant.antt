-- ===== src/Trip/Aggregate/Invariant.antt =====
-- The invariant of a trip, and the changes of its days and items that keep it.
use recommendation_trip_plat.Base.{
  AllPairs-filter, All-filter, filter, AllPairs-update_first_same, Bool, ◌↔◌, ◌∙◌, ℕ, String, ◌≡◌,
  ◌≢◌, true, false, ok, [], ◌∷◌, ◌++◌, All, AllPairs, All-append, All-map, All-update_first,
  AllPairs-push, AllPairs-update_first, AllPairs-key, eq_iff, arith, sym,
}
use recommendation_trip_plat.Trip.TimeSlot.{TimeSlot, overlaps}
use recommendation_trip_plat.Trip.TimeSlot.Laws
use recommendation_trip_plat.Trip.DateRange.{TripDateRange, text, contains_date}
use recommendation_trip_plat.Trip.Entities.{TripItem, TripDay}
use recommendation_trip_plat.Trip.Aggregate.{Trip, has_day_id, has_item_id, on_day, on_item}

abbrev pub Apart : TripItem → TripItem → Type 0
Apart a b = overlaps a.time_slot b.time_slot ≡ false

-- Of a day in a trip with the given identifier and range: it belongs to the trip, its date is in the
-- range, its items belong to it and have distinct identifiers, and their slots are valid and do not
-- overlap.
pub record IsValidDay (trip_id : String) (range : TripDateRange) (d : TripDay) : Type 0 where
  pub owned : d.trip_id ≡ trip_id
  pub in_range : contains_date range (text d.date) ≡ ok true
  pub items_owned : All (λ (i : TripItem). i.trip_day_id ≡ d.id) d.items
  pub item_ids : AllPairs (λ (a b : TripItem). a.id ≢ b.id) d.items
  pub slots : All (λ (i : TripItem). Laws.IsValid i.time_slot) d.items
  pub apart : AllPairs Apart d.items

-- Of a trip: its days are valid, and have distinct identifiers and distinct indices.
pub record IsValid (t : Trip) : Type 0 where
  pub day_ids : AllPairs (λ (a b : TripDay). a.id ≢ b.id) t.days
  pub indices : AllPairs (λ (a b : TripDay). a.day_index ≢ b.day_index) t.days
  pub valid_days : All (IsValidDay t.id t.date_range) t.days

pub overlaps_symm : (a b : TimeSlot) → overlaps a b ≡ overlaps b a
unfolding overlaps
overlaps_symm a b = ground arith

pub has_day_id_iff : (id : String) (d : TripDay) → (has_day_id id d ≡ true) ↔ (d.id ≡ id)
has_day_id_iff id d = eq_iff d.id id

one_day :
    (id : String) (t : Trip)
    → IsValid t
    → AllPairs (λ (a b : TripDay). has_day_id id a ≡ true → has_day_id id b ≡ false) t.days
one_day id t v =
    AllPairs-key (λ (d : TripDay). d.id) (has_day_id id) id t.days (has_day_id_iff id) v.day_ids

-- A change of one day that keeps its identifier and its index.
pub on_day-IsValid :
    (id : String) (f : TripDay → TripDay) (t : Trip)
    → ((d : TripDay) → (f d).id ≡ d.id)
    → ((d : TripDay) → (f d).day_index ≡ d.day_index)
    → ((d : TripDay)
        → has_day_id id d ≡ true
        → IsValidDay t.id t.date_range d
        → IsValidDay t.id t.date_range (f d))
    → IsValid t
    → IsValid (on_day id f t)
on_day-IsValid id f t same_id same_index keep v = record {
  day_ids =
      AllPairs-update_first_same (λ (a b : TripDay). a.id ≢ b.id) (has_day_id id) f t.days
        (λ x y _ r. rw same_id r) (λ x y _ r. rw same_id r) v.day_ids;
  indices =
      AllPairs-update_first_same (λ (a b : TripDay). a.day_index ≢ b.day_index) (has_day_id id) f
        t.days (λ x y _ r. rw same_index r) (λ x y _ r. rw same_index r) v.indices;
  valid_days =
      All-update_first (IsValidDay t.id t.date_range) (has_day_id id) f t.days keep v.valid_days;
}

-- A change of the index of one day to an index that no other day has.
pub change_index-IsValid :
    (id : String) (k : ℕ) (t : Trip)
    → All (λ d. has_day_id id d ≡ false → d.day_index ≢ k) t.days
    → IsValid t
    → IsValid (on_day id (λ d. record d { day_index = k }) t)
change_index-IsValid id k t free v = record {
  day_ids =
      AllPairs-update_first_same (λ (a b : TripDay). a.id ≢ b.id) (has_day_id id)
        (λ d. record d { day_index = k }) t.days (λ x y _ r. r) (λ x y _ r. r) v.day_ids;
  indices =
      AllPairs-update_first (λ (a b : TripDay). a.day_index ≢ b.day_index) (has_day_id id)
        (λ d. record d { day_index = k }) t.days
        (λ x _. All-map (λ y w e. (λ q. w e (sym q), w e)) t.days free) (one_day id t v) v.indices;
  valid_days =
      All-update_first (IsValidDay t.id t.date_range) (has_day_id id)
        (λ d. record d { day_index = k }) t.days
        (λ d _ w. record {
          owned = w.owned;
          in_range = w.in_range;
          items_owned = w.items_owned;
          item_ids = w.item_ids;
          slots = w.slots;
          apart = w.apart;
        })
        v.valid_days;
}

module _ (trip_id : String) (range : TripDateRange) (d : TripDay)
    (v : IsValidDay trip_id range d) where
  pub change_date-IsValidDay :
      (date : String)
      → contains_date range (text date) ≡ ok true
      → IsValidDay trip_id range (record d { date = date })
  change_date-IsValidDay date e = record {
    owned = v.owned;
    in_range = e;
    items_owned = v.items_owned;
    item_ids = v.item_ids;
    slots = v.slots;
    apart = v.apart;
  }

  pub push_item-IsValidDay :
      (i : TripItem)
      → i.trip_day_id ≡ d.id
      → All (λ (j : TripItem). j.id ≢ i.id) d.items
      → Laws.IsValid i.time_slot
      → All (λ j. Apart j i) d.items
      → IsValidDay trip_id range (record d { items = d.items ++ i ∷ [] })
  push_item-IsValidDay i own fresh slot free = record {
    owned = v.owned;
    in_range = v.in_range;
    items_owned =
        All-append (λ (i : TripItem). i.trip_day_id ≡ d.id) d.items (i ∷ []) v.items_owned
          (own, tt);
    item_ids = AllPairs-push (λ (a b : TripItem). a.id ≢ b.id) d.items i fresh v.item_ids;
    slots =
        All-append (λ (i : TripItem). Laws.IsValid i.time_slot) d.items (i ∷ []) v.slots (slot, tt);
    apart = AllPairs-push Apart d.items i free v.apart;
  }

  one_item :
      (id : String)
      → AllPairs (λ (a b : TripItem). has_item_id id a ≡ true → has_item_id id b ≡ false) d.items
  one_item id =
      AllPairs-key (λ (i : TripItem). i.id) (has_item_id id) id d.items (λ i. eq_iff i.id id)
        v.item_ids

  -- The slot of one item is replaced by one that overlaps none of the others.
  pub set_slot-IsValidDay :
      (id : String) (slot : TimeSlot)
      → Laws.IsValid slot
      → All (λ (j : TripItem). has_item_id id j ≡ false → overlaps j.time_slot slot ≡ false) d.items
      → IsValidDay trip_id range (on_item id (λ (i : TripItem). record i { time_slot = slot }) d)
  set_slot-IsValidDay id slot ok_slot free =
      let f = λ (i : TripItem). record i { time_slot = slot } in
      record {
        owned = v.owned;
        in_range = v.in_range;
        items_owned =
            All-update_first (λ (i : TripItem). i.trip_day_id ≡ d.id) (has_item_id id) f d.items
              (λ i _ h. h) v.items_owned;
        item_ids =
            AllPairs-update_first_same (λ (a b : TripItem). a.id ≢ b.id) (has_item_id id) f d.items
              (λ x y _ r. r) (λ x y _ r. r) v.item_ids;
        slots =
            All-update_first (λ (i : TripItem). Laws.IsValid i.time_slot) (has_item_id id) f d.items
              (λ i _ h. ok_slot) v.slots;
        apart =
            AllPairs-update_first Apart (has_item_id id) f d.items
              (λ x _. All-map (λ y w e. (overlaps_symm slot y.time_slot ∙ w e, w e)) d.items free)
              (one_item id) v.apart;
      }

  -- A change of one item that keeps its identifier, its day and its slot.
  pub on_item-IsValidDay :
      (id : String) (f : TripItem → TripItem)
      → ((i : TripItem)
          → ((f i).id ≡ i.id)
            × ((f i).trip_day_id ≡ i.trip_day_id)
            × ((f i).time_slot ≡ i.time_slot))
      → IsValidDay trip_id range (on_item id f d)
  on_item-IsValidDay id f same = record {
    owned = v.owned;
    in_range = v.in_range;
    items_owned =
        All-update_first (λ (i : TripItem). i.trip_day_id ≡ d.id) (has_item_id id) f d.items
          (λ i _ h. (same i).1 ∙ h) v.items_owned;
    item_ids =
        AllPairs-update_first_same (λ (a b : TripItem). a.id ≢ b.id) (has_item_id id) f d.items
          (λ x y _ r. rw (same x).0 r) (λ x y _ r. rw (same y).0 r) v.item_ids;
    slots =
        All-update_first (λ (i : TripItem). Laws.IsValid i.time_slot) (has_item_id id) f d.items
          (λ i _ h. rw (same i).2 h) v.slots;
    apart =
        AllPairs-update_first_same Apart (has_item_id id) f d.items (λ x y _ r. rw (same x).2 r)
          (λ x y _ r. rw (same y).2 r) v.apart;
  }

  pub filter_items-IsValidDay :
      (p : TripItem → Bool) → IsValidDay trip_id range (record d { items = filter p d.items })
  filter_items-IsValidDay p = record {
    owned = v.owned;
    in_range = v.in_range;
    items_owned = All-filter (λ (i : TripItem). i.trip_day_id ≡ d.id) p d.items v.items_owned;
    item_ids = AllPairs-filter (λ (a b : TripItem). a.id ≢ b.id) p d.items v.item_ids;
    slots = All-filter (λ (i : TripItem). Laws.IsValid i.time_slot) p d.items v.slots;
    apart = AllPairs-filter Apart p d.items v.apart;
  }
