-- ===== src/Trip/TimeSlot/Laws.antt =====
-- Reading a time of day, and what a constructed slot satisfies.
use recommendation_trip_plat.Base.{
  sym, ◌∙◌, subst, ◌≢◌, ◌⊎◌, inl, inr, refl, if◌then◌else◌, leb, ℕ, ◌+◌, ◌-◌, ◌*◌, ◌/◌, ◌%◌, ◌<◌,
  ◌≤◌, ◌≡◌, ◌↔◌, String, true, List, [], ◌∷◌, Result, ok, err, invalid_time_slot, arith, Option,
  none, some,
}
use recommendation_trip_plat.Trip.TimeSlot.{
  TimeSlot, codes, time_24h_regex, minutes_of_match, to_minutes, new_time_slot, overlaps,
}

-- "HH:MM", two digits each, as code points.
abbrev pub hh_mm : ℕ → List ℕ
hh_mm n =
    (n / 60 / 10 + 48) ∷ (n / 60 % 10 + 48) ∷ b':' ∷ (n % 60 / 10 + 48) ∷ (n % 60 % 10 + 48) ∷ []

pub read-hh_mm : (n : ℕ) → n < 1440 → minutes_of_match (time_24h_regex (hh_mm n)) ≡ ok n
unfolding minutes_of_match time_24h_regex
read-hh_mm n h = ground arith

-- What a match says of the five code points.
abbrev Digits : ℕ → ℕ → ℕ → ℕ → ℕ → ℕ → ℕ → Type 0
Digits h k c m l a b =
    (48 ≤ h)
    × (48 ≤ k)
    × (k ≤ 57)
    × (c ≡ 58)
    × (48 ≤ m)
    × (m ≤ 53)
    × (48 ≤ l)
    × (l ≤ 57)
    × (a ≡ (h - 48) * 10 + (k - 48))
    × (b ≡ (m - 48) * 10 + (l - 48))
    × (a < 24)

match-Digits :
    (h k c m l a b : ℕ)
    → time_24h_regex (h ∷ k ∷ c ∷ m ∷ l ∷ []) ≡ some (a, b)
    → Digits h k c m l a b
unfolding time_24h_regex
match-Digits h k c m l a b e = ground arith

hh_mm-Digits :
    (h k c m l a b : ℕ)
    → Digits h k c m l a b
    → (a * 60 + b < 1440) × (h ∷ k ∷ c ∷ m ∷ l ∷ [] ≡ hh_mm (a * 60 + b))
hh_mm-Digits h k c m l a b d =
    (omega arith, five (omega arith) (omega arith) (omega arith) (omega arith) (omega arith))
  where
    five :
        {h k c m l h' k' c' m' l' : ℕ}
        → h ≡ h'
        → k ≡ k'
        → c ≡ c'
        → m ≡ m'
        → l ≡ l'
        → h ∷ k ∷ c ∷ m ∷ l ∷ [] ≡ h' ∷ k' ∷ c' ∷ m' ∷ l' ∷ []
    five p q r s t = cc

minutes_of_match-ok :
    (o : Option (ℕ × ℕ)) (n : ℕ)
    → minutes_of_match o ≡ ok n
    → (a : ℕ) × (b : ℕ) × (o ≡ some (a, b)) × (n ≡ a * 60 + b)
unfolding minutes_of_match
minutes_of_match-ok none n e = cc
minutes_of_match-ok (some (a, b)) n e = (a, b, refl, ground arith)

minutes_of_match-none : minutes_of_match none ≡ err (invalid_time_slot "time_slot_invalid_format")
unfolding minutes_of_match
minutes_of_match-none = refl

five_codes :
    (cs : List ℕ) (a b : ℕ)
    → time_24h_regex cs ≡ some (a, b)
    → (a * 60 + b < 1440) × (cs ≡ hh_mm (a * 60 + b))
five_codes (h ∷ k ∷ c ∷ m ∷ l ∷ []) a b e =
    hh_mm-Digits h k c m l a b (match-Digits h k c m l a b e)
five_codes _ a b e = unfold time_24h_regex in cc

pub hh_mm-read :
    (cs : List ℕ) (n : ℕ)
    → minutes_of_match (time_24h_regex cs) ≡ ok n
    → (n < 1440) × (cs ≡ hh_mm n)
hh_mm-read cs n e =
    let (a, b, matched, same) = minutes_of_match-ok (time_24h_regex cs) n e in
    rw same (five_codes cs a b matched)

abbrev pub later_of : ℕ → ℕ → ℕ
later_of a b = if leb a b then b else a

-- Each text is read as the minute that it writes, or is refused for its format; the check of the
-- range never fails.
pub to_minutes_cases :
    (time : String)
    → ((n : ℕ) × (n < 1440) × (codes time ≡ hh_mm n) × (to_minutes time ≡ ok n))
      ⊎ (((n : ℕ) → n < 1440 → codes time ≢ hh_mm n)
          × (to_minutes time ≡ err (invalid_time_slot "time_slot_invalid_format")))
unfolding to_minutes
to_minutes_cases time = go (time_24h_regex (codes time)) refl
  where
    go :
        (o : Option (ℕ × ℕ))
        → time_24h_regex (codes time) ≡ o
        → ((n : ℕ) × (n < 1440)
            × (codes time ≡ hh_mm n)
            × (minutes_of_match (time_24h_regex (codes time)) ≡ ok n))
          ⊎ (((n : ℕ) → n < 1440 → codes time ≢ hh_mm n)
              × (minutes_of_match (time_24h_regex (codes time))
                  ≡ err (invalid_time_slot "time_slot_invalid_format")))
    go none e =
        inr (λ n h w. cc (read-hh_mm n h, w, e, minutes_of_match-none), rw e minutes_of_match-none)
    go (some (a, b)) e =
        let (small, written) = five_codes (codes time) a b e in
        inl (a * 60 + b, small, written, rw written (read-hh_mm (a * 60 + b) small))

-- What every constructed slot satisfies: it starts before it ends, on one day, and its minutes are
-- those that its texts write.
pub record IsValid (s : TimeSlot) : Type 0 where
  pub ordered : s.start_minutes < s.end_minutes
  pub in_day : s.end_minutes < 1440
  pub start_read : to_minutes s.start_time ≡ ok s.start_minutes
  pub end_read : to_minutes s.end_time ≡ ok s.end_minutes

to_minutes-lt : (time : String) (n : ℕ) → to_minutes time ≡ ok n → n < 1440
unfolding to_minutes
to_minutes-lt time n e = (hh_mm-read (codes time) n e).0

pub new_time_slot-IsValid :
    (start_time end_time : String) (s : TimeSlot)
    → new_time_slot start_time end_time ≡ ok s
    → IsValid s × (s.start_time ≡ start_time) × (s.end_time ≡ end_time)
unfolding new_time_slot
new_time_slot-IsValid start_time end_time s e =
    go (to_minutes start_time) (to_minutes end_time) refl refl
  where
    go :
        (a b : Result ℕ)
        → to_minutes start_time ≡ a
        → to_minutes end_time ≡ b
        → IsValid s × (s.start_time ≡ start_time) × (s.end_time ≡ end_time)
    go (ok a) (ok b) p q = ground (arith, e, to_minutes-lt end_time b)
    go (err x) b p q = ground arith
    go (ok a) (err x) p q = ground arith

-- A slot is constructed exactly if both texts can be read and the start is before the end; it then
-- has the given texts and the minutes that they write, which are those of one day.
pub new_time_slot_iff :
    (start_time end_time : String) (s : TimeSlot)
    → (new_time_slot start_time end_time ≡ ok s)
      ↔ (IsValid s × (s.start_time ≡ start_time) × (s.end_time ≡ end_time))
unfolding new_time_slot
new_time_slot_iff start_time end_time s = (
  new_time_slot-IsValid start_time end_time s,
  λ (v, p, q).
      let a : to_minutes start_time ≡ ok s.start_minutes =
        subst (λ t. to_minutes t ≡ ok s.start_minutes) p v.start_read in
      let b : to_minutes end_time ≡ ok s.end_minutes =
        subst (λ t. to_minutes t ≡ ok s.end_minutes) q v.end_read in
      let made : new_time_slot start_time end_time
          ≡ ok (record {
            start_time = start_time;
            end_time = end_time;
            start_minutes = s.start_minutes;
            end_minutes = s.end_minutes;
          }) =
        ground (arith, a, b, v.ordered) in
      made ∙ (λ i. ok (record {
        start_time = sym p i;
        end_time = sym q i;
        start_minutes = s.start_minutes;
        end_minutes = s.end_minutes;
      })),
)

-- Two slots that start before they end overlap exactly if they share a minute.
pub overlaps_iff :
    (a b : TimeSlot)
    → a.start_minutes < a.end_minutes
    → b.start_minutes < b.end_minutes
    → (overlaps a b ≡ true) ↔ (
        (m : ℕ) × (a.start_minutes ≤ m)
        × (m < a.end_minutes)
        × (b.start_minutes ≤ m)
        × (m < b.end_minutes))
unfolding overlaps
overlaps_iff a b ha hb = (
  λ h. (
    later_of a.start_minutes b.start_minutes,
    ground arith,
    ground arith,
    ground arith,
    ground arith,
  ),
  λ h. ground arith,
)
