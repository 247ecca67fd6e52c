-- ===== src/Guards/RateLimit.antt =====
-- The limit on the rate of nearby searches: how many requests of a client pass in a window.
use recommendation_trip_plat.Base.{
  leb, if◌then◌else◌, leb→le, Bool-cases, length, All, AppError, Outcome, after, ℕ, suc, ◌+◌, ◌-◌,
  ◌/◌, ◌≤◌, ◌<◌, String, ◌≡◌, refl, ap, inl, inr, Bool, true, false, Option, none, some, List, [],
  ◌∷◌, arith, ◌==◌, eq_refl, too_many_nearby_requests, done, fail,
}
use recommendation_trip_plat.Guards.{
  HitBucket, Hits, max_requests_per_window, window_ms, set_hits, is_expired, hit,
  nearby_can_activate,
}

abbrev pub admitted : Outcome Hits Bool → ℕ
admitted (done b hits) = 1
admitted (fail e hits) = 0

-- How many requests of a client at the given times pass, one after the other.
abbrev pub burst : String → List ℕ → Hits → ℕ
burst key [] hits = 0
burst key (t ∷ ts) hits =
    let o = nearby_can_activate key t hits in admitted o + burst key ts (after o)

abbrev pub minimum : ℕ → ℕ → ℕ
minimum a b = if leb a b then a else b

-- A bucket that a request at the time `t` replaces.
abbrev pub IsRenewed : ℕ → Option HitBucket → Type 0
IsRenewed t none = Unit
IsRenewed t (some bucket) = bucket.window_start_ms + window_ms ≤ t

-- A time in the window that begins at `start`.
abbrev pub IsWithin : ℕ → ℕ → Type 0
IsWithin start t = t < start + window_ms

set_hits-here :
    (key : String) (bucket : HitBucket) (hits : Hits) → set_hits key bucket hits key ≡ some bucket
set_hits-here key bucket hits = ap (λ (b : Bool). if b then some bucket else hits key) (eq_refl key)

hit-full :
    (key : String) (t : ℕ) (bucket : HitBucket) (hits : Hits)
    → IsWithin bucket.window_start_ms t
    → 30 ≤ bucket.count
    → (e : AppError) × (hit key t (some bucket) hits ≡ fail e hits)
hit-full key t bucket hits w c =
    (too_many_nearby_requests ((bucket.window_start_ms + window_ms - t + 999) / 1000), ground arith)

hit-room :
    (key : String) (t : ℕ) (bucket : HitBucket) (hits : Hits)
    → IsWithin bucket.window_start_ms t
    → bucket.count < 30
    → hit key t (some bucket) hits
      ≡ done true (set_hits key (record bucket { count = bucket.count + 1 }) hits)
hit-room key t bucket hits w c = ground arith

step_full : (n c x : ℕ) → 30 ≤ c → x ≡ minimum n (30 - c) → 0 + x ≡ minimum (suc n) (30 - c)
step_full n c x h e = ground arith

step_room : (n c x : ℕ) → c < 30 → x ≡ minimum n (30 - (c + 1)) → 1 + x ≡ minimum (suc n) (30 - c)
step_room n c x h e = ground arith

burst-minimum :
    (key : String) (ts : List ℕ) (bucket : HitBucket) (hits : Hits)
    → hits key ≡ some bucket
    → All (IsWithin bucket.window_start_ms) ts
    → burst key ts hits ≡ minimum (length ts) (30 - bucket.count)
unfolding nearby_can_activate
burst-minimum key [] bucket hits h w = ground arith
burst-minimum key (t ∷ ts) bucket hits h (w, ws) = elim (Bool-cases (leb 30 bucket.count)) [
  | inl full ↦
      let (e, q) = hit-full key t bucket hits w (leb→le 30 bucket.count full) in
      rw h (
        rw q (
          step_full (length ts) bucket.count (burst key ts hits) (leb→le 30 bucket.count full)
            (burst-minimum key ts bucket hits h ws)))
  | inr room ↦
      let low : bucket.count < 30 = ground arith in
      let q = hit-room key t bucket hits w low in
      let next : HitBucket = record bucket { count = bucket.count + 1 } in
      rw h (
        rw q (
          step_room (length ts) bucket.count (burst key ts (set_hits key next hits)) low
            (burst-minimum key ts next (set_hits key next hits) (set_hits-here key next hits) ws)))
]

hit-renewed :
    (key : String) (t : ℕ) (o : Option HitBucket) (hits : Hits)
    → IsRenewed t o
    → hit key t o hits ≡ done true (set_hits key (record { window_start_ms = t; count = 1 }) hits)
hit-renewed key t none hits r = refl
hit-renewed key t (some bucket) hits r = ground arith

-- Of the requests of a client in the window that its first request opens, exactly the first thirty pass.
pub burst_limit :
    (key : String) (t : ℕ) (ts : List ℕ) (hits : Hits)
    → IsRenewed t (hits key)
    → All (IsWithin t) ts
    → burst key (t ∷ ts) hits ≡ minimum (length (t ∷ ts)) max_requests_per_window
unfolding nearby_can_activate
burst_limit key t ts hits r w =
    let opened : HitBucket = record { window_start_ms = t; count = 1 } in
    rw (hit-renewed key t (hits key) hits r) (
      step_room (length ts) 0 (burst key ts (set_hits key opened hits)) (ground arith)
        (burst-minimum key ts opened (set_hits key opened hits) (set_hits-here key opened hits) w))

hit-other :
    (key other : String) (t : ℕ) (o : Option HitBucket) (hits : Hits)
    → (key == other) ≡ false
    → after (hit key t o hits) other ≡ hits other
hit-other key other t none hits h = rw h
hit-other key other t (some bucket) hits h = elim (Bool-cases (is_expired t bucket)) [
  | inl e ↦ rw e (rw h)
  | inr e ↦ rw e (elim (Bool-cases (leb max_requests_per_window bucket.count)) [
    | inl full ↦ rw full
    | inr room ↦ rw room (rw h)
  ])
]

-- A request of one client leaves the hits of every other client alone.
pub nearby_other :
    (key other : String) (t : ℕ) (hits : Hits)
    → (key == other) ≡ false
    → after (nearby_can_activate key t hits) other ≡ hits other
unfolding nearby_can_activate
nearby_other key other t hits h = hit-other key other t (hits key) hits h
