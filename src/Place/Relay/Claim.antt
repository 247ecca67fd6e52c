-- ===== src/Place/Relay/Claim.antt =====
-- What a claim takes: the first pending rows, no more than the batch has room for.
use recommendation_trip_plat.Base.{
  ◌&&◌, if◌then◌else◌, inr, ◌∙◌, false, ltb, inl, true, Bool, Bool-cases, arith, ◌-◌, map, List, [],
  ◌∷◌, refl, ap, ◌≡◌, ℕ, filter,
}
use recommendation_trip_plat.Place.Management.Storage.{
  OutboxRow, pending, processing, published, failed,
}
use recommendation_trip_plat.Place.Relay.{claim_rows, is_status}

-- The first `n` elements.
abbrev pub first {ℓ} : {A : Type ℓ} → ℕ → List A → List A
first n [] = []
first n (x ∷ xs) = let rest = first (n - 1) xs in if ltb 0 n then x ∷ rest else []

abbrev pub is_pending : OutboxRow → Bool
is_pending row = elim row.status [
  | pending ↦ true
  | processing ↦ false
  | published ↦ false
  | failed ↦ false
]

abbrev pub as_processing : OutboxRow → OutboxRow
as_processing row = record row { status = processing }

-- The table after the first `n` pending rows have become processing.
abbrev pub take_pending : ℕ → List OutboxRow → List OutboxRow
take_pending n [] = []
take_pending n (row ∷ rows) =
    let less = take_pending (n - 1) rows in
    let same = take_pending n rows in
    if is_pending row && ltb 0 n then as_processing row ∷ less else row ∷ same

is_status_pending : (row : OutboxRow) → is_status row.status pending ≡ is_pending row
is_status_pending row = ground arith

first_none : (xs : List OutboxRow) → first 0 xs ≡ []
first_none [] = refl
first_none (x ∷ xs) = refl

pub claim_rows-first :
    (limit : ℕ) (table : List OutboxRow)
    → ((claim_rows limit table).0 ≡ map as_processing (first limit (filter is_pending table)))
      × ((claim_rows limit table).1 ≡ take_pending limit table)
unfolding claim_rows filter
claim_rows-first limit [] = (refl, refl)
claim_rows-first limit (row ∷ rows) = elim (Bool-cases (is_pending row)) [
  | inl e ↦ elim (Bool-cases (ltb 0 limit)) [
    | inl room ↦
        let (c, r) = claim_rows-first (limit - 1) rows in
        let p : is_status row.status pending ≡ true = is_status_pending row ∙ e in
        rw p (
          rw e (rw room (ap (λ xs. as_processing row ∷ xs) c, ap (λ xs. as_processing row ∷ xs) r)))
    | inr full ↦
        let (c, r) = claim_rows-first limit rows in
        let p : is_status row.status pending ≡ true = is_status_pending row ∙ e in
        let zero : limit ≡ 0 = ground arith in
        let nothing : map as_processing (first limit (filter is_pending rows)) ≡ [] =
          ap (λ n. map as_processing (first n (filter is_pending rows))) zero
          ∙ ap (map as_processing) (first_none (filter is_pending rows)) in
        rw p (rw e (rw full (c ∙ nothing, ap (λ xs. row ∷ xs) r)))
  ]
  | inr e ↦
      let (c, r) = claim_rows-first limit rows in
      let p : is_status row.status pending ≡ false = is_status_pending row ∙ e in
      rw p (rw e (c, ap (λ xs. row ∷ xs) r))
]
