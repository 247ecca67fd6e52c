-- ===== src/Base/Methods.antt =====
-- Methods that change an object and may throw. What was written before the throw stays written, so
-- the state is part of both outcomes.
use Prim.Native.Nat.{ℕ}
use Prim.Native.String.{String}
use mathlib.Core.Path.{◌≡◌, refl}
use mathlib.Core.Logic.{◌⊎◌, inl, inr}
use mathlib.Core.Bool.{Bool, true, false}
use mathlib.Core.Option.{Option, none, some}

-- The error classes that the modelled code throws, by their class, with the message where the
-- constructor takes one.
pub data AppError : Type 0 where
  resource_not_found : String → AppError
  invalid_time_slot invalid_trip_date_range : String → AppError
  trip_invalid_state_transition : String → AppError
  trip_confirm_empty trip_item_date_out_of_range trip_item_time_overlap : AppError
  trip_place_destination_mismatch trip_terminal_state_mutation : AppError
  invalid_workflow place_ownership : String → AppError
  place_deleted place_not_deleted review_forbidden : AppError
  chat_self_direct chat_not_member chat_empty_message : AppError
  untyped_error registration_request_invalid_state : String → AppError
  forbidden bad_request unauthorized conflict : String → AppError
  too_many_nearby_requests : (retry_after_seconds : ℕ) → AppError

-- A function that may throw and changes nothing.
pub data Result {ℓ} (A : Type ℓ) : Type ℓ where
  ok : A → Result A
  err : AppError → Result A

pub data Outcome {ℓ} (S A : Type ℓ) : Type ℓ where
  done : A → S → Outcome S A
  fail : AppError → S → Outcome S A

abbrev pub Method {ℓ} : Type ℓ → Type ℓ → Type ℓ
Method S A = S → Outcome S A

module _ {ℓ} {S A : Type ℓ} where
  abbrev pub pure : A → Method S A
  pure a s = done a s

  abbrev pub throw : AppError → Method S A
  throw e s = fail e s

  abbrev pub lift : Result A → Method S A
  lift (ok a) s = done a s
  lift (err e) s = fail e s

  -- The state that is left, whether the method returned or threw.
  abbrev pub after : Outcome S A → S
  after (done a s) = s
  after (fail e s) = s

abbrev pub modify {ℓ} : {S : Type ℓ} → (S → S) → Method S (Unit {ℓ})
modify f s = done tt (f s)

abbrev pub get {ℓ} : {S : Type ℓ} → Method S S
get s = done s s

module _ {ℓ} {S A B : Type ℓ} where
  abbrev pub continue : (A → Method S B) → Outcome S A → Outcome S B
  continue f (done a s) = f a s
  continue f (fail e s) = fail e s

  infixl 10 ◌>>=◌ ◌>>◌
  abbrev pub ◌>>=◌ : Method S A → (A → Method S B) → Method S B
  ◌>>=◌ m f s = continue f (m s)

  abbrev pub ◌>>◌ : Method S A → Method S B → Method S B
  m >> n = m >>= λ _. n

-- `if (b) throw new e`
abbrev pub reject_if {ℓ} : {S : Type ℓ} → Bool → AppError → Method S (Unit {ℓ})
reject_if true e s = fail e s
reject_if false e s = done tt s

abbrev pub or_throw {ℓ} : {S A : Type ℓ} → AppError → Option A → Method S A
or_throw e none s = fail e s
or_throw e (some a) s = done a s

abbrev pub and_then {ℓ} : {A B : Type ℓ} → Result A → (A → Result B) → Result B
and_then (ok a) f = f a
and_then (err e) f = err e

-- `if (b) m`
abbrev pub when {ℓ} : {S : Type ℓ} → Bool → Method S (Unit {ℓ}) → Method S (Unit {ℓ})
when true m = m
when false m = pure tt

-- A property of the state that a method keeps, whether it returns or throws.
abbrev pub Keeps {ℓ κ} : {S A : Type ℓ} → (S → Type κ) → Method S A → Type (ℓ ⊔ κ)
Keeps {S} P m = (s : S) → P s → P (after (m s))

module _ {ℓ κ} {S : Type ℓ} (P : S → Type κ) where
  pub Keeps-bind :
      {A B : Type ℓ} (m : Method S A) (f : A → Method S B)
      → Keeps P m
      → ((a : A) → Keeps P (f a))
      → Keeps P (m >>= f)
  Keeps-bind {A} {B} m f k l s h = go (m s) (k s h)
    where
      go : (o : Outcome S A) → P (after o) → P (after (continue f o))
      go (done a s') h' = l a s' h'
      go (fail e s') h' = h'

  -- The same for a method that has run.
  pub after-continue :
      {A B : Type ℓ} (o : Outcome S A) (f : A → Method S B)
      → P (after o)
      → ((a : A) → Keeps P (f a))
      → P (after (continue f o))
  after-continue (done a s) f h k = k a s h
  after-continue (fail e s) f h k = h

  pub Keeps-reject_if : (b : Bool) (e : AppError) → Keeps P (reject_if b e)
  Keeps-reject_if true e s h = h
  Keeps-reject_if false e s h = h

  pub Keeps-lift : {A : Type ℓ} (r : Result A) → Keeps P (lift r)
  Keeps-lift (ok a) s h = h
  Keeps-lift (err e) s h = h

  pub Keeps-or_throw : {A : Type ℓ} (e : AppError) (o : Option A) → Keeps P (or_throw e o)
  Keeps-or_throw e none s h = h
  Keeps-or_throw e (some a) s h = h

pub Result-cases {ℓ} :
    {A : Type ℓ} (r : Result A) → ((a : A) × (r ≡ ok a)) ⊎ ((e : AppError) × (r ≡ err e))
Result-cases (ok a) = inl (a, refl)
Result-cases (err e) = inr (e, refl)
