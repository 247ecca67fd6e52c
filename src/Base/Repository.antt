-- ===== src/Base/Repository.antt =====
-- The repositories of TypeORM, as far as the services use them: a `where` clause is a test on the
-- rows, and a row has the columns of its entity. What a repository does is an argument; its laws say
-- which rows the table has after each operation.
pub mod Laws
pub mod Tables
use recommendation_trip_plat.Base.{
  if◌then◌else◌, length, filter, All, after, ◌+◌, ◌-◌, ◌≡◌, ◌↔◌, Bool, not, Option, none, some,
  List, [], ◌∷◌, ◌++◌,
}

pub record Repository (S R : Type 0) : Type 0 where
  -- `findOne({ where })` and `find({ where })`, the rows in the order that the query asks for.
  pub find_one : (R → Bool) → S → Option R
  pub find : (R → Bool) → S → List R
  -- `save` of an entity that is not stored yet, and `update(where, columns)`.
  pub insert : R → S → S
  pub update : (R → Bool) → (R → R) → S → S

abbrev pub change_rows {ℓ} : {R : Type ℓ} → (R → Bool) → (R → R) → List R → List R
change_rows p f [] = []
change_rows p f (r ∷ rs) = (if p r then f r else r) ∷ change_rows p f rs

-- What the services rely on: a query returns the stored rows that pass the test and no others, each
-- as often as it is stored, and a change meets exactly the rows that pass it.
pub record RepositoryLaws {S R : Type 0} (repository : Repository S R) : Type 1 where
  pub rows : S → List R
  pub find-All :
      (P : R → Type 0) (p : R → Bool) (s : S)
      → All P (filter p (rows s)) ↔ All P (repository.find p s)
  pub find_length :
      (p : R → Bool) (s : S) → length (repository.find p s) ≡ length (filter p (rows s))
  pub find_one-All :
      (P : R → Type 0) (p : R → Bool) (s : S) (r : R)
      → repository.find_one p s ≡ some r
      → All P (filter p (rows s))
      → P r
  pub find_one_none :
      (p : R → Bool) (s : S) → repository.find_one p s ≡ none → filter p (rows s) ≡ []
  pub rows_insert : (r : R) (s : S) → rows (repository.insert r s) ≡ rows s ++ r ∷ []
  pub rows_update :
      (p : R → Bool) (f : R → R) (s : S) → rows (repository.update p f s) ≡ change_rows p f (rows s)
