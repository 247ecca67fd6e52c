-- ===== src/Base/Repository/Tables.antt =====
-- A repository over a table in memory, which meets the laws.
use recommendation_trip_plat.Base.{
  Bool-cases, find?, filter, All, ◌≡◌, refl, subst, inl, inr, Bool, none, some, List, [], ◌∷◌, ◌++◌,
}
use recommendation_trip_plat.Base.Repository.{Repository, RepositoryLaws, change_rows}

module _ {R : Type 0} where
  pub found-All :
      (P : R → Type 0) (p : R → Bool) (xs : List R) (r : R)
      → find? p xs ≡ some r
      → All P (filter p xs)
      → P r
  unfolding find? filter
  found-All P p [] r e h = cc
  found-All P p (x ∷ xs) r e h = elim (Bool-cases (p x)) [
    | inl t ↦
        let q : some x ≡ some r = rw t at e in let same : x ≡ r = cc in subst P same (rw t at h).0
    | inr t ↦ found-All P p xs r (rw t at e) (rw t at h)
  ]

  pub found_none : (p : R → Bool) (xs : List R) → find? p xs ≡ none → filter p xs ≡ []
  unfolding find? filter
  found_none p [] e = refl
  found_none p (x ∷ xs) e = elim (Bool-cases (p x)) [
    | inl t ↦ let q : some x ≡ none = rw t at e in cc
    | inr t ↦ rw t (found_none p xs (rw t at e))
  ]

-- A table, by how its rows are read and written.
module _ {S R : Type 0} (read : S → List R) (write : List R → S → S) where
  abbrev pub table : Repository S R
  table = record {
    find_one = λ p s. find? p (read s);
    find = λ p s. filter p (read s);
    insert = λ r s. write (read s ++ r ∷ []) s;
    update = λ p f s. write (change_rows p f (read s)) s;
  }

  unfoldable pub table_laws :
      ((xs : List R) (s : S) → read (write xs s) ≡ xs) → RepositoryLaws table
  table_laws read_write = record {
    rows = read;
    find-All = λ P p s. ((λ h. h), λ h. h);
    find_length = λ p s. refl;
    find_one-All = λ P p s r e h. found-All P p (read s) r e h;
    find_one_none = λ p s e. found_none p (read s) e;
    rows_insert = λ r s. read_write (read s ++ r ∷ []) s;
    rows_update = λ p f s. read_write (change_rows p f (read s)) s;
  }
