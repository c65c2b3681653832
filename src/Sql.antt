-- ===== src/Sql.antt =====
-- What the SQL statements of storage/pg/repository.py do to one table: a table is the list of its
-- rows in scan order, and a WHERE clause is a test on a row.
pub mod Select
pub mod Keys
use guillotina_oauth_server.Prelude.{
  ℕ, zero, suc, ◌+◌, String, ◌≡◌, Bool, true, false, ◌&&◌, Option, none, some, List, [], ◌∷◌, ◌++◌,
  ◌==◌, if◌then◌else◌, is_some,
}

-- `column = value`, where a NULL column equals nothing
unfoldable pub sql_eq : Option String → String → Bool
sql_eq none v = false
sql_eq (some u) v = u == v

module _ {R : Type 0} where
  -- SELECT … WHERE p, all rows
  unfoldable pub select_rows : (R → Bool) → List R → List R
  select_rows p [] = []
  select_rows p (r ∷ rows) = let rest = select_rows p rows in if p r then r ∷ rest else rest

  -- SELECT … WHERE p, the first row
  unfoldable pub select_row : (R → Bool) → List R → Option R
  select_row p [] = none
  select_row p (r ∷ rows) = let rest = select_row p rows in if p r then some r else rest

  -- UPDATE … SET f WHERE p
  unfoldable pub update_rows : (R → Bool) → (R → R) → List R → List R
  update_rows p f [] = []
  update_rows p f (r ∷ rows) = (if p r then f r else r) ∷ update_rows p f rows

  -- DELETE … WHERE p
  unfoldable pub delete_rows : (R → Bool) → List R → List R
  delete_rows p [] = []
  delete_rows p (r ∷ rows) = let rest = delete_rows p rows in if p r then rest else r ∷ rest

  -- DELETE … WHERE key IN (SELECT key … WHERE p LIMIT n): the first n in scan order
  unfoldable pub delete_limited : ℕ → (R → Bool) → List R → List R
  delete_limited n p [] = []
  delete_limited zero p (r ∷ rows) = r ∷ rows
  delete_limited (suc n) p (r ∷ rows) =
      let found = delete_limited n p rows in
      let other = r ∷ delete_limited (suc n) p rows in if p r then found else other

  -- The number of rows that a statement reports, as in "UPDATE 3".
  unfoldable pub count_rows : (R → Bool) → List R → ℕ
  count_rows p [] = 0
  count_rows p (r ∷ rows) = (if p r then 1 else 0) + count_rows p rows

  -- INSERT of a row whose primary key the test recognises: `none` if the key is taken.
  unfoldable pub insert_row : (R → Bool) → R → List R → Option (List R)
  unfolding select_row
  insert_row same_key r rows =
      if is_some (select_row same_key rows) then none else some (rows ++ r ∷ [])
