-- ===== src/Sql/Select.antt =====
-- What a SELECT sees after another statement, for any tests on rows.
use guillotina_oauth_server.Prelude.{
  ℕ, zero, suc, ◌+◌, ◌≤◌, ◌≡◌, refl, Bool, true, false, Option, none, some, List, [], ◌∷◌, ◌++◌,
  arith, if◌then◌else◌, length, ltb, Bool-cases, Option-cases, map_option, is_some, ◌⊎◌, inl, inr,
}
use guillotina_oauth_server.Sql.{
  select_rows, select_row, update_rows, delete_rows, delete_limited, count_rows, insert_row,
}

abbrev pub first_of_two {ℓ} : {A : Type ℓ} → Option A → Option A → Option A
first_of_two none o = o
first_of_two (some a) o = some a

module _ {R : Type 0} (q : R → Bool) where
  pub select_row_sound : (rows : List R) {r : R} → select_row q rows ≡ some r → q r ≡ true
  unfolding select_row
  select_row_sound [] h = cc
  select_row_sound (x ∷ rows) {r} h = elim (Bool-cases (q x)) [
    | inl e ↦ ground arith
    | inr e ↦ select_row_sound rows (ground arith)
  ]

  pub select_row-append :
      (rows : List R) (r : R)
      → select_row q (rows ++ r ∷ [])
        ≡ first_of_two (select_row q rows) (if q r then some r else none)
  unfolding select_row
  select_row-append [] r = ground arith
  select_row-append (x ∷ rows) r = ground (arith, select_row-append rows r)

  pub select_rows-append :
      (rows : List R) (r : R) → q r ≡ false → select_rows q (rows ++ r ∷ []) ≡ select_rows q rows
  unfolding select_rows
  select_rows-append [] r h = ground arith
  select_rows-append (x ∷ rows) r h = ground (arith, select_rows-append rows r h)

  -- A deletion removes what its test takes …
  pub select_row-delete_rows-none :
      (p : R → Bool)
      → ((r : R) → q r ≡ true → p r ≡ true)
      → (rows : List R) → select_row q (delete_rows p rows) ≡ none
  unfolding select_row delete_rows
  select_row-delete_rows-none p h [] = refl
  select_row-delete_rows-none p h (r ∷ rows) =
      ground (arith, h r, select_row-delete_rows-none p h rows)

  -- … and nothing else.
  pub select_row-delete_rows_same :
      (p : R → Bool)
      → ((r : R) → p r ≡ true → q r ≡ false)
      → (rows : List R) → select_row q (delete_rows p rows) ≡ select_row q rows
  unfolding select_row delete_rows
  select_row-delete_rows_same p h [] = refl
  select_row-delete_rows_same p h (r ∷ rows) =
      ground (arith, h r, select_row-delete_rows_same p h rows)

  pub select_rows-delete_rows :
      (p : R → Bool)
      → ((r : R) → p r ≡ true → q r ≡ false)
      → (rows : List R) → select_rows q (delete_rows p rows) ≡ select_rows q rows
  unfolding select_rows delete_rows
  select_rows-delete_rows p h [] = refl
  select_rows-delete_rows p h (r ∷ rows) = ground (arith, h r, select_rows-delete_rows p h rows)

  pub select_rows-delete_rows_nil :
      (p : R → Bool)
      → ((r : R) → q r ≡ true → p r ≡ true)
      → (rows : List R) → select_rows q (delete_rows p rows) ≡ []
  unfolding select_rows delete_rows
  select_rows-delete_rows_nil p h [] = refl
  select_rows-delete_rows_nil p h (r ∷ rows) =
      ground (arith, h r, select_rows-delete_rows_nil p h rows)

  pub select_row-delete_limited :
      (n : ℕ) (p : R → Bool)
      → ((r : R) → p r ≡ true → q r ≡ false)
      → (rows : List R) → select_row q (delete_limited n p rows) ≡ select_row q rows
  unfolding select_row delete_limited
  select_row-delete_limited n p h [] = refl
  select_row-delete_limited zero p h (r ∷ rows) = refl
  select_row-delete_limited (suc n) p h (r ∷ rows) =
      ground (
        arith,
        h r,
        select_row-delete_limited n p h rows,
        select_row-delete_limited (suc n) p h rows,
      )

  pub select_rows-delete_limited :
      (n : ℕ) (p : R → Bool)
      → ((r : R) → p r ≡ true → q r ≡ false)
      → (rows : List R) → select_rows q (delete_limited n p rows) ≡ select_rows q rows
  unfolding select_rows delete_limited
  select_rows-delete_limited n p h [] = refl
  select_rows-delete_limited zero p h (r ∷ rows) = refl
  select_rows-delete_limited (suc n) p h (r ∷ rows) = ground (
    arith,
    h r,
    select_rows-delete_limited n p h rows,
    select_rows-delete_limited (suc n) p h rows,
  )

  -- An update of rows that `q` selects neither before nor after it.
  pub select_row-update_rows_same :
      (p : R → Bool) (f : R → R)
      → ((r : R) → p r ≡ true → (q r ≡ false) × (q (f r) ≡ false))
      → (rows : List R) → select_row q (update_rows p f rows) ≡ select_row q rows
  unfolding select_row update_rows
  select_row-update_rows_same p f h [] = refl
  select_row-update_rows_same p f h (r ∷ rows) =
      ground (arith, h r, select_row-update_rows_same p f h rows)

  pub select_rows-update_rows :
      (p : R → Bool) (f : R → R)
      → ((r : R) → p r ≡ true → (q r ≡ false) × (q (f r) ≡ false))
      → (rows : List R) → select_rows q (update_rows p f rows) ≡ select_rows q rows
  unfolding select_rows update_rows
  select_rows-update_rows p f h [] = refl
  select_rows-update_rows p f h (r ∷ rows) = ground (arith, h r, select_rows-update_rows p f h rows)

  -- An update that leaves no row which `q` selects.
  pub select_row-update_rows-none :
      (p : R → Bool) (f : R → R)
      → ((r : R) → q (if p r then f r else r) ≡ false)
      → (rows : List R) → select_row q (update_rows p f rows) ≡ none
  unfolding select_row update_rows
  select_row-update_rows-none p f h [] = refl
  select_row-update_rows-none p f h (r ∷ rows) =
      ground (arith, h r, select_row-update_rows-none p f h rows)

  -- An update that selects nothing new keeps an empty selection empty.
  pub select_row-update_rows_keeps :
      (p : R → Bool) (f : R → R)
      → ((r : R) → q (f r) ≡ true → q r ≡ true)
      → (rows : List R) → select_row q rows ≡ none
      → select_row q (update_rows p f rows) ≡ none
  unfolding select_row update_rows
  select_row-update_rows_keeps p f h [] e = refl
  select_row-update_rows_keeps p f h (r ∷ rows) e =
      ground (arith, h r, select_row-update_rows_keeps p f h rows)

  -- So does a deletion.
  pub select_row-delete_rows_keeps :
      (p : R → Bool) (rows : List R)
      → select_row q rows ≡ none
      → select_row q (delete_rows p rows) ≡ none
  unfolding select_row delete_rows
  select_row-delete_rows_keeps p [] e = refl
  select_row-delete_rows_keeps p (r ∷ rows) e = ground (arith, select_row-delete_rows_keeps p rows)

  pub select_row-delete_limited_keeps :
      (n : ℕ) (p : R → Bool) (rows : List R)
      → select_row q rows ≡ none
      → select_row q (delete_limited n p rows) ≡ none
  unfolding select_row delete_limited
  select_row-delete_limited_keeps n p [] e = refl
  select_row-delete_limited_keeps zero p (r ∷ rows) e = e
  select_row-delete_limited_keeps (suc n) p (r ∷ rows) e = ground (
    arith,
    select_row-delete_limited_keeps n p rows,
    select_row-delete_limited_keeps (suc n) p rows,
  )

  -- A stronger test selects nothing where a weaker one selects nothing.
  pub select_row-weaken :
      (p : R → Bool)
      → ((r : R) → q r ≡ true → p r ≡ true)
      → (rows : List R) → select_row p rows ≡ none
      → select_row q rows ≡ none
  unfolding select_row
  select_row-weaken p h [] e = refl
  select_row-weaken p h (r ∷ rows) e = ground (arith, h r, select_row-weaken p h rows)

module _ {R : Type 0} (p : R → Bool) where
  -- An UPDATE acts on each row by itself: a SELECT by columns that it leaves alone finds the same row,
  -- updated if the UPDATE takes it.
  pub select_row-update_rows :
      (q : R → Bool) (f : R → R)
      → ((r : R) → q (f r) ≡ q r)
      → (rows : List R)
      → select_row q (update_rows p f rows)
        ≡ map_option (λ r. if p r then f r else r) (select_row q rows)
  unfolding select_row update_rows
  select_row-update_rows q f same [] = refl
  select_row-update_rows q f same (r ∷ rows) =
      ground (arith, same r, select_row-update_rows q f same rows)

  -- Where there is no row to update, nothing changes.
  pub update_rows_nothing :
      (f : R → R) (rows : List R) → select_row p rows ≡ none → update_rows p f rows ≡ rows
  unfolding select_row update_rows
  update_rows_nothing f [] h = refl
  update_rows_nothing f (r ∷ rows) h = ground (arith, update_rows_nothing f rows)

  -- The count that a statement reports is positive if there is a row for it.
  pub count_rows-select_row :
      (rows : List R) → ltb 0 (count_rows p rows) ≡ is_some (select_row p rows)
  unfolding count_rows select_row
  count_rows-select_row [] = refl
  count_rows-select_row (r ∷ rows) = ground (arith, count_rows-select_row rows)

  count_rows-zero : (rows : List R) → count_rows p rows ≤ 0 → select_row p rows ≡ none
  unfolding count_rows select_row
  count_rows-zero [] h = refl
  count_rows-zero (r ∷ rows) h = ground (arith, count_rows-zero rows)

  pub length-delete_limited :
      (n : ℕ) (rows : List R) → length rows ≤ length (delete_limited n p rows) + n
  unfolding delete_limited
  length-delete_limited n [] = omega arith
  length-delete_limited zero (r ∷ rows) = omega arith
  length-delete_limited (suc n) (r ∷ rows) =
      ground (arith, length-delete_limited n rows, length-delete_limited (suc n) rows)

  -- With room for all of them, no row that the test takes is left.
  pub select_row-delete_limited-none :
      (n : ℕ) (rows : List R)
      → count_rows p rows ≤ n
      → select_row p (delete_limited n p rows) ≡ none
  unfolding delete_limited count_rows select_row
  select_row-delete_limited-none n [] h = refl
  select_row-delete_limited-none zero (r ∷ rows) h = ground (arith, count_rows-zero rows)
  select_row-delete_limited-none (suc n) (r ∷ rows) h =
      ground
        (arith, select_row-delete_limited-none n rows, select_row-delete_limited-none (suc n) rows)

-- An INSERT is refused where a row has the key, and adds the row otherwise.
pub insert_row-cases :
    {R : Type 0} (key : R → Bool) (row : R) (rows : List R)
    → (insert_row key row rows ≡ none)
      ⊎ ((select_row key rows ≡ none) × (insert_row key row rows ≡ some (rows ++ row ∷ [])))
unfolding insert_row
insert_row-cases key row rows = elim (Option-cases (select_row key rows)) [
  | inl e ↦ inr (e, rw e)
  | inr (x, e) ↦ inl (rw e)
]
