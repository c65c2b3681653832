-- ===== src/Sql/Keys.antt =====
-- A table keeps its primary key: no row has the key of a row that follows it.
use guillotina_oauth_server.Prelude.{
  ℕ, zero, suc, ◌≡◌, refl, Bool, none, some, List, [], ◌∷◌, ◌++◌, arith, Option-cases, inl, inr,
  subst,
}
use guillotina_oauth_server.Sql.{select_row, update_rows, delete_rows, delete_limited, insert_row}
use guillotina_oauth_server.Sql.Select.{
  select_row-delete_rows_keeps, select_row-delete_limited_keeps, select_row-append,
}

-- `same r x` says that `x` has the primary key of `r`.
abbrev pub IsUnique : {R : Type 0} → (R → R → Bool) → List R → Type 0
IsUnique same [] = Unit
IsUnique same (r ∷ rows) = (select_row (same r) rows ≡ none) × IsUnique same rows

module _ {R : Type 0} (same : R → R → Bool) where
  pub delete_rows-IsUnique :
      (p : R → Bool) (rows : List R) → IsUnique same rows → IsUnique same (delete_rows p rows)
  unfolding delete_rows
  delete_rows-IsUnique p [] u = tt
  delete_rows-IsUnique p (r ∷ rows) u =
      ground
        (arith, delete_rows-IsUnique p rows u.1, select_row-delete_rows_keeps (same r) p rows u.0)

  pub delete_limited-IsUnique :
      (n : ℕ) (p : R → Bool) (rows : List R)
      → IsUnique same rows
      → IsUnique same (delete_limited n p rows)
  unfolding delete_limited
  delete_limited-IsUnique n p [] u = tt
  delete_limited-IsUnique zero p (r ∷ rows) u = u
  delete_limited-IsUnique (suc n) p (r ∷ rows) u = ground (
    arith,
    delete_limited-IsUnique n p rows u.1,
    delete_limited-IsUnique (suc n) p rows u.1,
    select_row-delete_limited_keeps (same r) (suc n) p rows u.0,
  )

  -- An update may change anything but the key.
  module _ (f : R → R)
      (keeps_key : (r x : R) → (same r (f x) ≡ same r x) × (same (f r) x ≡ same r x)) where
    key-update_rows :
        (p : R → Bool) (r : R) (rows : List R)
        → select_row (same r) rows ≡ none
        → (select_row (same r) (update_rows p f rows) ≡ none)
          × (select_row (same (f r)) (update_rows p f rows) ≡ none)
    unfolding select_row update_rows
    key-update_rows p r [] e = (refl, refl)
    key-update_rows p r (x ∷ rows) e =
        ground (arith, keeps_key r x, keeps_key r (f x), key-update_rows p r rows)

    pub update_rows-IsUnique :
        (p : R → Bool) (rows : List R) → IsUnique same rows → IsUnique same (update_rows p f rows)
    unfolding update_rows
    update_rows-IsUnique p [] u = tt
    update_rows-IsUnique p (r ∷ rows) u =
        ground (arith, update_rows-IsUnique p rows u.1, key-update_rows p r rows u.0)

  append-IsUnique :
      (symmetric : (r x : R) → same r x ≡ same x r) (row : R) (rows : List R)
      → select_row (same row) rows ≡ none
      → IsUnique same rows
      → IsUnique same (rows ++ row ∷ [])
  unfolding select_row
  append-IsUnique symmetric row [] e u = (refl, tt)
  append-IsUnique symmetric row (r ∷ rows) e u = ground (
    arith,
    symmetric r row,
    select_row-append (same r) rows row,
    append-IsUnique symmetric row rows,
  )

  -- An INSERT that goes through has found the key free.
  pub insert_row-IsUnique :
      (symmetric : (r x : R) → same r x ≡ same x r) (row : R) (rows : List R)
      → IsUnique same rows
      → {rows' : List R} → insert_row (same row) row rows ≡ some rows'
      → IsUnique same rows'
  unfolding insert_row
  insert_row-IsUnique symmetric row rows u {rows'} h =
      elim (Option-cases (select_row (same row) rows)) [
        | inl e ↦
            let same_rows : rows ++ row ∷ [] ≡ rows' = ground arith in
            subst (IsUnique same) same_rows (append-IsUnique symmetric row rows e u)
        | inr (x, e) ↦ absurd (ground arith)
      ]
