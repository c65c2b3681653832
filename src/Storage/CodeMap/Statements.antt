-- ===== src/Storage/CodeMap/Statements.antt =====
-- storage/pg/repository.py: what a SELECT by hash sees after the statements on codes.
use guillotina_oauth_server.Prelude.{
  ℕ, ◌≡◌, refl, sym, subst, String, true, false, none, List, [], ◌∷◌, ◌++◌, ◌==◌, eq_iff, arith,
  ltb, if◌then◌else◌, is_some, inl, inr, Bool-cases,
}
use guillotina_oauth_server.Sql.{select_row, delete_rows}
use guillotina_oauth_server.Sql.Select.{
  select_row-append, select_row-delete_rows_same, select_row-delete_rows-none, select_row-weaken,
  select_row-delete_rows_keeps,
}
use guillotina_oauth_server.Sql.Keys.{IsUnique}
use guillotina_oauth_server.Storage.Rows.{CodeRow}
use guillotina_oauth_server.Storage.Repository.Codes.{code_key, code_active}
use guillotina_oauth_server.Storage.PrimaryKeys.{same_code}
use guillotina_oauth_server.Storage.CodeMap.{in_time, without, with_code}

-- A row that has the key of a row has no row with the same key behind it.
key_is :
    (container hash : String) (r : CodeRow)
    → code_key container hash r ≡ true
    → (r.container_db_key ≡ container) × (r.code_hash ≡ hash)
unfolding code_key
key_is container hash r h = (
  (eq_iff r.container_db_key container).0 (ground arith),
  (eq_iff r.code_hash hash).0 (ground arith),
)

none_behind :
    (container hash : String) (r : CodeRow) (rows : List CodeRow)
    → code_key container hash r ≡ true
    → select_row (same_code r) rows ≡ none
    → select_row (code_key container hash) rows ≡ none
none_behind container hash r rows own gone =
    let key = key_is container hash r own in
    subst (λ c. select_row (code_key c hash) rows ≡ none) key.0
      (subst (λ h. select_row (code_key r.container_db_key h) rows ≡ none) key.1 gone)

active_key :
    (container hash : String) (now : ℕ) (r : CodeRow)
    → code_active container hash now r ≡ true
    → code_key container hash r ≡ true
unfolding code_active
active_key container hash now r h = ground arith

pub active_is_in_time :
    (container hash : String) (now : ℕ) (rows : List CodeRow)
    → IsUnique same_code rows
    → select_row (code_active container hash now) rows
      ≡ in_time now (select_row (code_key container hash) rows)
unfolding select_row code_active in_time
active_is_in_time container hash now [] u = refl
active_is_in_time container hash now (r ∷ rows) u = elim (Bool-cases (code_key container hash r)) [
  | inr other ↦ ground (arith, active_is_in_time container hash now rows u.1)
  | inl own ↦
      let gone =
        select_row-weaken (code_active container hash now) (code_key container hash)
          (active_key container hash now) rows (none_behind container hash r rows own u.0) in
      elim (Bool-cases (ltb now r.expires_at)) [
        | inl young ↦ ground arith
        | inr old ↦ ground (arith, gone)
      ]
]

-- A deletion of the code that is in time leaves no code under its hash.
consumed :
    (container hash : String) (now : ℕ) (rows : List CodeRow)
    → IsUnique same_code rows
    → select_row (code_key container hash) (delete_rows (code_active container hash now) rows) ≡ (
        if is_some (in_time now (select_row (code_key container hash) rows))
        then none
        else select_row (code_key container hash) rows)
unfolding select_row delete_rows code_active in_time
consumed container hash now [] u = refl
consumed container hash now (r ∷ rows) u = elim (Bool-cases (code_key container hash r)) [
  | inr other ↦ ground (arith, consumed container hash now rows u.1)
  | inl own ↦ elim (Bool-cases (ltb now r.expires_at)) [
    | inl young ↦ ground (
      arith,
      select_row-delete_rows_keeps (code_key container hash) (code_active container hash now) rows
          (none_behind container hash r rows own u.0),
    )
    | inr old ↦ ground arith
  ]
]

-- Another hash has other rows.
other_hash :
    (container hash h : String) (r : CodeRow)
    → (h == hash) ≡ false
    → code_key container hash r ≡ true
    → code_key container h r ≡ false
unfolding code_key
other_hash container hash h r other own =
    ground (arith, eq_iff r.code_hash h, eq_iff r.code_hash hash, eq_iff h hash)

pub codes_of-delete :
    (container hash h : String) (rows : List CodeRow)
    → select_row (code_key container h) (delete_rows (code_key container hash) rows)
      ≡ without hash (λ h. select_row (code_key container h) rows) h
unfolding without
codes_of-delete container hash h rows = elim (Bool-cases (h == hash)) [
  | inl same ↦
      let is : h ≡ hash = (eq_iff h hash).0 same in
      rw same (
        rw is (
          select_row-delete_rows-none (code_key container hash) (code_key container hash) (λ r e. e)
            rows))
  | inr other ↦ rw other (
      select_row-delete_rows_same (code_key container h) (code_key container hash)
        (λ r. other_hash container hash h r other) rows)
]

pub codes_of-consume :
    (container hash h : String) (now : ℕ) (rows : List CodeRow)
    → IsUnique same_code rows
    → select_row (code_key container h) (delete_rows (code_active container hash now) rows)
      ≡ (if is_some (in_time now (select_row (code_key container hash) rows))
            then without hash (λ h. select_row (code_key container h) rows)
            else (λ h. select_row (code_key container h) rows))
          h
unfolding without
codes_of-consume container hash h now rows u = elim (Bool-cases (h == hash)) [
  | inl same ↦
      let is : h ≡ hash = (eq_iff h hash).0 same in
      ground (
        arith,
        subst
            (λ k.
              select_row (code_key container k) (delete_rows (code_active container hash now) rows)
              ≡ (if is_some (in_time now (select_row (code_key container hash) rows))
                  then none
                  else select_row (code_key container k) rows))
            (sym is) (consumed container hash now rows u),
      )
  | inr other ↦ ground (
    arith,
    select_row-delete_rows_same (code_key container h) (code_active container hash now)
        (λ r e. other_hash container hash h r other (active_key container hash now r e)) rows,
  )
]

pub codes_of-insert :
    (container h : String) (row : CodeRow) (rows : List CodeRow)
    → row.container_db_key ≡ container
    → select_row (code_key container row.code_hash) rows ≡ none
    → select_row (code_key container h) (rows ++ row ∷ [])
      ≡ with_code row.code_hash row (λ h. select_row (code_key container h) rows) h
unfolding with_code code_key
codes_of-insert container h row rows own free = ground (
  arith,
  own,
  free,
  eq_iff h row.code_hash,
  eq_iff row.code_hash h,
  eq_iff row.container_db_key container,
  select_row-append (code_key container h) rows row,
)
