-- ===== src/Storage/Rotation.antt =====
-- storage/pg/repository.py: the rotation of refresh tokens.
use guillotina_oauth_server.Prelude.{
  ℕ, String, ◌≡◌, refl, ap, true, false, Option, none, some, List, [], ◌∷◌, arith, ◌==◌, eq_iff,
  eq_refl, inl, inr, Option-cases, Bool-cases, map_option,
}
use guillotina_oauth_server.Exec.{ok}
use guillotina_oauth_server.Flow.Keys.{token_hash}
use guillotina_oauth_server.Sql.{select_row, update_rows}
use guillotina_oauth_server.Sql.Keys.{IsUnique}
use guillotina_oauth_server.Sql.Select.{
  select_row-append, select_row-weaken, insert_row-cases, select_row-update_rows_keeps,
  select_row-update_rows, update_rows_nothing,
}
use guillotina_oauth_server.Storage.Rows.{RefreshRow, Database, Session, row_to_refresh}
use guillotina_oauth_server.Storage.Answers.{get_valid_refresh_answer, get_refresh_token_answer}
use guillotina_oauth_server.Storage.Frame.{after_update}
use guillotina_oauth_server.Storage.PrimaryKeys.{IsWellFormed, same_refresh}
use guillotina_oauth_server.Storage.Revocation.{replace_row-invalid}
use guillotina_oauth_server.Storage.Repository.Tokens.{
  refresh_key, refresh_valid, rotatable, replace_row, refresh_row, insert_refresh, insert_rotated,
  rotate_refresh_token, get_valid_refresh, get_refresh_token,
}

module _ (container hash client_id : String) (now : ℕ) (by_hash : String) where
  abbrev updated : List RefreshRow → List RefreshRow
  updated = update_rows (rotatable container hash client_id now) (replace_row now by_hash)

  dead_after_keeps :
      (rows : List RefreshRow)
      → select_row (refresh_valid container hash now) rows ≡ none
      → select_row (refresh_valid container hash now) (updated rows) ≡ none
  dead_after_keeps rows =
      select_row-update_rows_keeps (refresh_valid container hash now)
        (rotatable container hash client_id now) (replace_row now by_hash)
        (λ r h. absurd (ground (arith, replace_row-invalid container hash now now by_hash r))) rows

  -- The key is held by one row, so the row that is replaced was the only one that could be valid.
  dead_after_update :
      (rows : List RefreshRow) (row : RefreshRow)
      → IsUnique same_refresh rows
      → select_row (rotatable container hash client_id now) rows ≡ some row
      → select_row (refresh_valid container hash now) (updated rows) ≡ none
  unfolding update_rows select_row
  dead_after_update [] row u e = absurd (ground arith)
  dead_after_update (r ∷ rows) row u e =
      elim (Bool-cases (rotatable container hash client_id now r)) [
        | inl e' ↦
            let alone : select_row (refresh_valid container hash now) rows ≡ none =
              select_row-weaken (refresh_valid container hash now) (same_refresh r)
                (λ x h.
                  unfold refresh_valid refresh_key rotatable in
                  ground (
                    arith,
                    eq_iff r.container_db_key container,
                    eq_iff x.container_db_key container,
                    eq_iff r.token_hash hash,
                    eq_iff x.token_hash hash,
                    eq_iff x.container_db_key r.container_db_key,
                    eq_iff x.token_hash r.token_hash,
                  ))
                rows u.0 in
            ground (
              arith,
              replace_row-invalid container hash now now by_hash r,
              dead_after_keeps rows alone,
            )
        | inr e' ↦ elim (Bool-cases (refresh_valid container hash now r)) [
          | inr e'' ↦ ground (arith, dead_after_update rows row u.1)
          | inl e'' ↦
              let none_left : select_row (rotatable container hash client_id now) rows ≡ none =
                select_row-weaken (rotatable container hash client_id now) (same_refresh r)
                  (λ x h.
                    unfold refresh_valid refresh_key rotatable in
                    ground (
                      arith,
                      eq_iff r.container_db_key container,
                      eq_iff x.container_db_key container,
                      eq_iff r.token_hash hash,
                      eq_iff x.token_hash hash,
                      eq_iff x.container_db_key r.container_db_key,
                      eq_iff x.token_hash r.token_hash,
                    ))
                  rows u.0 in
              absurd (ground arith)
        ]
      ]

  -- The UPDATE leaves the keys alone, so a key that is free after it was free before.
  free_before_update :
      (rows : List RefreshRow)
      → select_row (refresh_key container hash) (updated rows) ≡ none
      → select_row (rotatable container hash client_id now) rows ≡ none
  free_before_update rows free =
      let kept =
        select_row-update_rows (rotatable container hash client_id now) (refresh_key container hash)
          (replace_row now by_hash) (λ r. unfold refresh_key replace_row in refl) rows in
      select_row-weaken (rotatable container hash client_id now) (refresh_key container hash)
        (λ r h. unfold rotatable in unfold refresh_key in ground arith) rows
        (elim (Option-cases (select_row (refresh_key container hash) rows)) [
          | inl x ↦ x
          | inr (r, x) ↦ absurd (ground arith)
        ])

module _ (s : Session) (old new client_id : String) (scope resource : List String) (db : Database)
    {old_hash new_hash : String} (e : token_hash s.crypto s.settings old ≡ ok old_hash)
    (e' : token_hash s.crypto s.settings new ≡ ok new_hash) where
  abbrev candidate : Option RefreshRow
  candidate = select_row (rotatable s.container_db_key old_hash client_id s.now) db.refresh_tokens

  pub rotate_refresh_token_answer :
      rotate_refresh_token s old new client_id scope resource db
      ≡ insert_rotated s old_hash new_hash client_id scope resource candidate
          (after_update s old_hash new_hash client_id db)
  unfolding rotate_refresh_token after_update
  rotate_refresh_token_answer = rw (e, e')

  -- Where no unexpired and unrevoked token with the hash belongs to the client, the rotation reports
  -- failure and changes nothing.
  pub rotate_refresh_token_refused :
      candidate ≡ none → rotate_refresh_token s old new client_id scope resource db ≡ (ok false, db)
  unfolding insert_rotated after_update
  rotate_refresh_token_refused h = rw rotate_refresh_token_answer (
      ground (
        arith,
        update_rows_nothing (rotatable s.container_db_key old_hash client_id s.now)
            (replace_row s.now new_hash) db.refresh_tokens h,
      ))

  abbrev rotated_row : RefreshRow → RefreshRow
  rotated_row row =
      refresh_row s new_hash client_id row.user_id scope resource (some old_hash) row.auth_code_hash

  -- An INSERT that goes through has found the new hash free, so it is not the old one.
  hashes_differ :
      (row : RefreshRow)
      → candidate ≡ some row
      → select_row
          (refresh_key s.container_db_key new_hash)
          (updated s.container_db_key old_hash client_id s.now new_hash db.refresh_tokens)
        ≡ none
      → new_hash == old_hash ≡ false
  hashes_differ row found free = elim (Bool-cases (new_hash == old_hash)) [
    | inr x ↦ x
    | inl x ↦
        let same : new_hash ≡ old_hash = (eq_iff new_hash old_hash).0 x in
        let free' = rw same at free in
        absurd (
          ground (
            arith,
            free_before_update s.container_db_key old_hash client_id s.now old_hash
                db.refresh_tokens free',
          ))
  ]

  insert_rotated_success :
      (row : RefreshRow)
      → IsWellFormed db
      → candidate ≡ some row
      → (insert_rotated s old_hash new_hash client_id scope resource
          (some row)
          (after_update s old_hash new_hash client_id db)).0
        ≡ ok true
      → let db' =
          (insert_rotated s old_hash new_hash client_id scope resource
            (some row)
            (after_update s old_hash new_hash client_id db)).1 in
        (select_row (refresh_key s.container_db_key new_hash) db'.refresh_tokens
          ≡ some (rotated_row row))
        × (select_row (refresh_valid s.container_db_key old_hash s.now) db'.refresh_tokens ≡ none)
  unfolding insert_rotated after_update insert_refresh
  insert_rotated_success row v found h =
      let rows : List RefreshRow =
        updated s.container_db_key old_hash client_id s.now new_hash db.refresh_tokens in
      let dead =
        dead_after_update s.container_db_key old_hash client_id s.now new_hash db.refresh_tokens row
          v.refresh_tokens found in
      elim (insert_row-cases (refresh_key s.container_db_key new_hash) (rotated_row row) rows) [
        | inl x ↦ absurd (unfold refresh_row in ground arith)
        | inr (free, x) ↦
            let apart = hashes_differ row found free in
            let new_key : refresh_key s.container_db_key new_hash (rotated_row row) ≡ true =
              (unfold refresh_key refresh_row in
                ground (arith, eq_refl s.container_db_key, eq_refl new_hash)) in
            let old_key : refresh_valid s.container_db_key old_hash s.now (rotated_row row)
                ≡ false =
              (unfold refresh_valid refresh_row in ground (arith, apart)) in
            let new_found =
              select_row-append (refresh_key s.container_db_key new_hash) rows (rotated_row row) in
            let old_found =
              select_row-append (refresh_valid s.container_db_key old_hash s.now) rows
                (rotated_row row) in
            unfold refresh_row in
            (
              ground (arith, x, new_found, new_key, free),
              ground (arith, x, old_found, old_key, dead),
            )
      ]

  -- A rotation that reports success found an unexpired and unrevoked token with the old hash that
  -- belongs to the client. Afterwards the old token is no longer valid, and the new one is stored for the
  -- same user and in the same grant family, unrevoked, with the scope and resource that were asked for,
  -- and linked to the old one.
  pub rotate_refresh_token_success :
      IsWellFormed db
      → (rotate_refresh_token s old new client_id scope resource db).0 ≡ ok true
      → let db' = (rotate_refresh_token s old new client_id scope resource db).1 in
        (row : RefreshRow) × (candidate ≡ some row)
        × ((get_valid_refresh s old db').0 ≡ ok none)
        × ((get_refresh_token s new db').0 ≡ ok (some (row_to_refresh (rotated_row row))))
  rotate_refresh_token_success v h =
      let h' = rw rotate_refresh_token_answer at h in
      elim (Option-cases candidate) [
        | inl x ↦ absurd (unfold insert_rotated in ground arith)
        | inr (row, x) ↦
            let db' : Database = (rotate_refresh_token s old new client_id scope resource db).1 in
            let h'' = rw x at h' in
            let both = insert_rotated_success row v x h'' in
            let same : rotate_refresh_token s old new client_id scope resource db
                ≡ insert_rotated s old_hash new_hash client_id scope resource (some row)
                    (after_update s old_hash new_hash client_id db) =
              rw (rotate_refresh_token_answer, x) in
            (
              row,
              x,
              rw (get_valid_refresh_answer s old db' e, same)
                  (ap (λ r. ok (map_option row_to_refresh r)) both.1),
              rw (get_refresh_token_answer s new db' e', same)
                  (ap (λ r. ok (map_option row_to_refresh r)) both.0),
            )
      ]
