-- ===== src/Storage/Revocation.antt =====
-- storage/pg/repository.py: a refresh token that is revoked, replaced or expired does not come back.
use guillotina_oauth_server.Prelude.{
  ℕ, ◌≤◌, String, ◌≡◌, Bool, false, ◌&&◌, Option, none, some, List, [], ◌∷◌, arith, ◌==◌, inl, inr,
  Option-cases, All,
}
use guillotina_oauth_server.Exec.{ok, Result-cases}
use guillotina_oauth_server.Flow.Keys.{token_hash}
use guillotina_oauth_server.Sql.{select_row, update_rows}
use guillotina_oauth_server.Sql.Select.{
  insert_row-cases, select_row-append, select_row-weaken, select_row-delete_rows_keeps,
  select_row-delete_limited_keeps, select_row-update_rows_keeps,
}
use guillotina_oauth_server.Storage.Rows.{Database, Session, RefreshRow}
use guillotina_oauth_server.Storage.Answers.{get_valid_refresh_answer}
use guillotina_oauth_server.Storage.Frame.{
  rotate_cases, create_refresh_token_cases, create_code_cases, after_update,
}
use guillotina_oauth_server.Storage.SingleUse.{has_hash}
use guillotina_oauth_server.Storage.Operations.{
  Operation, perform, Event, call, cleanup, step, run, create_client, create_consent,
  delete_consent, create_code, consume_code, delete_code, create_refresh_token,
  rotate_refresh_token, revoke_user_client_refresh_tokens, revoke_refresh_tokens_by_auth_code,
  revoke_refresh_family, revoke_refresh_token, delete_container_data,
}
use guillotina_oauth_server.Storage.Repository.Clients
use guillotina_oauth_server.Storage.Repository.Codes.{insert_code}
use guillotina_oauth_server.Storage.Repository.Codes
use guillotina_oauth_server.Storage.Repository.Consents
use guillotina_oauth_server.Storage.Repository.Tokens.{
  refresh_key, refresh_valid, refresh_row, insert_refresh, insert_rotated, revoke_where, revoke_row,
  replace_row, rotatable, not_revoked,
}
use guillotina_oauth_server.Storage.Repository.Tokens
use guillotina_oauth_server.Storage.Repository.Containers

-- The event stores a refresh token under this hash in this container.
unfoldable pub stores_refresh : String → String → Event → Bool
unfolding has_hash
stores_refresh container hash (call s (create_refresh_token raw _ _ _ _ _ _)) =
    s.container_db_key == container && has_hash (token_hash s.crypto s.settings raw) hash
stores_refresh container hash (call s (rotate_refresh_token _ new _ _ _)) =
    s.container_db_key == container && has_hash (token_hash s.crypto s.settings new) hash
stores_refresh container hash _ = false

abbrev pub TokenDead : String → String → ℕ → Database → Type 0
TokenDead container hash now db =
    select_row (refresh_valid container hash now) db.refresh_tokens ≡ none

TokenDead-later :
    (container hash : String) (now later : ℕ) (db : Database)
    → now ≤ later
    → TokenDead container hash now db
    → TokenDead container hash later db
unfolding refresh_valid
TokenDead-later container hash now later db h =
    select_row-weaken (refresh_valid container hash later) (refresh_valid container hash now)
      (λ r e. ground arith) db.refresh_tokens

pub revoke_row-invalid :
    (container hash : String) (now at : ℕ) (r : RefreshRow)
    → refresh_valid container hash now (revoke_row at r) ≡ false
unfolding refresh_valid revoke_row
revoke_row-invalid container hash now at r = ground arith

pub replace_row-invalid :
    (container hash : String) (now at : ℕ) (by_hash : String) (r : RefreshRow)
    → refresh_valid container hash now (replace_row at by_hash r) ≡ false
unfolding refresh_valid replace_row
replace_row-invalid container hash now at by_hash r = ground arith

module _ (container hash : String) (now : ℕ) where
  insert_refresh_dead :
      (s : Session) (row : RefreshRow) (db : Database)
      → refresh_key container hash row ≡ false
      → TokenDead container hash now db
      → TokenDead container hash now (insert_refresh s row db).1
  unfolding insert_refresh refresh_valid
  insert_refresh_dead s row db other dead =
      elim (insert_row-cases (refresh_key row.container_db_key row.token_hash) row
        db.refresh_tokens) [
          | inl e ↦ ground arith
          | inr (_, e) ↦
              ground (
                arith,
                e,
                select_row-append (refresh_valid container hash now) db.refresh_tokens row,
              )
        ]

  revoke_dead :
      (p : RefreshRow → Bool) (at : ℕ) (rows : List RefreshRow)
      → select_row (refresh_valid container hash now) rows ≡ none
      → select_row (refresh_valid container hash now) (update_rows p (revoke_row at) rows) ≡ none
  revoke_dead p at rows =
      select_row-update_rows_keeps (refresh_valid container hash now) p (revoke_row at)
        (λ r h. absurd (ground (arith, revoke_row-invalid container hash now at r))) rows

  replace_dead :
      (p : RefreshRow → Bool) (at : ℕ) (by_hash : String) (rows : List RefreshRow)
      → select_row (refresh_valid container hash now) rows ≡ none
      → select_row (refresh_valid container hash now) (update_rows p (replace_row at by_hash) rows)
        ≡ none
  replace_dead p at by_hash rows =
      select_row-update_rows_keeps (refresh_valid container hash now) p (replace_row at by_hash)
        (λ r h. absurd (ground (arith, replace_row-invalid container hash now at by_hash r))) rows

  insert_rotated_dead :
      (s : Session) (old new client_id : String) (scope resource : List String)
      (upd : Option RefreshRow) (db : Database)
      → s.container_db_key == container && new == hash ≡ false
      → TokenDead container hash now db
      → TokenDead container hash now (insert_rotated s old new client_id scope resource upd db).1
  unfolding insert_rotated
  insert_rotated_dead s old new client_id scope resource none db other dead = dead
  insert_rotated_dead s old new client_id scope resource (some upd) db other dead =
      let row : RefreshRow =
        refresh_row s new client_id upd.user_id scope resource (some old) upd.auth_code_hash in
      ground (arith, insert_refresh_dead s row db (unfold refresh_key refresh_row in other) dead)

  perform_dead :
      (s : Session) (operation : Operation) (db : Database)
      → stores_refresh container hash (call s operation) ≡ false
      → TokenDead container hash now db
      → TokenDead container hash now (perform s operation db)
  unfolding perform stores_refresh
  perform_dead s (create_client client) db o g = unfold Clients.create_client in ground arith
  perform_dead s (create_consent key user_id client_id scope resource) db o g =
      unfold Consents.create_consent in g
  perform_dead s (delete_consent key user_id) db o g = unfold Consents.delete_consent in g
  perform_dead s (create_code raw client_id user_id uri scope resource challenge) db o g =
      create_code_cases (TokenDead container hash now) s db raw client_id user_id uri scope resource
        challenge g (λ h e. unfold insert_code in ground arith)
  perform_dead s (consume_code code) db o g = unfold Codes.consume_code in ground arith
  perform_dead s (delete_code h) db o g = unfold Codes.delete_code in g
  perform_dead s (create_refresh_token raw client_id user_id scope resource auth rotated) db o g =
      create_refresh_token_cases (TokenDead container hash now) s db raw client_id user_id scope
        resource auth rotated g
        (λ h e.
          insert_refresh_dead s (refresh_row s h client_id user_id scope resource rotated auth) db
            (unfold refresh_key refresh_row in ground arith) g)
  perform_dead s (rotate_refresh_token old new client_id scope resource) db o g =
      rotate_cases (TokenDead container hash now) s db old new client_id scope resource g
        (λ old_hash new_hash e e'.
          insert_rotated_dead s old_hash new_hash client_id scope resource _
            (after_update s old_hash new_hash client_id db) (ground arith)
            (unfold after_update in
              replace_dead (rotatable s.container_db_key old_hash client_id s.now) s.now new_hash
                db.refresh_tokens g))
  perform_dead s (revoke_user_client_refresh_tokens user_id client_id) db o g =
      unfold Tokens.revoke_user_client_refresh_tokens revoke_where in
      revoke_dead (Tokens.of_user_client s.container_db_key user_id client_id) s.now
        db.refresh_tokens g
  perform_dead s (revoke_refresh_tokens_by_auth_code h) db o g =
      unfold Tokens.revoke_refresh_tokens_by_auth_code revoke_where in
      revoke_dead (Tokens.of_auth_code s.container_db_key h) s.now db.refresh_tokens g
  perform_dead s (revoke_refresh_family client_id user_id h) db o g =
      unfold Tokens.revoke_refresh_family revoke_where in
      revoke_dead (Tokens.of_family s.container_db_key client_id user_id h) s.now db.refresh_tokens
        g
  perform_dead s (revoke_refresh_token token) db o g =
      elim (Result-cases (token_hash s.crypto s.settings token)) [
        | inr (_, e) ↦ unfold Tokens.revoke_refresh_token in ground arith
        | inl (h, e) ↦
            unfold Tokens.revoke_refresh_token in
            ground (arith, revoke_dead (refresh_key s.container_db_key h) s.now db.refresh_tokens g)
      ]
  perform_dead s delete_container_data db o g =
      unfold Containers.delete_container_data in
      select_row-delete_rows_keeps (refresh_valid container hash now)
        (λ r. r.container_db_key == s.container_db_key) db.refresh_tokens g

  step_dead :
      (event : Event) (db : Database)
      → stores_refresh container hash event ≡ false
      → TokenDead container hash now db
      → TokenDead container hash now (step event db)
  unfolding step
  step_dead (call s operation) db o g = perform_dead s operation db o g
  step_dead (cleanup at batch_size) db o g =
      unfold Containers.cleanup_expired in
      select_row-delete_limited_keeps (refresh_valid container hash now) batch_size
        (Containers.refresh_expired at) db.refresh_tokens g

  run_dead :
      (events : List Event) (db : Database)
      → All (λ event. stores_refresh container hash event ≡ false) events
      → TokenDead container hash now db
      → TokenDead container hash now (run events db)
  unfolding run
  run_dead [] db o g = g
  run_dead (event ∷ events) db o g = run_dead events (step event db) o.1 (step_dead event db o.0 g)

-- A refresh token that `get_valid_refresh` does not find (revoked, replaced, expired or never stored)
-- is not found at any later time either, whatever calls and cleanup runs come between, by any
-- containers, as long as none of them stores a token with the same hash in the container.
pub refresh_token_stays_invalid :
    (s : Session) (token : String) {hash : String} (events : List Event) (later : ℕ) (db : Database)
    → token_hash s.crypto s.settings token ≡ ok hash
    → All (λ event. stores_refresh s.container_db_key hash event ≡ false) events
    → s.now ≤ later
    → (Tokens.get_valid_refresh s token db).0 ≡ ok none
    → (Tokens.get_valid_refresh (record s { now = later }) token (run events db)).0 ≡ ok none
refresh_token_stays_invalid s token {hash} events later db e others h missing =
    let shown = rw (get_valid_refresh_answer s token db e) at missing in
    let dead : TokenDead s.container_db_key hash s.now db =
      elim (Option-cases
        (select_row (refresh_valid s.container_db_key hash s.now) db.refresh_tokens)) [
          | inl x ↦ x
          | inr (row, x) ↦ absurd (ground arith)
        ] in
    let db' : Database = run events db in
    rw (get_valid_refresh_answer (record s { now = later }) token db' e) (
      rw (
        TokenDead-later s.container_db_key hash s.now later db' h
          (run_dead s.container_db_key hash s.now events db others dead)))
