-- ===== src/Storage/Isolation.antt =====
-- storage/pg/repository.py: every statement is scoped by `container_db_key`, so the store of one
-- container does not touch the rows of another.
mod Calls
unfoldable pub use Calls.{rows_of}
use guillotina_oauth_server.Prelude.{
  String, ◌≡◌, ◌≢◌, refl, Bool, true, false, Option, List, [], ◌∷◌, ◌++◌, arith, ◌==◌, eq_iff, inl,
  inr, none, some,
}
use guillotina_oauth_server.Exec.{Result-cases}
use guillotina_oauth_server.Flow.Keys.{token_hash}
use guillotina_oauth_server.Sql.{select_rows, select_row, insert_row, delete_rows, update_rows}
use guillotina_oauth_server.Sql.Select.{
  select_rows-delete_rows, select_rows-update_rows, select_rows-append, insert_row-cases,
}
use guillotina_oauth_server.Storage.Rows.{
  Client, ClientRow, CodeRow, RefreshRow, ConsentRow, Database, Session,
}
use guillotina_oauth_server.Storage.Operations.{
  Operation, perform, create_client, create_consent, delete_consent, create_code, consume_code,
  delete_code, create_refresh_token, rotate_refresh_token, revoke_user_client_refresh_tokens,
  revoke_refresh_tokens_by_auth_code, revoke_refresh_family, revoke_refresh_token,
  delete_container_data,
}
use guillotina_oauth_server.Storage.Repository.Clients.{client_key, client_row}
use guillotina_oauth_server.Storage.Repository.Clients
use guillotina_oauth_server.Storage.Repository.Codes.{code_key, code_active, code_row, insert_code}
use guillotina_oauth_server.Storage.Repository.Codes
use guillotina_oauth_server.Storage.Repository.Consents.{
  consent_key_is, consent_deletable, consent_row, refresh_consent, upsert_consent,
}
use guillotina_oauth_server.Storage.Repository.Consents
use guillotina_oauth_server.Storage.Repository.Tokens.{
  refresh_key, rotatable, of_user_client, of_auth_code, of_family, revoke_row, replace_row,
  refresh_row, revoke_where, insert_refresh, insert_rotated,
}
use guillotina_oauth_server.Storage.Repository.Tokens
use guillotina_oauth_server.Storage.Repository.Containers
use guillotina_oauth_server.Storage.Isolation.Calls.{
  tokens_updated, Unseen, elsewhere, own, create_client-Unseen, insert_code-Unseen,
  create_code-Unseen, consume_code-Unseen, delete_code-Unseen, upsert_consent_unseen,
  create_consent-Unseen, delete_consent-Unseen, revoke_where-Unseen, insert_refresh-Unseen,
  create_refresh_token-Unseen, revoke_refresh_token-Unseen, delete_container_data-Unseen,
}

module _ (s : Session) (other : String) (apart : s.container_db_key ≢ other) where
  insert_rotated_unseen :
      (old new client_id : String) (scope resource : List String) (upd : Option RefreshRow)
      (db : Database)
      → rows_of other (insert_rotated s old new client_id scope resource upd db).1
        ≡ rows_of other db
  unfolding insert_rotated
  insert_rotated_unseen old new client_id scope resource none db = refl
  insert_rotated_unseen old new client_id scope resource (some upd) db = ground (
    arith,
    insert_refresh-Unseen s other apart db
        (refresh_row s new client_id upd.user_id scope resource (some old) upd.auth_code_hash)
        (unfold refresh_row in refl),
  )

  rotate_refresh_token_unseen :
      (old new client_id : String) (scope resource : List String) (db : Database)
      → rows_of other (perform s (rotate_refresh_token old new client_id scope resource) db)
        ≡ rows_of other db
  unfolding perform Tokens.rotate_refresh_token
  rotate_refresh_token_unseen old new client_id scope resource db =
      elim (Result-cases (token_hash s.crypto s.settings old)) [
        | inr (_, e) ↦ ground arith
        | inl (old_hash, e) ↦ elim (Result-cases (token_hash s.crypto s.settings new)) [
          | inr (_, e') ↦ ground arith
          | inl (new_hash, e') ↦
              let matches : RefreshRow → Bool =
                rotatable s.container_db_key old_hash client_id s.now in
              let updated : Database = record db {
                refresh_tokens = update_rows matches (replace_row s.now new_hash) db.refresh_tokens;
              } in
              ground (
                arith,
                insert_rotated_unseen old_hash new_hash client_id scope resource
                    (select_row matches db.refresh_tokens) updated,
                tokens_updated s other apart db matches (replace_row s.now new_hash)
                    (λ r h. unfold rotatable in ground arith) (λ r. unfold replace_row in refl),
              )
        ]
      ]

  -- Whatever the store of one container does, raising or not, every other container has the rows that
  -- it had, in all four tables.
  pub rows_of-perform :
      (operation : Operation) (db : Database)
      → rows_of other (perform s operation db) ≡ rows_of other db
  rows_of-perform (create_client client) db = create_client-Unseen s other apart db client
  rows_of-perform (create_consent key user_id client_id scope resource) db =
      create_consent-Unseen s other apart db key user_id client_id scope resource
  rows_of-perform (delete_consent key user_id) db =
      delete_consent-Unseen s other apart db key user_id
  rows_of-perform (create_code raw client_id user_id uri scope resource challenge) db =
      create_code-Unseen s other apart db raw client_id user_id uri scope resource challenge
  rows_of-perform (consume_code code) db = consume_code-Unseen s other apart db code
  rows_of-perform (delete_code hash) db = delete_code-Unseen s other apart db hash
  rows_of-perform (create_refresh_token raw client_id user_id scope resource auth rotated) db =
      create_refresh_token-Unseen s other apart db raw client_id user_id scope resource auth rotated
  rows_of-perform (rotate_refresh_token old new client_id scope resource) db =
      rotate_refresh_token_unseen old new client_id scope resource db
  rows_of-perform (revoke_user_client_refresh_tokens user_id client_id) db =
      unfold perform Tokens.revoke_user_client_refresh_tokens in
      revoke_where-Unseen s other apart db (of_user_client s.container_db_key user_id client_id)
        (λ r h. unfold of_user_client in ground arith)
  rows_of-perform (revoke_refresh_tokens_by_auth_code hash) db =
      unfold perform Tokens.revoke_refresh_tokens_by_auth_code in
      revoke_where-Unseen s other apart db (of_auth_code s.container_db_key hash)
        (λ r h. unfold of_auth_code in ground arith)
  rows_of-perform (revoke_refresh_family client_id user_id auth_code_hash) db =
      unfold perform Tokens.revoke_refresh_family in
      revoke_where-Unseen s other apart db
        (of_family s.container_db_key client_id user_id auth_code_hash)
        (λ r h. unfold of_family in ground arith)
  rows_of-perform (revoke_refresh_token token) db =
      revoke_refresh_token-Unseen s other apart db token
  rows_of-perform delete_container_data db = delete_container_data-Unseen s other apart db
