-- ===== src/Storage/PrimaryKeys.antt =====
-- storage/pg/schema.py: the primary keys of the four tables, kept by every method of the store and
-- by the cleanup task.
mod Keys
mod Calls
pub use Keys.{same_code, same_refresh, same_consent, IsWellFormed}
use guillotina_oauth_server.Prelude.{
  String, ◌≡◌, refl, Bool, Option, none, some, List, [], ◌∷◌, arith, eq_iff, inl, inr, Option-cases,
}
use guillotina_oauth_server.Exec.{Result-cases}
use guillotina_oauth_server.Flow.Keys.{token_hash}
use guillotina_oauth_server.Sql.{select_row, insert_row, delete_rows, update_rows}
use guillotina_oauth_server.Sql.Select.{insert_row-cases}
use guillotina_oauth_server.Sql.Keys.{
  IsUnique, delete_rows-IsUnique, delete_limited-IsUnique, update_rows-IsUnique,
  insert_row-IsUnique,
}
use guillotina_oauth_server.Storage.Rows.{
  Client, ClientRow, CodeRow, RefreshRow, ConsentRow, Database, Session, empty_database,
}
use guillotina_oauth_server.Storage.Operations.{
  Operation, perform, Event, call, cleanup, step, run, create_client, create_consent,
  delete_consent, create_code, consume_code, delete_code, create_refresh_token,
  rotate_refresh_token, revoke_user_client_refresh_tokens, revoke_refresh_tokens_by_auth_code,
  revoke_refresh_family, revoke_refresh_token, delete_container_data,
}
use guillotina_oauth_server.Storage.Repository.Clients.{client_key, client_row}
use guillotina_oauth_server.Storage.Repository.Clients
use guillotina_oauth_server.Storage.Repository.Codes.{code_key, code_active, code_row, insert_code}
use guillotina_oauth_server.Storage.Repository.Codes
use guillotina_oauth_server.Storage.Repository.Consents.{
  consent_key_is, consent_deletable, consent_row, refresh_consent, upsert_consent,
}
use guillotina_oauth_server.Storage.Repository.Consents
use guillotina_oauth_server.Storage.Repository.Tokens.{
  refresh_key, rotatable, of_user_client, of_auth_code, of_family, revoke_row, replace_row,
  refresh_row, revoke_where, insert_refresh, insert_rotated,
}
use guillotina_oauth_server.Storage.Repository.Tokens
use guillotina_oauth_server.Storage.Repository.Containers
use guillotina_oauth_server.Storage.PrimaryKeys.Keys.{
  same_client, same_client_symm, same_code_symm, same_refresh_symm, same_consent_symm,
}
use guillotina_oauth_server.Storage.PrimaryKeys.Calls.{
  create_client_keys, insert_code_keys, create_code_keys, codes_deleted, tokens_updated,
  revoke_where_keys, insert_refresh_keys, create_refresh_token_keys, upsert_consent_keys,
  create_consent_keys, delete_consent_keys, delete_container_data_keys, consume_code_keys,
  revoke_refresh_token_keys, insert_rotated_keys, rotate_refresh_token_keys,
}

pub perform-IsWellFormed :
    (s : Session) (operation : Operation) (db : Database)
    → IsWellFormed db
    → IsWellFormed (perform s operation db)
perform-IsWellFormed s (create_client client) db v = create_client_keys s db v client
perform-IsWellFormed s (create_consent key user_id client_id scope resource) db v =
    create_consent_keys s db v key user_id client_id scope resource
perform-IsWellFormed s (delete_consent key user_id) db v = delete_consent_keys s db v key user_id
perform-IsWellFormed s (create_code raw client_id user_id uri scope resource challenge) db v =
    create_code_keys s db v raw client_id user_id uri scope resource challenge
perform-IsWellFormed s (consume_code code) db v = consume_code_keys s db v code
perform-IsWellFormed s (delete_code hash) db v =
    unfold perform Codes.delete_code in codes_deleted s db v (code_key s.container_db_key hash)
perform-IsWellFormed s (create_refresh_token raw client_id user_id scope resource auth rotated) db
      v =
    create_refresh_token_keys s db v raw client_id user_id scope resource auth rotated
perform-IsWellFormed s (rotate_refresh_token old new client_id scope resource) db v =
    rotate_refresh_token_keys s old new client_id scope resource db v
perform-IsWellFormed s (revoke_user_client_refresh_tokens user_id client_id) db v =
    unfold perform Tokens.revoke_user_client_refresh_tokens in revoke_where_keys s db v _
perform-IsWellFormed s (revoke_refresh_tokens_by_auth_code hash) db v =
    unfold perform Tokens.revoke_refresh_tokens_by_auth_code in revoke_where_keys s db v _
perform-IsWellFormed s (revoke_refresh_family client_id user_id auth_code_hash) db v =
    unfold perform Tokens.revoke_refresh_family in revoke_where_keys s db v _
perform-IsWellFormed s (revoke_refresh_token token) db v = revoke_refresh_token_keys s db v token
perform-IsWellFormed s delete_container_data db v = delete_container_data_keys s db v

step-IsWellFormed : (event : Event) (db : Database) → IsWellFormed db → IsWellFormed (step event db)
unfolding step
step-IsWellFormed (call s operation) db v = perform-IsWellFormed s operation db v
step-IsWellFormed (cleanup now batch_size) db v =
    unfold Containers.cleanup_expired in
    record {
      clients = v.clients;
      codes = delete_limited-IsUnique same_code batch_size _ db.codes v.codes;
      refresh_tokens =
          delete_limited-IsUnique same_refresh batch_size _ db.refresh_tokens v.refresh_tokens;
      consents = delete_limited-IsUnique same_consent batch_size _ db.consents v.consents;
    }

-- Any calls by the stores of any containers and any cleanup runs, failing or not, keep tables in which
-- no two rows have one primary key.
run-IsWellFormed :
    (events : List Event) (db : Database) → IsWellFormed db → IsWellFormed (run events db)
unfolding run
run-IsWellFormed [] db v = v
run-IsWellFormed (event ∷ events) db v =
    run-IsWellFormed events (step event db) (step-IsWellFormed event db v)

pub empty_database-IsWellFormed : IsWellFormed empty_database
empty_database-IsWellFormed = record {
  clients = tt;
  codes = tt;
  refresh_tokens = tt;
  consents = tt;
}
