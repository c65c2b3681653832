-- ===== src/Storage/Answers.antt =====
-- What the methods that hash a code or a token answer, once the hash is known.
use guillotina_oauth_server.Prelude.{String, ◌≡◌, map_option}
use guillotina_oauth_server.Exec.{ok}
use guillotina_oauth_server.Flow.Keys.{token_hash}
use guillotina_oauth_server.Sql.{select_row, delete_rows}
use guillotina_oauth_server.Storage.Rows.{Database, Session, row_to_code, row_to_refresh}
use guillotina_oauth_server.Storage.Repository.Codes.{code_active, get_active_code, consume_code}
use guillotina_oauth_server.Storage.Repository.Tokens.{
  refresh_key, refresh_valid, get_valid_refresh, get_refresh_token,
}

module _ (s : Session) (raw : String) {hash : String} (db : Database)
    (e : token_hash s.crypto s.settings raw ≡ ok hash) where
  pub get_active_code_answer : get_active_code s raw db ≡ (
    ok (map_option row_to_code (select_row (code_active s.container_db_key hash s.now) db.codes)),
    db,
  )
  unfolding get_active_code
  get_active_code_answer = rw e

  pub consume_code_answer : consume_code s raw db ≡ (
    ok (map_option row_to_code (select_row (code_active s.container_db_key hash s.now) db.codes)),
    record db { codes = delete_rows (code_active s.container_db_key hash s.now) db.codes },
  )
  unfolding consume_code
  consume_code_answer = rw e

  pub get_valid_refresh_answer : get_valid_refresh s raw db ≡ (
    ok (
        map_option row_to_refresh
          (select_row (refresh_valid s.container_db_key hash s.now) db.refresh_tokens)),
    db,
  )
  unfolding get_valid_refresh
  get_valid_refresh_answer = rw e

  pub get_refresh_token_answer : get_refresh_token s raw db ≡ (
    ok (
        map_option row_to_refresh
          (select_row (refresh_key s.container_db_key hash) db.refresh_tokens)),
    db,
  )
  unfolding get_refresh_token
  get_refresh_token_answer = rw e
