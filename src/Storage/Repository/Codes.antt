-- ===== src/Storage/Repository/Codes.antt =====
-- storage/pg/repository.py: authorization codes, stored under the hash of the code.
use guillotina_oauth_server.Prelude.{
  ℕ, String, Bool, ◌&&◌, Option, none, some, List, ◌==◌, ltb, add_seconds, map_option,
}
use guillotina_oauth_server.Exec.{
  Exec, ok, err, unique_violation, ◌>>=◌, ◌>>◌, pure, lift, gets, modify,
}
use guillotina_oauth_server.Flow.Keys.{token_hash}
use guillotina_oauth_server.Sql.{select_row, insert_row, delete_rows}
use guillotina_oauth_server.Storage.Rows.{CodeRow, Code, Database, Session, row_to_code}

-- WHERE container_db_key = $1 AND code_hash = $2
unfoldable pub code_key : String → String → CodeRow → Bool
code_key container hash row = row.container_db_key == container && row.code_hash == hash

-- … AND expires_at > now()
unfoldable pub code_active : String → String → ℕ → CodeRow → Bool
unfolding code_key
code_active container hash now row = code_key container hash row && ltb now row.expires_at

-- The row that `create_code` writes.
unfoldable pub code_row :
    Session
    → String
    → String
    → String
    → String
    → List String
    → List String
    → Option String
    → CodeRow
unfolding add_seconds
code_row s hash client_id user_id redirect_uri scope resource code_challenge = record {
  container_db_key = s.container_db_key;
  code_hash = hash;
  client_id = client_id;
  user_id = user_id;
  redirect_uri = redirect_uri;
  scope = scope;
  resource = resource;
  code_challenge = code_challenge;
  expires_at = add_seconds s.now s.settings.authorization_code_ttl;
  created_at = s.now;
}

store_codes : Option (List CodeRow) → Exec Database (Unit {0})
store_codes none db = (err unique_violation, db)
store_codes (some rows) db = (ok tt, record db { codes = rows })

unfoldable pub insert_code : Session → CodeRow → Exec Database (Unit {0})
unfolding store_codes
insert_code s row db =
    store_codes (insert_row (code_key row.container_db_key row.code_hash) row db.codes) db

-- `create_code` answers with the dict of the row, its dates left out.
unfoldable pub create_code :
    Session
    → String
    → String
    → String
    → String
    → List String
    → List String
    → Option String
    → Exec Database Code
unfolding row_to_code
create_code s raw_code client_id user_id redirect_uri scope resource code_challenge = do
  hash ← lift (token_hash s.crypto s.settings raw_code)
  let row = code_row s hash client_id user_id redirect_uri scope resource code_challenge
  insert_code s row
  pure (record (row_to_code row) { expires_at = none; created_at = none })

unfoldable pub get_active_code : Session → String → Exec Database (Option Code)
get_active_code s code = do
  hash ← lift (token_hash s.crypto s.settings code)
  row ← gets (λ db. select_row (code_active s.container_db_key hash s.now) db.codes)
  pure (map_option row_to_code row)

-- DELETE … RETURNING: one statement.
unfoldable pub consume_code : Session → String → Exec Database (Option Code)
consume_code s code = do
  hash ← lift (token_hash s.crypto s.settings code)
  row ← gets (λ db. select_row (code_active s.container_db_key hash s.now) db.codes)
  modify
      λ db. record db { codes = delete_rows (code_active s.container_db_key hash s.now) db.codes }
  pure (map_option row_to_code row)

unfoldable pub delete_code : Session → String → Exec Database (Unit {0})
delete_code s hash =
    modify λ db. record db { codes = delete_rows (code_key s.container_db_key hash) db.codes }
