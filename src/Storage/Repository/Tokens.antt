-- ===== src/Storage/Repository/Tokens.antt =====
-- storage/pg/repository.py: refresh tokens, stored under the hash of the token.
use guillotina_oauth_server.Prelude.{
  ℕ, String, Bool, true, false, ◌&&◌, not, Option, none, some, List, ◌==◌, ltb, is_some,
  add_seconds, map_option,
}
use guillotina_oauth_server.Exec.{
  Exec, ok, err, unique_violation, ◌>>=◌, ◌>>◌, pure, lift, gets, modify,
}
use guillotina_oauth_server.Flow.Keys.{token_hash}
use guillotina_oauth_server.Sql.{sql_eq, select_row, insert_row, update_rows, count_rows}
use guillotina_oauth_server.Storage.Rows.{RefreshRow, Refresh, Database, Session, row_to_refresh}

-- WHERE container_db_key = $1 AND token_hash = $2
unfoldable pub refresh_key : String → String → RefreshRow → Bool
refresh_key container hash row = row.container_db_key == container && row.token_hash == hash

-- revoked_at IS NULL
unfoldable pub not_revoked : RefreshRow → Bool
not_revoked row = not (is_some row.revoked_at)

-- … AND expires_at > now() AND revoked_at IS NULL
unfoldable pub refresh_valid : String → String → ℕ → RefreshRow → Bool
unfolding refresh_key not_revoked
refresh_valid container hash now row =
    refresh_key container hash row && ltb now row.expires_at && not_revoked row

coalesce : Option ℕ → ℕ → ℕ
coalesce none now = now
coalesce (some t) now = t

-- SET revoked_at = COALESCE(revoked_at, now())
unfoldable pub revoke_row : ℕ → RefreshRow → RefreshRow
unfolding coalesce
revoke_row now row = record row { revoked_at = some (coalesce row.revoked_at now) }

-- The UPDATE of the methods that revoke, over the rows that `matches` selects; it reports whether
-- any row matched.
unfoldable pub revoke_where : Session → (RefreshRow → Bool) → Exec Database Bool
unfolding revoke_row
revoke_where s matches = do
  count ← gets (λ db. count_rows matches db.refresh_tokens)
  modify
      λ db. record db { refresh_tokens = update_rows matches (revoke_row s.now) db.refresh_tokens }
  pure (ltb 0 count)

unfoldable pub of_user_client : String → String → String → RefreshRow → Bool
unfolding not_revoked
of_user_client container user_id client_id row =
    row.container_db_key == container
    && row.user_id == user_id
    && row.client_id == client_id
    && not_revoked row

unfoldable pub revoke_user_client_refresh_tokens : Session → String → String → Exec Database Bool
unfolding revoke_where
revoke_user_client_refresh_tokens s user_id client_id =
    revoke_where s (of_user_client s.container_db_key user_id client_id)

unfoldable pub of_auth_code : String → String → RefreshRow → Bool
unfolding not_revoked sql_eq
of_auth_code container hash row =
    row.container_db_key == container && sql_eq row.auth_code_hash hash && not_revoked row

unfoldable pub revoke_refresh_tokens_by_auth_code : Session → String → Exec Database Bool
unfolding revoke_where
revoke_refresh_tokens_by_auth_code s hash = revoke_where s (of_auth_code s.container_db_key hash)

-- ($4 IS NULL AND auth_code_hash IS NULL) OR auth_code_hash = $4
unfoldable pub same_auth_code : Option String → Option String → Bool
unfolding sql_eq
same_auth_code none column = not (is_some column)
same_auth_code (some hash) column = sql_eq column hash

unfoldable pub of_family : String → String → String → Option String → RefreshRow → Bool
unfolding not_revoked same_auth_code
of_family container client_id user_id auth_code_hash row =
    row.container_db_key == container
    && row.client_id == client_id
    && row.user_id == user_id
    && same_auth_code auth_code_hash row.auth_code_hash
    && not_revoked row

unfoldable pub revoke_refresh_family :
    Session → String → String → Option String → Exec Database Bool
unfolding revoke_where
revoke_refresh_family s client_id user_id auth_code_hash =
    revoke_where s (of_family s.container_db_key client_id user_id auth_code_hash)

-- The row that the INSERTs of `create_refresh_token` and `rotate_refresh_token` write.
unfoldable pub refresh_row :
    Session
    → String
    → String
    → String
    → List String
    → List String
    → Option String
    → Option String
    → RefreshRow
unfolding add_seconds
refresh_row s hash client_id user_id scope resource rotated_from auth_code_hash = record {
  container_db_key = s.container_db_key;
  token_hash = hash;
  client_id = client_id;
  user_id = user_id;
  scope = scope;
  resource = resource;
  expires_at = add_seconds s.now s.settings.refresh_token_ttl;
  rotated_from = rotated_from;
  auth_code_hash = auth_code_hash;
  revoked_at = none;
  replaced_by = none;
  created_at = s.now;
  last_used_at = some s.now;
}

store_refresh : Option (List RefreshRow) → Exec Database (Unit {0})
store_refresh none db = (err unique_violation, db)
store_refresh (some rows) db = (ok tt, record db { refresh_tokens = rows })

unfoldable pub insert_refresh : Session → RefreshRow → Exec Database (Unit {0})
unfolding store_refresh
insert_refresh s row db =
    store_refresh
      (insert_row (refresh_key row.container_db_key row.token_hash) row db.refresh_tokens) db

unfoldable pub create_refresh_token :
    Session
    → String
    → String
    → String
    → List String
    → List String
    → Option String
    → Option String
    → Exec Database String
create_refresh_token s raw_token client_id user_id scope resource auth_code_hash rotated_from = do
  hash ← lift (token_hash s.crypto s.settings raw_token)
  insert_refresh s (refresh_row s hash client_id user_id scope resource rotated_from auth_code_hash)
  pure raw_token

-- The rows that the UPDATE of `rotate_refresh_token` takes.
unfoldable pub rotatable : String → String → String → ℕ → RefreshRow → Bool
unfolding refresh_valid
rotatable container hash client_id now row =
    refresh_valid container hash now row && row.client_id == client_id

-- SET revoked_at = now(), replaced_by = $4
unfoldable pub replace_row : ℕ → String → RefreshRow → RefreshRow
replace_row now replaced_by row = record row {
  revoked_at = some now;
  replaced_by = some replaced_by;
}

-- What follows the UPDATE: `upd` is the row that it returned.
unfoldable pub insert_rotated :
    Session
    → String
    → String
    → String
    → List String
    → List String
    → Option RefreshRow
    → Exec Database Bool
insert_rotated s old_hash new_hash client_id scope resource none = pure false
insert_rotated s old_hash new_hash client_id scope resource (some upd) = do
  insert_refresh s (
      refresh_row s new_hash client_id upd.user_id scope resource (some old_hash)
        upd.auth_code_hash)
  pure true

unfoldable pub rotate_refresh_token :
    Session → String → String → String → List String → List String → Exec Database Bool
rotate_refresh_token s old_refresh_raw new_refresh_raw client_id scope resource = do
  old_hash ← lift (token_hash s.crypto s.settings old_refresh_raw)
  new_hash ← lift (token_hash s.crypto s.settings new_refresh_raw)
  let matches = rotatable s.container_db_key old_hash client_id s.now
  upd ← gets (λ db. select_row matches db.refresh_tokens)
  modify λ db. record db {
    refresh_tokens = update_rows matches (replace_row s.now new_hash) db.refresh_tokens;
  }
  insert_rotated s old_hash new_hash client_id scope resource upd

unfoldable pub get_valid_refresh : Session → String → Exec Database (Option Refresh)
get_valid_refresh s token = do
  hash ← lift (token_hash s.crypto s.settings token)
  row ← gets (λ db. select_row (refresh_valid s.container_db_key hash s.now) db.refresh_tokens)
  pure (map_option row_to_refresh row)

unfoldable pub get_refresh_token : Session → String → Exec Database (Option Refresh)
get_refresh_token s token = do
  hash ← lift (token_hash s.crypto s.settings token)
  row ← gets (λ db. select_row (refresh_key s.container_db_key hash) db.refresh_tokens)
  pure (map_option row_to_refresh row)

unfoldable pub revoke_refresh_token : Session → String → Exec Database (Unit {0})
unfolding revoke_row
revoke_refresh_token s token = do
  hash ← lift (token_hash s.crypto s.settings token)
  modify λ db. record db {
    refresh_tokens =
        update_rows (refresh_key s.container_db_key hash) (revoke_row s.now) db.refresh_tokens;
  }
