-- ===== src/Storage/Repository/Clients.antt =====
-- storage/pg/repository.py: registered clients.
use guillotina_oauth_server.Prelude.{String, Bool, ◌&&◌, Option, none, some, List, ◌==◌, map_option}
use guillotina_oauth_server.Exec.{Exec, ok, err, unique_violation, ◌>>=◌, pure, gets}
use guillotina_oauth_server.Sql.{select_row, insert_row}
use guillotina_oauth_server.Storage.Rows.{ClientRow, Client, Database, Session, row_to_client}

-- WHERE container_db_key = $1 AND client_id = $2
unfoldable pub client_key : String → String → ClientRow → Bool
client_key container client_id row = row.container_db_key == container && row.client_id == client_id

unfoldable pub get_client : Session → String → Exec Database (Option Client)
unfolding row_to_client
get_client s client_id = do
  row ← gets (λ db. select_row (client_key s.container_db_key client_id) db.clients)
  pure (map_option row_to_client row)

-- The row that the INSERT writes for a client's dict.
unfoldable pub client_row : Session → Client → ClientRow
client_row s client = record {
  container_db_key = s.container_db_key;
  client_id = client.client_id;
  client_name = client.client_name;
  redirect_uris = client.redirect_uris;
  grant_types = client.grant_types;
  response_types = client.response_types;
  scope = client.scope;
  created_at = client.created_at;
  updated_at = client.updated_at;
}

store_clients : Option (List ClientRow) → Exec Database (Unit {0})
store_clients none db = (err unique_violation, db)
store_clients (some rows) db = (ok tt, record db { clients = rows })

unfoldable pub create_client : Session → Client → Exec Database (Unit {0})
unfolding store_clients client_row
create_client s client db =
    store_clients
      (insert_row (client_key s.container_db_key client.client_id) (client_row s client) db.clients)
      db
