-- ===== src/Storage/Repository/Containers.antt =====
-- storage/pg/repository.py: what removes rows of every table, a container's or the expired ones.
use guillotina_oauth_server.Prelude.{ℕ, Bool, Option, none, some, false, ◌==◌, ltb}
use guillotina_oauth_server.Exec.{Exec, modify, ◌>>◌}
use guillotina_oauth_server.Sql.{delete_rows, delete_limited}
use guillotina_oauth_server.Storage.Rows.{CodeRow, RefreshRow, ConsentRow, Database, Session}

unfoldable pub delete_container_data : Session → Exec Database (Unit {0})
delete_container_data s = do
  modify λ db. record db {
    consents = delete_rows (λ r. r.container_db_key == s.container_db_key) db.consents;
  }
  modify λ db. record db {
    refresh_tokens = delete_rows (λ r. r.container_db_key == s.container_db_key) db.refresh_tokens;
  }
  modify λ db. record db {
    codes = delete_rows (λ r. r.container_db_key == s.container_db_key) db.codes;
  }
  modify λ db. record db {
    clients = delete_rows (λ r. r.container_db_key == s.container_db_key) db.clients;
  }

-- expires_at < now()
unfoldable pub code_expired : ℕ → CodeRow → Bool
code_expired now row = ltb row.expires_at now

unfoldable pub refresh_expired : ℕ → RefreshRow → Bool
refresh_expired now row = ltb row.expires_at now

before : Option ℕ → ℕ → Bool
before none now = false
before (some t) now = ltb t now

-- expires_at IS NOT NULL AND expires_at < now()
unfoldable pub consent_expired : ℕ → ConsentRow → Bool
unfolding before
consent_expired now row = before row.expires_at now

-- One run, in one transaction, over the rows of every container.
unfoldable pub cleanup_expired : ℕ → ℕ → Exec Database (Unit {0})
cleanup_expired now batch_size = do
  modify λ db. record db { codes = delete_limited batch_size (code_expired now) db.codes }
  modify λ db. record db {
    refresh_tokens = delete_limited batch_size (refresh_expired now) db.refresh_tokens;
  }
  modify λ db. record db { consents = delete_limited batch_size (consent_expired now) db.consents }
