-- ===== src/Tests/Stores.antt =====
-- The theorems on the store at concrete inputs.
use guillotina_oauth_server.Prelude.{eq_iff, ◌≡◌, ◌≢◌, refl, arith, none, some, [], ◌∷◌}
use guillotina_oauth_server.Exec.{ok}
use guillotina_oauth_server.Sql.{select_row}
use guillotina_oauth_server.Storage.Rows.{Session, row_to_refresh}
use guillotina_oauth_server.Flow.Keys.{token_hash, derive_key, base_secret}
use guillotina_oauth_server.Storage.Operations.{
  perform, call, run, delete_container_data, consume_code, revoke_refresh_token,
}
use guillotina_oauth_server.Storage.Repository.Codes
use guillotina_oauth_server.Storage.Repository.Tokens
use guillotina_oauth_server.Storage.Repository.Tokens.{of_family, of_auth_code, of_user_client}
use guillotina_oauth_server.Storage.Repository.Consents
use guillotina_oauth_server.Storage.Repository.Containers
use guillotina_oauth_server.Storage.Isolation.{rows_of, rows_of-perform}
use guillotina_oauth_server.Storage.SingleUse.{stores_code, consume_code_once}
use guillotina_oauth_server.Storage.Revocation.{stores_refresh, refresh_token_stays_invalid}
use guillotina_oauth_server.Storage.Families.Rows.{
  RevokesRows, InFamily, revoke_refresh_family-RevokesRows,
}
use guillotina_oauth_server.Storage.Cleanup.{cleanup_expired_invisible}
use guillotina_oauth_server.Storage.Remembered.{lasts, has_consent-create_consent}
use guillotina_oauth_server.Tests.Data.{store, database, token_hash_here}

different : store.container_db_key ≢ "db/other"
different e = absurd (ground (arith, eq_iff "db/guillotina" "db/other"))

rows_of-perform_example :
    rows_of "db/other" (perform store delete_container_data database) ≡ rows_of "db/other" database
rows_of-perform_example = rows_of-perform store "db/other" different delete_container_data database

consume_code_once_example :
    let db' =
      run
        (call store (revoke_refresh_token "token-1") ∷ [])
        (Codes.consume_code store "code-1" database).1 in
    ((Codes.consume_code (record store { now = 1001 }) "code-1" db').0 ≡ ok none)
    × ((Codes.get_active_code (record store { now = 1001 }) "code-1" db').0 ≡ ok none)
unfolding stores_code
consume_code_once_example =
    consume_code_once store "code-1" (call store (revoke_refresh_token "token-1") ∷ []) 1001
      database (token_hash_here "code-1") (refl, tt) (omega arith)

refresh_token_stays_invalid_example :
    (Tokens.get_valid_refresh
      (record store { now = 1001 })
      "token-2"
      (run (call store (consume_code "code-1") ∷ []) database)).0
    ≡ ok none
unfolding stores_refresh Tokens.get_valid_refresh token_hash derive_key base_secret select_row
    Tokens.refresh_valid row_to_refresh
refresh_token_stays_invalid_example =
    refresh_token_stays_invalid store "token-2" (call store (consume_code "code-1") ∷ []) 1001
      database (token_hash_here "token-2") (refl, tt) (omega arith) refl

revoke_refresh_family-RevokesRows_example :
    RevokesRows
      (InFamily "db/guillotina" "app" "alice" (some "code-0"))
      1000
      database
      (Tokens.revoke_refresh_family store "app" "alice" (some "code-0") database)
revoke_refresh_family-RevokesRows_example =
    revoke_refresh_family-RevokesRows store "app" "alice" (some "code-0") database

has_consent-create_consent_example :
    let db' = (Consents.create_consent store "k" "bob" "app" [] [] database).1 in
    ((Consents.has_consent (record store { now = 2000 }) "k" db').0
      ≡ ok (lasts 1000 store.settings.consent_ttl 2000))
    × ((Consents.has_consent (record store { now = 2000 }) "j" db').0
        ≡ (Consents.has_consent (record store { now = 2000 }) "j" database).0)
has_consent-create_consent_example =
    has_consent-create_consent store "k" "bob" "app" [] [] 2000 "j" database
      (λ e. absurd (ground (arith, eq_iff "k" "j")))

cleanup_expired_invisible_example :
    let late : Session = record store { now = 3000 } in
    let cleaned = (Containers.cleanup_expired 3000 1 database).1 in
    ((Codes.get_active_code late "code-1" cleaned).0
      ≡ (Codes.get_active_code late "code-1" database).0)
    × ((Tokens.get_valid_refresh late "token-1" cleaned).0
        ≡ (Tokens.get_valid_refresh late "token-1" database).0)
    × ((Consents.has_consent late "k" cleaned).0 ≡ (Consents.has_consent late "k" database).0)
    × ((Consents.list_consents late "alice" cleaned).0
        ≡ (Consents.list_consents late "alice" database).0)
cleanup_expired_invisible_example =
    cleanup_expired_invisible (record store { now = 3000 }) 3000 1 (omega arith) database "code-1"
      "token-1" "k" "alice"
