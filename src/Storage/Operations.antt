-- ===== src/Storage/Operations.antt =====
-- The calls that change a store, as data, and histories of such calls.
use guillotina_oauth_server.Prelude.{ℕ, String, Option, List, [], ◌∷◌}
use guillotina_oauth_server.Storage.Rows.{Client, Database, Session}
use guillotina_oauth_server.Storage.Repository.Clients
use guillotina_oauth_server.Storage.Repository.Consents
use guillotina_oauth_server.Storage.Repository.Codes
use guillotina_oauth_server.Storage.Repository.Tokens
use guillotina_oauth_server.Storage.Repository.Containers

pub data Operation : Type 0 where
  create_client : Client → Operation
  create_consent : String → String → String → List String → List String → Operation
  delete_consent : String → Option String → Operation
  create_code :
      String → String → String → String → List String → List String → Option String → Operation
  consume_code : String → Operation
  delete_code : String → Operation
  create_refresh_token :
      String
      → String
      → String
      → List String
      → List String
      → Option String
      → Option String
      → Operation
  rotate_refresh_token : String → String → String → List String → List String → Operation
  revoke_user_client_refresh_tokens : String → String → Operation
  revoke_refresh_tokens_by_auth_code : String → Operation
  revoke_refresh_family : String → String → Option String → Operation
  revoke_refresh_token : String → Operation
  delete_container_data : Operation

-- The database after a call, whether it returns or raises.
unfoldable pub perform : Session → Operation → Database → Database
perform s (create_client client) db = (Clients.create_client s client db).1
perform s (create_consent key user_id client_id scope resource) db =
    (Consents.create_consent s key user_id client_id scope resource db).1
perform s (delete_consent key user_id) db = (Consents.delete_consent s key user_id db).1
perform s (create_code raw_code client_id user_id redirect_uri scope resource code_challenge) db =
    (Codes.create_code s raw_code client_id user_id redirect_uri scope resource code_challenge db).1
perform s (consume_code code) db = (Codes.consume_code s code db).1
perform s (delete_code hash) db = (Codes.delete_code s hash db).1
perform s (create_refresh_token raw client_id user_id scope resource auth_code_hash rotated_from)
      db =
    (Tokens.create_refresh_token s raw client_id user_id scope resource auth_code_hash rotated_from
      db).1
perform s (rotate_refresh_token old new client_id scope resource) db =
    (Tokens.rotate_refresh_token s old new client_id scope resource db).1
perform s (revoke_user_client_refresh_tokens user_id client_id) db =
    (Tokens.revoke_user_client_refresh_tokens s user_id client_id db).1
perform s (revoke_refresh_tokens_by_auth_code hash) db =
    (Tokens.revoke_refresh_tokens_by_auth_code s hash db).1
perform s (revoke_refresh_family client_id user_id auth_code_hash) db =
    (Tokens.revoke_refresh_family s client_id user_id auth_code_hash db).1
perform s (revoke_refresh_token token) db = (Tokens.revoke_refresh_token s token db).1
perform s delete_container_data db = (Containers.delete_container_data s db).1

-- A call by the store of some container at some time, or a run of the cleanup task.
pub data Event : Type 0 where
  call : Session → Operation → Event
  cleanup : ℕ → ℕ → Event

unfoldable pub step : Event → Database → Database
unfolding perform
step (call s operation) db = perform s operation db
step (cleanup now batch_size) db = (Containers.cleanup_expired now batch_size db).1

unfoldable pub run : List Event → Database → Database
run [] db = db
run (event ∷ events) db = run events (step event db)
