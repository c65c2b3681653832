-- ===== src/Tests/Databases.antt =====
-- The theorems on databases, containers and registrations at concrete inputs.
use guillotina_oauth_server.Storage.Repository.Clients.{client_key, client_row, create_client}
use guillotina_oauth_server.Flow.Scopes.{oauth_scopes_supported}
use guillotina_oauth_server.Utils.Urls.Parse.{
  urlparse, split_netloc, cut, hostname, is_alpha, split_scheme, split_userinfo, url_of,
}
use guillotina_oauth_server.Flow.Clients.RedirectUris.{
  validate_redirect_uri, is_loopback_http_redirect, is_private_use_redirect, redirect_url_valid,
}
use guillotina_oauth_server.Flow.Clients.Registration.{
  build_client_from_registration, any_unsafe, any_unsupported, client_name_of, client_name_text,
  client_of, grants_of, non_empty_array, refuse_if, requested_scope, responses_of, scope_checked,
  texts, types_checked, uris_of, validate_redirect_value,
}
use guillotina_oauth_server.Utils.Request.Words.{equals_lowered, strip, before_semicolon, is_space}
use guillotina_oauth_server.Utils.Request.Params.{
  json_content_type_valid, peer_ip_address, raise_oauth_error,
}
use guillotina_oauth_server.Utils.RateLimit.Memory.{
  active_limit, memory_rate_limit_exceeded, track_and_record, record_hit, change_deque,
  popleft_expired, prune_if_needed,
}
use guillotina_oauth_server.Utils.RateLimit.Redis.{
  rate_limit_exceeded, with_fallback, decode_redis_window, get_redis_driver, numbers, redis_key,
  redis_rate_limit_exceeded, redis_window, within,
}
use guillotina_oauth_server.Storage.Schema.Install.{install_oauth_baseline}
use guillotina_oauth_server.Prelude.{
  ◌≡◌, refl, String, true, false, none, some, [], ◌∷◌, Dict, concat, List, has_char, arith, ℕ, get,
  all_chars, lower, partition, starts_with_char, put, join,
}
use guillotina_oauth_server.Exec.{ok, err, Result, http_precondition_failed}
use guillotina_oauth_server.Sql.{select_row, insert_row}
use guillotina_oauth_server.Utils.Json
use guillotina_oauth_server.Storage.Rows.{Client}
use guillotina_oauth_server.Storage.Schema.Status.{Schema, versioned, get_schema_status}
use guillotina_oauth_server.Storage.Utility.Startup.{Entry, Locks, ensure_oauth_schema, is_known}
use guillotina_oauth_server.Storage.Utility.Sound.{Tells, ensure_oauth_schema-Tells}
use guillotina_oauth_server.Storage.Utility.Rounds.{Tick, elapsed, failed, changed}
use guillotina_oauth_server.Storage.Utility.Drained.{run}
use guillotina_oauth_server.Storage.Repository.Containers
use guillotina_oauth_server.Storage.Access.{
  TaskVars, active_database_id, oauth_container_db_key, is_installed, oauth_container_db_key_unique,
}
use guillotina_oauth_server.Commands.Databases.{Arguments, run_unchanged}
use guillotina_oauth_server.Commands.Databases
use guillotina_oauth_server.Api.Response.{Response, registered, not_found, redirect}
use guillotina_oauth_server.Api.Register.{
  client_registration_endpoint, register_json, register_unless, store_built, store_client,
}
use guillotina_oauth_server.Api.Registered.{Registered, client_registration_endpoint-Registered}
use guillotina_oauth_server.Api.Services.{
  Handler, container_oauth_service, container_oauth_service-uninstalled,
}
use guillotina_oauth_server.Tests.Data.{refresh_row, context, state, database}
use guillotina_oauth_server.Tests.Web.{checked, request, client}

abbrev no_schema : Schema
no_schema = record { tables = []; meta_exists = false; version = none }

abbrev free_locks : Locks
free_locks = record { at_once = true; rounds = [] }

never_known : is_known 7 [] ≡ true → get_schema_status no_schema ≡ versioned
unfolding is_known
never_known h = absurd (ground arith)

schema_ensured : (ensure_oauth_schema true free_locks 7 [] no_schema).0 ≡ ok versioned
unfolding ensure_oauth_schema get_schema_status install_oauth_baseline
schema_ensured = refl

ensure_oauth_schema-Tells_example :
    Tells true versioned (ensure_oauth_schema true free_locks 7 [] no_schema).2
ensure_oauth_schema-Tells_example =
    ensure_oauth_schema-Tells true free_locks 7 [] no_schema versioned refl never_known
      schema_ensured

abbrev entry : Entry
entry = record {
  id = "db";
  is_database = true;
  is_postgres = true;
  pool_id = 7;
  schema = no_schema;
  rows = database;
}

-- A store adds a refresh token to each database.
abbrev add_token : Entry → Entry
add_token e = record e {
  rows = record e.rows {
    refresh_tokens =
        record refresh_row { token_hash = "token-2"; expires_at = 20_000 } ∷ e.rows.refresh_tokens;
  };
}

-- The first run fails before it cleans anything.
abbrev ticks : List Tick
ticks = failed 0 9200 ∷ changed add_token ∷ elapsed 9500 ∷ []

abbrev no_columns : Entry → String → Dict String
no_columns _ _ = []

abbrev dry_arguments : Arguments
dry_arguments = record { database = none; dry_run = true; show_version = false }

run_unchanged_example : Databases.run dry_arguments no_columns (λ _. true) (entry ∷ []) ≡ entry ∷ []
run_unchanged_example = run_unchanged dry_arguments no_columns (λ _. true) (entry ∷ []) refl

abbrev database_id : String
database_id = "db"

abbrev container_id : String
container_id = "guillotina"

abbrev task_vars : TaskVars
task_vars = record {
  transaction = some (some "db", true);
  database_id = none;
  enabled_addons = some [];
}

addon_missing : is_installed task_vars ≡ false
unfolding is_installed
addon_missing = refl

abbrev answered_elsewhere : Handler (Unit {0})
answered_elsewhere c state = (ok (redirect "https://app.example/cb"), state)

container_oauth_service-uninstalled_example :
    ((container_oauth_service task_vars "guillotina" context "GET"
        (("authorize", answered_elsewhere) ∷ [])
        "authorize"
        state).1
      ≡ state)
    × ((container_oauth_service task_vars "guillotina" context "GET"
          (("authorize", answered_elsewhere) ∷ [])
          "authorize"
          state).0
        ≡ (elim (get (("authorize", answered_elsewhere) ∷ []) "authorize")
            as (λ _. Result Response) [
              | none ↦ ok (
                  not_found
                    (concat "Unknown OAuth " (concat "GET" (concat " action: " "authorize"))))
              | some _ ↦ err (http_precondition_failed "OAuth addon is not installed" none)
            ]))
container_oauth_service-uninstalled_example =
    container_oauth_service-uninstalled task_vars "guillotina" context "GET"
      (("authorize", answered_elsewhere) ∷ []) "authorize" state addon_missing

database_known : active_database_id task_vars ≡ some "db"
unfolding active_database_id
database_known = refl

no_slash : has_char b'/' "db" ≡ false
unfolding has_char
no_slash = refl

key_known : oauth_container_db_key task_vars "guillotina" ≡ ok "db/guillotina"
unfolding oauth_container_db_key
key_known = refl

oauth_container_db_key_unique_example : (database_id ≡ database_id) × (container_id ≡ container_id)
oauth_container_db_key_unique_example =
    oauth_container_db_key_unique task_vars task_vars container_id container_id database_id
      database_id "db/guillotina" database_known database_known no_slash no_slash key_known
      key_known

abbrev metadata : Dict Json.Json
metadata =
    ("redirect_uris", Json.array (Json.cons (Json.text "https://new.example/cb") Json.nil))
    ∷ ("client_name", Json.text "New")
    ∷ []

abbrev created : ℕ
created = 201

abbrev new_client : Client
new_client = record client {
  client_id = "goc_new";
  client_name = "New";
  redirect_uris = "https://new.example/cb" ∷ [];
  created_at = 1000;
  updated_at = 1000;
}

registered_here :
    (client_registration_endpoint context checked "goc_new" (ok metadata) request state).0
    ≡ ok (registered 201 new_client 0)
unfolding client_registration_endpoint rate_limit_exceeded active_limit with_fallback
    memory_rate_limit_exceeded track_and_record get record_hit json_content_type_valid
    equals_lowered strip before_semicolon build_client_from_registration Json.or_null
    validate_redirect_uri has_char urlparse split_netloc register_json register_unless store_built
    store_client is_loopback_http_redirect is_private_use_redirect redirect_url_valid any_unsafe
    any_unsupported client_name_of client_name_text client_of grants_of non_empty_array refuse_if
    requested_scope responses_of scope_checked texts types_checked uris_of validate_redirect_value
    oauth_scopes_supported all_chars lower partition starts_with_char put join insert_row select_row
    client_key client_row create_client Json.truthy change_deque popleft_expired prune_if_needed
    decode_redis_window get_redis_driver numbers redis_key redis_rate_limit_exceeded redis_window
    within peer_ip_address raise_oauth_error is_space cut hostname is_alpha split_scheme
    split_userinfo url_of Json.words
registered_here = refl

client_registration_endpoint-Registered_example :
    (created ≡ created)
    × Registered context checked "goc_new"
        (ok metadata)
        new_client
        state.database
        (client_registration_endpoint context checked "goc_new"
          (ok metadata)
          request
          state).1.database
client_registration_endpoint-Registered_example =
    client_registration_endpoint-Registered context checked "goc_new" (ok metadata) request state
      created 0 new_client registered_here
