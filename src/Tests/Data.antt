-- ===== src/Tests/Data.antt =====
-- A container with one client, one code, one refresh token and one consent.
use guillotina_oauth_server.Prelude.{String, none, some, [], ◌∷◌, ◌≡◌, refl, Dict, concat, false}
use guillotina_oauth_server.Exec.{ok, pure}
use guillotina_oauth_server.Config.{Crypto, default_settings}
use guillotina_oauth_server.Flow.Keys.{base_secret, derive_key, token_hash}
use guillotina_oauth_server.Sql.{select_row}
use guillotina_oauth_server.Storage.Rows.{
  ClientRow, CodeRow, RefreshRow, ConsentRow, Database, Session,
}
use guillotina_oauth_server.Storage.PrimaryKeys.{IsWellFormed}
use guillotina_oauth_server.Utils.RateLimit.Redis.{RedisDriver}
use guillotina_oauth_server.Utils.Request.Params.{Param, text}
use guillotina_oauth_server.Api.Response.{Context, State}

abbrev pub crypto : Crypto
crypto = record {
  hmac_sha256 = λ key message. concat key message;
  hmac_sha256_hex = λ key message. message;
  sha256_urlsafe_b64 = λ message. message;
}

abbrev pub store : Session
store = record {
  container_db_key = "db/guillotina";
  now = 1000;
  settings = default_settings "secret";
  crypto = crypto;
}

abbrev pub other_store : Session
other_store = record store { container_db_key = "db/other" }

abbrev pub verifier : String
verifier = "abcdefghijklmnopqrstuvwxyz0123456789-ABCDEFGHIJ"

abbrev pub client_row : ClientRow
client_row = record {
  container_db_key = "db/guillotina";
  client_id = "app";
  client_name = "App";
  redirect_uris = "https://app.example/cb" ∷ [];
  grant_types = "authorization_code" ∷ "refresh_token" ∷ [];
  response_types = "code" ∷ [];
  scope = "guillotina:access";
  created_at = 10;
  updated_at = 10;
}

abbrev pub code_row : CodeRow
code_row = record {
  container_db_key = "db/guillotina";
  code_hash = "code-1";
  client_id = "app";
  user_id = "alice";
  redirect_uri = "https://app.example/cb";
  scope = "guillotina:access" ∷ [];
  resource = "https://api.example" ∷ [];
  code_challenge = some verifier;
  expires_at = 2000;
  created_at = 900;
}

abbrev pub refresh_row : RefreshRow
refresh_row = record {
  container_db_key = "db/guillotina";
  token_hash = "token-1";
  client_id = "app";
  user_id = "alice";
  scope = "guillotina:access" ∷ [];
  resource = "https://api.example" ∷ [];
  expires_at = 5000;
  rotated_from = none;
  auth_code_hash = some "code-0";
  revoked_at = none;
  replaced_by = none;
  created_at = 500;
  last_used_at = none;
}

abbrev pub consent_row : ConsentRow
consent_row = record {
  container_db_key = "db/guillotina";
  consent_key = "alice|app|guillotina:access|https://api.example";
  user_id = "alice";
  client_id = "app";
  scope = "guillotina:access" ∷ [];
  resource = "https://api.example" ∷ [];
  granted_at = 400;
  expires_at = some 9000;
}

abbrev pub database : Database
database = record {
  clients = client_row ∷ [];
  codes = code_row ∷ [];
  refresh_tokens = refresh_row ∷ [];
  consents = consent_row ∷ [];
}

pub database-IsWellFormed : IsWellFormed database
unfolding select_row
database-IsWellFormed = record {
  clients = (refl, tt);
  codes = (refl, tt);
  refresh_tokens = (refl, tt);
  consents = (refl, tt);
}

-- With these functions the hash of a token is the token.
pub token_hash_here :
    (token : String) → token_hash crypto (default_settings "secret") token ≡ ok token
unfolding token_hash derive_key base_secret
token_hash_here token = refl

abbrev pub no_redis : RedisDriver (Unit {0})
no_redis = record {
  get_driver = pure tt;
  fetch = λ key. pure none;
  save = λ key window expire. pure tt;
}

abbrev pub context : Context (Unit {0})
context = record {
  session = store;
  driver = no_redis;
  redis_enabled = false;
  clocks = record { wall = 50; monotonic = 50 };
  utc_now = 1000;
  token_urlsafe = "new";
  container_issuer_url = ok "https://guillotina.example";
  jwt_encode = λ claims key. concat key claims.sub;
  authenticated_user = some "alice";
}

abbrev pub state : State (Unit {0})
state = record {
  database = database;
  limiter = record { windows = []; redis_unavailable = false; redis = tt };
}

abbrev pub code_params : Dict Param
code_params =
    ("grant_type", text "authorization_code")
    ∷ ("client_id", text "app")
    ∷ ("code", text "code-1")
    ∷ ("redirect_uri", text "https://app.example/cb")
    ∷ ("code_verifier", text verifier)
    ∷ []

abbrev pub refresh_params : Dict Param
refresh_params =
    ("grant_type", text "refresh_token")
    ∷ ("client_id", text "app")
    ∷ ("refresh_token", text "token-1")
    ∷ []
