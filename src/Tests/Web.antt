-- ===== src/Tests/Web.antt =====
-- A browser, an authorization request, and what the app sends next.
use guillotina_oauth_server.Prelude.{String, Bool, true, false, some, [], ◌∷◌, Dict, pos, concat}
use guillotina_oauth_server.Exec.{ok}
use guillotina_oauth_server.Storage.Rows.{Client}
use guillotina_oauth_server.Flow.Csrf.{Codec, Payload}
use guillotina_oauth_server.Utils.Request.Params.{Param, Request, text}
use guillotina_oauth_server.Api.Pages.{Templates}
use guillotina_oauth_server.Api.Authorize.Request.{Browser, AuthorizationRequest}
use guillotina_oauth_server.Api.Authorize.Grant.{Grant}
use guillotina_oauth_server.Tests.Data.{verifier}

-- Every netloc passes.
abbrev pub checked : String → Bool
checked netloc = true

abbrev pub payload : Payload
payload = record {
  user_id = "alice";
  client_id = "app";
  redirect_uri = "https://app.example/cb";
  response_type = "code";
  scope = "guillotina:access" ∷ [];
  state = "xyz";
  code_challenge = verifier;
  code_challenge_method = "S256";
  resource = "https://api.example" ∷ [];
}

-- A codec that knows one payload and one time.
abbrev pub codec : Codec
codec = record {
  encode = λ p t. "body";
  decode = λ body. some (some payload, some (pos 40));
  b64url_encode = λ raw. raw;
}

abbrev pub templates : Templates
templates = record { render = λ name values. name; style = ""; logo = "" }

abbrev pub browser : Browser
browser = record {
  checked = checked;
  codec = codec;
  csrf_ttl = pos 600;
  templates = templates;
  auth_token_validators = [];
  authenticate_user = λ id. concat "session-" id;
  registry = record { allowed = []; required = []; default_registered = false };
}

abbrev pub request : Request
request = record { content_type = some "application/json"; body = []; client = some "10.0.0.1" }

abbrev pub authorization_request : AuthorizationRequest
authorization_request = record {
  request = request;
  method = "GET";
  scheme_is_https = true;
  query = [];
  json = ok [];
}

abbrev pub authorize_params : Dict Param
authorize_params =
    ("response_type", text "code")
    ∷ ("client_id", text "app")
    ∷ ("redirect_uri", text "https://app.example/cb")
    ∷ ("scope", text "guillotina:access")
    ∷ ("state", text "xyz")
    ∷ ("code_challenge", text verifier)
    ∷ ("code_challenge_method", text "S256")
    ∷ []

abbrev pub client : Client
client = record {
  client_id = "app";
  client_name = "App";
  redirect_uris = "https://app.example/cb" ∷ [];
  grant_types = "authorization_code" ∷ "refresh_token" ∷ [];
  response_types = "code" ∷ [];
  token_endpoint_auth_method = "none";
  scope = "guillotina:access";
  created_at = 10;
  updated_at = 10;
}

abbrev pub grant : Grant
grant = record {
  client = client;
  user_id = "alice";
  scopes = "guillotina:access" ∷ [];
  resources = "https://api.example" ∷ [];
  redirect_uri = "https://app.example/cb";
  issuer = "https://guillotina.example";
}

-- The token request for the code "goc_new"
abbrev pub next_params : Dict Param
next_params =
    ("client_id", text "app")
    ∷ ("code", text "goc_new")
    ∷ ("redirect_uri", text "https://app.example/cb")
    ∷ ("code_verifier", text verifier)
    ∷ []
