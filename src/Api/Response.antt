-- ===== src/Api/Response.antt =====
-- What an endpoint reads beside its request, what it answers, and api/endpoints/common.py.
use guillotina_oauth_server.Prelude.{
  ℕ, String, Bool, Option, none, some, List, [], ◌∷◌, ℤ, Dict, get,
}
use guillotina_oauth_server.Exec.{Exec, pure, raise, Result, ok, err, http_bad_request}
use guillotina_oauth_server.Storage.Rows.{Client, Database, Session}
use guillotina_oauth_server.Utils.RateLimit.Redis.{
  RedisDriver, Limiter, Clocks, rate_limit_exceeded,
}
use guillotina_oauth_server.Utils.Request.Params.{
  Param, text, repeated, Request, parse_form_encoded,
}
use guillotina_oauth_server.Flow.Tokens.{Claims}
use guillotina_oauth_server.Api.Pages.{Page}

-- The content of `token_response`, always sent with Cache-Control: no-store.
pub record Tokens : Type 0 where
  pub access_token : String
  pub expires_in : ℤ
  pub refresh_token : String
  pub scope : String

-- An item of the list of consents
pub record ConsentItem : Type 0 where
  pub consent_key : String
  pub client_id : String
  pub client_name : Option String
  pub scope : List String
  pub resource : List String
  pub granted_at : ℕ
  pub expires_at : Option ℕ

pub data Response : Type 0 where
  -- a status, an OAuth error code and its description
  error : ℕ → String → Option String → Response
  tokens : Tokens → Response
  consents : List ConsentItem → Response
  -- a status, and what is shown of a client that was registered at a time, in seconds
  registered : ℕ → Client → ℕ → Response
  page : Page → Response
  -- HTTPFound, with its location
  redirect : String → Response
  -- HTTPNotFound, with its reason
  not_found : String → Response
  -- a response with the Set-Cookie header
  with_cookie : String → Response → Response
  empty : Response

abbrev pub bad_request : String → Response
bad_request code = error 400 code none

-- What the endpoints take from outside: the store of the container in this transaction, the Redis
-- driver and whether Redis is set up, the clocks, the text that `secrets.token_urlsafe` returns, the
-- issuer that `container_issuer_url` returns, `jwt.encode`, and the authenticated user, if there is one.
pub record Context (R : Type 0) : Type 0 where
  pub session : Session
  pub driver : RedisDriver R
  pub redis_enabled : Bool
  pub clocks : Clocks
  -- datetime.now(timezone.utc)
  pub utc_now : ℕ
  pub token_urlsafe : String
  pub container_issuer_url : Result String
  pub jwt_encode : Claims → String → String
  pub authenticated_user : Option String

-- The state of the process and its database.
pub record State (R : Type 0) : Type 0 where
  pub database : Database
  pub limiter : Limiter R

-- An endpoint either answers, or lets an exception through.
abbrev pub Endpoint : Type 0 → Type 0
Endpoint R = Exec (State R) Response

module _ {R : Type 0} where
  -- A call of the store
  abbrev pub on_database : {A : Type 0} → Exec Database A → Exec (State R) A
  on_database m state = let (r, db) = m state.database in (r, record state { database = db })

  -- A call of `rate_limit_exceeded`
  abbrev pub limited : Context R → String → Option ℤ → ℕ → Exec (State R) Bool
  limited c key limit window state =
      let (verdict, l) =
        rate_limit_exceeded c.driver key limit window c.clocks c.redis_enabled state.limiter in
      (ok verdict, record state { limiter = l })

abbrev pub token_request_singleton_params : List String
token_request_singleton_params =
    "grant_type" ∷ "client_id" ∷ "redirect_uri" ∷ "code" ∷ "code_verifier" ∷ "refresh_token"
    ∷ "scope" ∷ []

abbrev pub revocation_request_singleton_params : List String
revocation_request_singleton_params = "client_id" ∷ "token" ∷ "token_type_hint" ∷ []

abbrev pub consent_request_singleton_params : List String
consent_request_singleton_params = "consent_key" ∷ "client_id" ∷ []

abbrev pub authorization_request_singleton_params : List String
authorization_request_singleton_params =
    "response_type" ∷ "client_id" ∷ "redirect_uri" ∷ "scope" ∷ "state" ∷ "code_challenge"
    ∷ "code_challenge_method" ∷ "decision" ∷ "username" ∷ "password" ∷ "oauth_csrf" ∷ []

-- `params.get(field)` of a field that may stand once
single : Option Param → Option String
single none = none
single (some (text s)) = some s
single (some (repeated texts)) = none

unfoldable pub optional_field : Dict Param → String → Option String
unfolding single
optional_field params name = single (get params name)

text_of : Option Param → String
text_of none = ""
text_of (some (text s)) = s
text_of (some (repeated texts)) = ""

-- `params.get(field)` of a field that may stand once, "" where it is missing: the endpoints treat a
-- missing field and an empty one alike. Forms and queries that hold such a field twice are rejected
-- before; a JSON body with a list for it is outside of this model.
unfoldable pub field : Dict Param → String → String
unfolding text_of
field params name = text_of (get params name)

-- What follows the parse of the body. An HTTPBadRequest is returned as the response.
unfoldable pub after_parse :
    {R : Type 0} → Result (Dict Param) → (Dict Param → Endpoint R) → Endpoint R
after_parse (ok params) rest = rest params
after_parse (err (http_bad_request code description)) rest = pure (error 400 code description)
after_parse (err e) rest = raise e

-- The start of an endpoint that reads a form.
unfoldable pub with_form :
    {R : Type 0} → Request → List String → (Dict Param → Endpoint R) → Endpoint R
unfolding after_parse
with_form request fields rest = after_parse (parse_form_encoded request.body fields) rest
