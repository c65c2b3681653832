-- ===== src/Auth/Validators.antt =====
-- auth/validators.py and auth/context.py.
use guillotina_oauth_server.Prelude.{
  String, Bool, true, false, not, ◌&&◌, ◌||◌, Option, none, some, List, ◌==◌, if◌then◌else◌,
  has_char, member,
}
use guillotina_oauth_server.Exec.{Result, ok, ◌and_then◌}
use guillotina_oauth_server.Config.{Settings, Crypto}
use guillotina_oauth_server.Flow.Keys.{access_token_signing_key}
use guillotina_oauth_server.Flow.Scopes.{oauth_default_scope}
use guillotina_oauth_server.Indicators.Registry.{Registry}
use guillotina_oauth_server.Indicators.Access.{required_resource_indicator}
use guillotina_oauth_server.Utils.Request.Words.{split}

-- The claims that `jwt.decode` returns, as far as they are read.
pub record Decoded : Type 0 where
  pub token_type : Option String
  pub iss : Option String
  pub aud : List String
  pub client_id : Option String
  pub scope : String
  pub id : Option String
  pub sub : Option String

-- The dict that is validated: `type` and `token`.
pub record Credentials : Type 0 where
  pub type : Option String
  pub token : String

-- OAuthTokenContext
pub record OauthTokenContext : Type 0 where
  pub client_id : Option String
  pub scopes : List String
  pub resource_indicators : List String
  pub claims : Decoded

-- What the validators take from outside: `jwt.decode` with a key and the algorithm of the settings, which
-- also checks `exp`, and `jwt.decode` with no check, none where a PyJWTError is raised; `find_user` by the
-- id of a token; and the validator of Guillotina.
pub record Jwt : Type 0 where
  pub decode : String → String → Option Decoded
  pub decode_unverified : String → Option Decoded
  pub find_user : Option String → Option String
  pub guillotina_validate : Credentials → Option String

-- The request and the container of `task_vars`: whether there is a request, and, where there is a
-- container as well, the issuer of the container and the resolvers of resources.
pub record Vars : Type 0 where
  pub has_request : Bool
  pub container : Option (Result String × Registry)

-- The user, and what is set as `request.oauth`.
pub record Validated : Type 0 where
  pub user : Option String
  pub oauth : Option OauthTokenContext

abbrev pub refused : Validated
refused = record { user = none; oauth = none }

unfoldable pub is_some_text : Option String → String → Bool
is_some_text none t = false
is_some_text (some s) t = s == t

unfoldable pub is_oauth_token : Decoded → Bool
unfolding is_some_text
is_oauth_token claims = is_some_text claims.token_type "oauth_access_token"

unfoldable pub unverified_is_oauth : Option Decoded → Bool
unfolding is_oauth_token
unverified_is_oauth none = false
unverified_is_oauth (some claims) = is_oauth_token claims

-- JWTValidator.validate
unfoldable pub jwt_validate : Jwt → Credentials → Option String
unfolding unverified_is_oauth
jwt_validate jwt token =
    if has_char b'.' token.token && unverified_is_oauth (jwt.decode_unverified token.token)
    then none
    else jwt.guillotina_validate token

unfoldable pub is_missing : Option String → Bool
is_missing none = true
is_missing (some s) = s == ""

-- claims.get("id", claims.get("sub"))
unfoldable pub subject : Decoded → Option String
subject claims = elim claims.id [ some id ↦ some id | none ↦ claims.sub ]

unfoldable pub same_id : Option String → String → Bool
same_id none user = false
same_id (some id) user = id == user

-- What follows `find_user`
unfoldable pub with_context : Vars → Decoded → Option String → Validated
unfolding same_id
with_context vars claims none = refused
with_context vars claims (some user) = record {
  user = some user;
  oauth =
      if same_id (subject claims) user && vars.has_request
      then some (record {
        client_id = claims.client_id;
        scopes = split claims.scope;
        resource_indicators = claims.aud;
        claims = claims;
      })
      else none;
}

unfoldable pub client_and_scope_checked : Jwt → Vars → Decoded → Validated
unfolding is_missing with_context subject
client_and_scope_checked jwt vars claims =
    if is_missing claims.client_id
    then refused
    else if not (member oauth_default_scope (split claims.scope))
    then refused
    else with_context vars claims (jwt.find_user (subject claims))

-- The issuer and the audience, where there is a request and a container
unfoldable pub site_checked :
    Jwt → Vars → Decoded → Option (Result String × Registry) → Result Validated
unfolding client_and_scope_checked is_some_text
site_checked jwt vars claims none = ok (client_and_scope_checked jwt vars claims)
site_checked jwt vars claims (some (issuer, registry)) =
    if not vars.has_request
    then ok (client_and_scope_checked jwt vars claims)
    else issuer and_then λ url.
        if not (is_some_text claims.iss url)
        then ok refused
        else required_resource_indicator issuer registry and_then λ required.
            if member required claims.aud
            then ok (client_and_scope_checked jwt vars claims)
            else ok refused

unfoldable pub claims_checked : Jwt → Vars → Option Decoded → Result Validated
unfolding site_checked is_oauth_token
claims_checked jwt vars none = ok refused
claims_checked jwt vars (some claims) =
    if is_oauth_token claims then site_checked jwt vars claims vars.container else ok refused

-- OAuthJWTValidator.validate
unfoldable pub oauth_validate : Crypto → Settings → Jwt → Vars → Credentials → Result Validated
unfolding claims_checked is_some_text
oauth_validate crypto settings jwt vars token =
    if not (is_some_text token.type "bearer") || not (has_char b'.' token.token)
    then ok refused
    else access_token_signing_key crypto settings and_then λ key.
        claims_checked jwt vars (jwt.decode token.token key)
