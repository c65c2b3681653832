-- ===== src/Integrations/Challenge.antt =====
-- integrations/mcp: the authentication challenge of access.py and middleware.py, and __init__.py.
use guillotina_oauth_server.Prelude.{
  ℕ, ◌≡◌, refl, String, Bool, false, not, ◌&&◌, Option, none, some, List, [], ◌∷◌, ◌++◌, ◌==◌,
  arith, if◌then◌else◌, concat, join, starts_with, ends_with, lower, leb, member, Dict, get, put,
  get-put, Bool-cases, inl, inr,
}
use guillotina_oauth_server.Exec.{Result, ok, ◌and_then◌}
use guillotina_oauth_server.Flow.Scopes.{oauth_default_scope}
use guillotina_oauth_server.Indicators.Registry.{
  Registry, Resolver, register_allowed_indicator_resolver, register_required_indicator_resolver,
}
use guillotina_oauth_server.Integrations.Identifiers.{protocol}

-- The parts of the ASGI scope that are read.
pub record Scope : Type 0 where
  pub type : Option String
  pub method : Option String
  pub path : String

-- A response: its status, where it has one, whether it is prepared, and its headers.
pub record Sent : Type 0 where
  pub status : Option ℕ
  pub prepared : Bool
  pub headers : Dict String

is_status : Option ℕ → ℕ → Bool
is_status none n = false
is_status (some m) n = leb m n && leb n m

says : Option String → String → Bool
says none t = false
says (some s) t = s == t

has_challenge : Option String → Bool
has_challenge none = false
has_challenge (some header) = not (header == "")

unfoldable pub should_add_challenge : Scope → Sent → Bool
unfolding is_status says has_challenge
should_add_challenge scope response =
    if has_challenge (get response.headers "WWW-Authenticate")
    then false
    else says scope.type "http"
      && says scope.method "POST"
      && ends_with protocol scope.path
      && is_status response.status 401
      && not response.prepared

quoted_part : String → String → String
quoted_part name value = concat name (concat "=\"" (concat value "\""))

-- `_challenge_headers`, of the URL of the metadata
unfoldable pub challenge_headers : String → Option (String × String) → String
unfolding quoted_part
challenge_headers metadata none = join ", " (
    "Bearer realm=\"guillotina-mcp\""
    ∷ quoted_part "resource_metadata" metadata
    ∷ quoted_part "scope" oauth_default_scope
    ∷ [])
challenge_headers metadata (some (error, description)) = join ", " (
    "Bearer realm=\"guillotina-mcp\""
    ∷ quoted_part "resource_metadata" metadata
    ∷ quoted_part "scope" oauth_default_scope
    ∷ quoted_part "error" error
    ∷ quoted_part "error_description" description
    ∷ [])

abbrev pub invalid_token : Option (String × String)
invalid_token =
    some ("invalid_token", "OAuth access token is not valid for this protected resource")

-- `unauthorized_headers`: a request with a bearer token is told that the token is not valid.
unfoldable pub unauthorized_headers : String → String → String
unauthorized_headers authorization metadata =
    if starts_with "bearer " (lower authorization)
    then challenge_headers metadata invalid_token
    else challenge_headers metadata none

-- The call of the middleware on the response of the next app. `context` is whether there is a request with a
-- context, and then the header AUTHORIZATION of the request and the URL of the metadata.
unfoldable pub challenge : Option (String × Result String) → Scope → Sent → Result Sent
unfolding should_add_challenge unauthorized_headers
challenge context scope response =
    if should_add_challenge scope response
    then (elim context [
      | none ↦ ok response
      | some (authorization, metadata) ↦ metadata and_then λ url. ok (record response {
        headers = put response.headers "WWW-Authenticate" (unauthorized_headers authorization url);
      })
    ])
    else ok response

abbrev middleware : String
middleware = "guillotina_oauth_server.integrations.mcp.middleware.OAuthMCPChallengeMiddleware"

-- `_ensure_challenge_middleware`, on the list of middlewares of the settings
unfoldable pub ensure_challenge_middleware : List String → List String
ensure_challenge_middleware middlewares =
    if member middleware middlewares then middlewares else middlewares ++ middleware ∷ []

-- `register_mcp_oauth_integration`, but for the provider of metadata
unfoldable pub register_mcp_oauth_integration :
    Resolver → Resolver → Registry × List String → Registry × List String
unfolding ensure_challenge_middleware register_allowed_indicator_resolver
    register_required_indicator_resolver
register_mcp_oauth_integration resource_resolver audience_resolver (registry, middlewares) = (
  register_required_indicator_resolver audience_resolver
      (register_allowed_indicator_resolver resource_resolver registry),
  ensure_challenge_middleware middlewares,
)

-- A response that answers a POST to the MCP protocol with 401 and no challenge gets one, so the client learns
-- where the metadata of the resource are. Any other response, and any with a challenge of its own, is passed
-- on as it is, and a status never changes.
pub challenge_lem :
    (authorization url : String) (scope : Scope) (response : Sent)
    → (sent : Sent) × (challenge (some (authorization, ok url)) scope response ≡ ok sent)
      × (sent.status ≡ response.status)
      × (get sent.headers "WWW-Authenticate" ≡ (
          if should_add_challenge scope response
          then some (unauthorized_headers authorization url)
          else get response.headers "WWW-Authenticate"))
unfolding challenge
challenge_lem authorization url scope response =
    elim (Bool-cases (should_add_challenge scope response)) [
      | inr e ↦ (response, ground arith, refl, ground arith)
      | inl e ↦ (
        record response {
          headers =
              put response.headers "WWW-Authenticate" (unauthorized_headers authorization url);
        },
        rw e refl,
        refl,
        rw e (
            get-put response.headers "WWW-Authenticate" (unauthorized_headers authorization url)
              "WWW-Authenticate"),
      )
    ]
