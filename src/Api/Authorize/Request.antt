-- ===== src/Api/Authorize/Request.antt =====
-- api/endpoints/authorize.py: the parameters of an authorization request, and their tests.
use guillotina_oauth_server.Prelude.{
  String, Bool, true, false, not, ◌||◌, Option, none, some, List, [], ◌∷◌, map, ◌==◌, ℤ,
  if◌then◌else◌, Dict, get, put, member, is_subset, has_text,
}
use guillotina_oauth_server.Exec.{Result, ok, err, ◌and_then◌, raise}
use guillotina_oauth_server.Config.{Settings}
use guillotina_oauth_server.Storage.Rows.{Client}
use guillotina_oauth_server.Flow.Pkce.{pkce_challenge_valid}
use guillotina_oauth_server.Flow.Scopes.{oauth_default_scope, oauth_scopes_supported}
use guillotina_oauth_server.Flow.Csrf.{Codec}
use guillotina_oauth_server.Indicators.Registry.{Registry}
use guillotina_oauth_server.Utils.Request.Params.{
  Param, Request, normalize_list, parse_qs, as_param, reject_duplicate_params,
}
use guillotina_oauth_server.Utils.Request.Words.{split}
use guillotina_oauth_server.Api.Pages.{Templates}
use guillotina_oauth_server.Api.Response.{
  Endpoint, authorization_request_singleton_params, optional_field, after_parse, with_form,
}

-- A validator of credentials of app_settings["auth_token_validators"]: the kinds of credentials that it
-- takes (None for all), and the id of the user that it returns for basic credentials, if it returns one.
pub record Validator : Type 0 where
  pub for_validators : Option (List String)
  pub validate : String → String → Option String

-- What this endpoint takes from outside, beside the `Context` of all endpoints.
pub record Browser : Type 0 where
  -- the tests of `urlsplit` on a netloc
  pub checked : String → Bool
  pub codec : Codec
  -- `authorize_csrf_ttl` of the settings, 600 where it is not set
  pub csrf_ttl : ℤ
  pub templates : Templates
  pub auth_token_validators : List Validator
  -- the session token that `authenticate_user` of Guillotina returns for a user's id
  pub authenticate_user : String → String
  pub registry : Registry

-- A request of a browser. `query` is decoded like the body. `json` is what `await request.json()`
-- returns: texts, and lists of texts where a field may stand more than once.
pub record AuthorizationRequest : Type 0 where
  pub request : Request
  pub method : String
  pub scheme_is_https : Bool
  pub query : List (String × String)
  pub json : Result (Dict Param)

unfoldable pub params_preserving_repeated : List (String × String) → Dict Param
unfolding as_param
params_preserving_repeated query = map (λ entry. (entry.0, as_param entry.1)) (parse_qs query)

-- params.update(items)
unfoldable pub update : Dict Param → Dict Param → Dict Param
update params [] = params
update params ((name, value) ∷ items) = update (put params name value) items

header_text : Option String → String
header_text none = ""
header_text (some s) = s

unfoldable pub query_params : List (String × String) → Result (Dict Param)
unfolding params_preserving_repeated
query_params query =
    reject_duplicate_params (parse_qs query) authorization_request_singleton_params and_then λ _.
    ok (params_preserving_repeated query)

module _ {R : Type 0} where
  json_params : Result (Dict Param) → Dict Param → (Dict Param → Endpoint R) → Endpoint R
  json_params (err e) params rest = raise e
  json_params (ok items) params rest = rest (update params items)

  body_params : AuthorizationRequest → Dict Param → (Dict Param → Endpoint R) → Endpoint R
  unfolding json_params header_text
  body_params a params rest =
      if a.method == "POST"
      then (if has_text "application/json" (header_text a.request.content_type)
          then json_params a.json params rest
          else with_form a.request authorization_request_singleton_params
              (λ items. rest (update params items)))
      else rest params

  -- `_collect_authorization_params`, and what follows it
  unfoldable pub with_authorization_params :
      AuthorizationRequest → (Dict Param → Endpoint R) → Endpoint R
  unfolding body_params
  with_authorization_params a rest =
      after_parse (query_params a.query) (λ params. body_params a params rest)

is_member : Option String → List String → Bool
is_member none texts = false
is_member (some s) texts = member s texts

unfoldable pub is_text : Option String → String → Bool
is_text none t = false
is_text (some s) t = s == t

or_default_scope : List String → List String
or_default_scope [] = oauth_default_scope ∷ []
or_default_scope (s ∷ scopes) = s ∷ scopes

-- flow/clients.py
unfoldable pub scopes_registered_for_client : Client → List String → Bool
unfolding or_default_scope
scopes_registered_for_client client scopes =
    is_subset scopes (or_default_scope (split client.scope))

unfoldable pub scopes_invalid : Settings → Client → List String → Bool
unfolding scopes_registered_for_client
scopes_invalid settings client [] = true
scopes_invalid settings client (s ∷ scopes) =
    not (member oauth_default_scope (s ∷ scopes))
    || not (is_subset (s ∷ scopes) (oauth_scopes_supported settings))
    || not (scopes_registered_for_client client (s ∷ scopes))

-- `_validate_authorization_request`: an OAuth error code, or none
unfoldable pub validate_authorization_request : Settings → Dict Param → Client → Option String
unfolding is_member is_text scopes_invalid
validate_authorization_request settings params client =
    if not (is_text (optional_field params "response_type") "code")
    then some "unsupported_response_type"
    else if not (member "code" client.response_types)
    then some "unauthorized_client"
    else if not (pkce_challenge_valid (optional_field params "code_challenge"))
    then some "invalid_request"
    else if not (
        is_member (optional_field params "code_challenge_method")
          settings.allowed_code_challenge_methods)
    then some "invalid_request"
    else if scopes_invalid settings client (normalize_list (get params "scope"))
    then some "invalid_scope"
    else none
