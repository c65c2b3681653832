-- ===== src/Flow/Clients/Registration.antt =====
-- flow/clients.py: the client that a registration request describes.
use guillotina_oauth_server.Prelude.{
  ℕ, String, Bool, true, false, not, ◌&&◌, Option, none, some, List, [], ◌∷◌, ◌==◌, if◌then◌else◌,
  Dict, get, join, member, is_subset, concat,
}
use guillotina_oauth_server.Exec.{
  Result, ok, err, type_error, attribute_error, data_error, ◌and_then◌,
}
use guillotina_oauth_server.Config.{Settings}
use guillotina_oauth_server.Storage.Rows.{Client}
use guillotina_oauth_server.Utils.Json.{
  Json, text, array, object, Jsons, nil, cons, truthy, or_null, words,
}
use guillotina_oauth_server.Utils.Request.Params.{raise_oauth_error}
use guillotina_oauth_server.Flow.Scopes.{oauth_default_scope, oauth_scopes_supported}
use guillotina_oauth_server.Flow.Clients.RedirectUris.{validate_redirect_uri}

abbrev pub supported_grant_types : List String
supported_grant_types = "authorization_code" ∷ "refresh_token" ∷ []

abbrev pub supported_response_types : List String
supported_response_types = "code" ∷ []

-- The texts of a list. Where every value is a text, these are the values.
unfoldable pub texts : Jsons → List String
texts nil = []
texts (cons (text s) values) = s ∷ texts values
texts (cons _ values) = texts values

-- `validate_redirect_uri` of any value. `urlparse` raises on what is no text.
unfoldable pub validate_redirect_value : (String → Bool) → Json → Result Bool
unfolding truthy texts
validate_redirect_value checked (text uri) = validate_redirect_uri checked uri
validate_redirect_value checked (array (cons value values)) =
    if member "*" (texts (cons value values)) then ok false else err attribute_error
validate_redirect_value checked (object (key ∷ keys) s) =
    if member "*" (key ∷ keys) then ok false else err attribute_error
validate_redirect_value checked value = if truthy value then err type_error else ok false

-- any(not validate_redirect_uri(uri) for uri in redirect_uris)
unfoldable pub any_unsafe : (String → Bool) → Jsons → Result Bool
unfolding validate_redirect_value
any_unsafe checked nil = ok false
any_unsafe checked (cons uri uris) =
    let rest = any_unsafe checked uris in
    validate_redirect_value checked uri and_then λ valid. if valid then rest else ok true

-- any(value not in supported for value in values), where `supported` is a set
unfoldable pub any_unsupported : List String → Jsons → Result Bool
any_unsupported supported nil = ok false
any_unsupported supported (cons (text s) values) =
    let rest = any_unsupported supported values in if member s supported then rest else ok true
any_unsupported supported (cons (array _) values) = err type_error
any_unsupported supported (cons (object _ _) values) = err type_error
any_unsupported supported (cons _ values) = ok true

unfoldable pub refuse_if : Bool → String → Option String → Result (Unit {0})
refuse_if test error description = if test then raise_oauth_error error description true else ok tt

-- A list that is not empty, or the error
unfoldable pub non_empty_array : Json → String → Result Jsons
non_empty_array (array (cons value values)) description = ok (cons value values)
non_empty_array _ description = raise_oauth_error "invalid_client_metadata" (some description) true

-- data[key] if key in data else default
value_or : Option Json → Json → Json
value_or none default = default
value_or (some value) default = value

is_none_method : Option Json → Bool
is_none_method none = true
is_none_method (some (text method)) = method == "none"
is_none_method (some _) = false

or_default : List String → List String → List String
or_default [] default = default
or_default (s ∷ rest) default = s ∷ rest

-- The dict that `build_client_from_registration` returns, less the constant
-- `token_endpoint_auth_method`. `client_name` is any value that is true.
pub record Registration : Type 0 where
  pub client_id : String
  pub client_name : Json
  pub redirect_uris : List String
  pub grant_types : List String
  pub response_types : List String
  pub scope : String
  pub now : ℕ

unfoldable pub client_name_of : Json → Json
client_name_of name = if truthy name then name else text "OAuth Client"

abbrev metadata_error : Bool → String → Result (Unit {0})
metadata_error test description = refuse_if test "invalid_client_metadata" (some description)

-- The tests on the grant types and the response types.
unfoldable pub types_checked : Jsons → Jsons → Result (Unit {0})
unfolding any_unsupported refuse_if
types_checked grant_types response_types =
    any_unsupported supported_grant_types grant_types and_then λ unsupported_grant.
    metadata_error unsupported_grant "unsupported grant_type" and_then λ _.
    any_unsupported supported_response_types response_types and_then λ unsupported_response.
    metadata_error unsupported_response "unsupported response_type" and_then λ _.
    metadata_error
      (member "authorization_code" (texts grant_types)
        && not (member "code" (texts response_types)))
      "authorization_code grant requires code response_type"
    and_then λ _.
        metadata_error
          (member "code" (texts response_types)
            && not (member "authorization_code" (texts grant_types)))
          "code response_type requires authorization_code grant"

-- The tests on the scope
unfoldable pub scope_checked : Settings → List String → Result (Unit {0})
unfolding refuse_if
scope_checked settings scope =
    metadata_error (not (member oauth_default_scope scope))
      (concat oauth_default_scope " scope is required")
    and_then λ _.
        metadata_error (not (is_subset scope (oauth_scopes_supported settings))) "unsupported scope"

unfoldable pub requested_scope : Dict Json → List String
unfolding or_default
requested_scope params =
    or_default (words (or_null (get params "scope"))) (oauth_default_scope ∷ [])

-- The redirect URIs, the grant types and the response types of a request.
unfoldable pub uris_of : Dict Json → Result Jsons
unfolding non_empty_array
uris_of params = non_empty_array (or_null (get params "redirect_uris")) "redirect_uris is required"

unfoldable pub grants_of : Dict Json → Result Jsons
unfolding non_empty_array value_or
grants_of params =
    non_empty_array
      (value_or (get params "grant_types")
        (array (cons (text "authorization_code") (cons (text "refresh_token") nil))))
      "grant_types must be a non-empty array"

unfoldable pub responses_of : Dict Json → Result Jsons
unfolding non_empty_array value_or
responses_of params =
    non_empty_array (value_or (get params "response_types") (array (cons (text "code") nil)))
      "response_types must be a non-empty array"

-- `client_id` is what `uuid4().hex` returns, and `now` is `datetime.now(timezone.utc)`.
unfoldable pub build_client_from_registration :
    (String → Bool) → Settings → String → ℕ → Dict Json → Result Registration
unfolding types_checked scope_checked any_unsafe refuse_if uris_of grants_of responses_of
    is_none_method requested_scope client_name_of
build_client_from_registration checked settings client_id now params =
    refuse_if (truthy (or_null (get params "client_id"))) "invalid_request"
      (some "client_id is server-issued")
    and_then λ _. uris_of params and_then λ redirect_uris.
        any_unsafe checked redirect_uris and_then λ unsafe.
        refuse_if unsafe "invalid_redirect_uri" (some "unsafe redirect_uri") and_then λ _.
        refuse_if (not (is_none_method (get params "token_endpoint_auth_method")))
          "unsupported_token_endpoint_auth_method" none
        and_then λ _. grants_of params and_then λ grant_types.
            responses_of params and_then λ response_types.
            types_checked grant_types response_types and_then λ _.
            scope_checked settings (requested_scope params) and_then λ _. ok (record {
              client_id = client_id;
              client_name = client_name_of (or_null (get params "client_name"));
              redirect_uris = texts redirect_uris;
              grant_types = texts grant_types;
              response_types = texts response_types;
              scope = join " " (requested_scope params);
              now = now;
            })

-- The client that `create_client` stores under a name.
unfoldable pub client_of : Registration → String → Client
client_of r name = record {
  client_id = r.client_id;
  client_name = name;
  redirect_uris = r.redirect_uris;
  grant_types = r.grant_types;
  response_types = r.response_types;
  token_endpoint_auth_method = "none";
  scope = r.scope;
  created_at = r.now;
  updated_at = r.now;
}

-- asyncpg takes a text for the column `client_name` and nothing else.
unfoldable pub client_name_text : Json → Result String
client_name_text (text name) = ok name
client_name_text _ = err data_error
