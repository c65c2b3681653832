-- ===== src/Discovery/Metadata.antt =====
-- discovery/authorization_server.py, protected_resource.py and urls.py
use guillotina_oauth_server.Prelude.{
  String, Bool, true, Option, none, some, List, [], ◌∷◌, ◌++◌, concat, lstrip_char,
}
use guillotina_oauth_server.Exec.{Result, ok, err, ◌and_then◌}
use guillotina_oauth_server.Config.{Settings}
use guillotina_oauth_server.Flow.Scopes.{oauth_scopes_supported}
use guillotina_oauth_server.Indicators.Registry.{Registry}
use guillotina_oauth_server.Indicators.Access.{required_resource_indicator}
use guillotina_oauth_server.Utils.Urls.Parse.{urlparse}

-- `_authorization_server_metadata`
pub record ServerMetadata : Type 0 where
  pub issuer : String
  pub authorization_endpoint : String
  pub token_endpoint : String
  pub registration_endpoint : String
  pub revocation_endpoint : String
  pub response_types_supported : List String
  pub grant_types_supported : List String
  pub code_challenge_methods_supported : List String
  pub token_endpoint_auth_methods_supported : List String
  pub revocation_endpoint_auth_methods_supported : List String
  pub resource_indicators_supported : Bool
  pub authorization_response_iss_parameter_supported : Bool
  pub scopes_supported : List String

unfoldable pub authorization_server_metadata : Settings → Result String → Result ServerMetadata
authorization_server_metadata settings issuer = issuer and_then λ url. ok (record {
  issuer = url;
  authorization_endpoint = concat url "/oauth/authorize";
  token_endpoint = concat url "/oauth/token";
  registration_endpoint = concat url "/oauth/register";
  revocation_endpoint = concat url "/oauth/revoke";
  response_types_supported = "code" ∷ [];
  grant_types_supported = "authorization_code" ∷ "refresh_token" ∷ [];
  code_challenge_methods_supported = "S256" ∷ [];
  token_endpoint_auth_methods_supported = "none" ∷ [];
  revocation_endpoint_auth_methods_supported = "none" ∷ [];
  resource_indicators_supported = true;
  authorization_response_iss_parameter_supported = true;
  scopes_supported = oauth_scopes_supported settings;
})

-- The metadata of a protected resource
pub record ResourceMetadata : Type 0 where
  pub resource : String
  pub authorization_servers : List String
  pub scopes_supported : List String

-- A provider answers with metadata or passes, for the container at hand and the path of the resource.
abbrev pub Provider : Type 0
Provider = Option String → Result (Option ResourceMetadata)

unfoldable pub register_protected_resource_provider : Provider → List Provider → List Provider
register_protected_resource_provider provider providers = providers ++ provider ∷ []

first_metadata :
    Result (Option ResourceMetadata)
    → Result (Option ResourceMetadata)
    → Result (Option ResourceMetadata)
first_metadata (err e) rest = err e
first_metadata (ok none) rest = rest
first_metadata (ok (some metadata)) rest = ok (some metadata)

-- `_protected_resource_metadata`; none is HTTPNotFound.
unfoldable pub protected_resource_metadata :
    List Provider → Option String → Result (Option ResourceMetadata)
unfolding first_metadata
protected_resource_metadata [] path = ok none
protected_resource_metadata (provider ∷ providers) path =
    first_metadata (provider path) (protected_resource_metadata providers path)

unfoldable pub well_known_protected_resource_url :
    (String → Bool) → Result String → Registry → Result String
well_known_protected_resource_url checked issuer registry =
    required_resource_indicator issuer registry and_then λ required.
    urlparse checked required and_then λ parsed. ok (
      concat parsed.scheme (
        concat "://" (
          concat parsed.netloc
            (concat "/.well-known/oauth-protected-resource/" (lstrip_char b'/' parsed.path)))))
