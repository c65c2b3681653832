-- ===== src/Api/Authorize/Endpoint.antt =====
-- api/endpoints/authorize.py: the authorization endpoint.
use guillotina_oauth_server.Prelude.{
  String, Bool, true, false, Option, none, some, List, if◌then◌else◌, Dict, get, concat,
}
use guillotina_oauth_server.Exec.{Result, ok, err, http_bad_request, pure, raise, lift, ◌>>=◌}
use guillotina_oauth_server.Storage.Rows.{Client}
use guillotina_oauth_server.Storage.Repository.Clients.{get_client}
use guillotina_oauth_server.Flow.Clients.RedirectUris.{redirect_uri_registered_for_client}
use guillotina_oauth_server.Indicators.Grant.{validate_resource_indicator}
use guillotina_oauth_server.Utils.Request.Params.{Param, normalize_list}
use guillotina_oauth_server.Api.Pages.{oauth_error_page}
use guillotina_oauth_server.Api.Response.{
  Response, page, with_cookie, Context, Endpoint, field, on_database,
}
use guillotina_oauth_server.Api.Authorize.Request.{
  Browser, AuthorizationRequest, with_authorization_params, validate_authorization_request,
}
use guillotina_oauth_server.Api.Authorize.Login.{
  AuthenticationResult, early_response, authenticated, authenticate_user_or_present_login,
}
use guillotina_oauth_server.Api.Authorize.Grant.{authorization_redirect, grant_or_request_consent}

-- `_set_session_cookie`
unfoldable pub set_session_cookie : AuthorizationRequest → Option String → Response → Response
set_session_cookie a none response = response
set_session_cookie a (some session_token) response =
    with_cookie
      (concat "auth_token=" (
        concat session_token (
          concat "; Path=/; HttpOnly; SameSite=Lax"
            (if a.scheme_is_https then "; Secure" else ""))))
      response

module _ {R : Type 0} (c : Context R) (b : Browser) (a : AuthorizationRequest)
    (params : Dict Param) where
  -- What follows the login
  unfoldable pub after_login :
      Client → String → List String → String → AuthenticationResult → Endpoint R
  unfolding set_session_cookie
  after_login client issuer resources redirect_uri (early_response shown) = pure (page shown)
  after_login client issuer resources redirect_uri (authenticated user_id session_token now) = do
    response ←
        grant_or_request_consent c b params
          (record {
            client = client;
            user_id = user_id;
            scopes = normalize_list (get params "scope");
            resources = resources;
            redirect_uri = redirect_uri;
            issuer = issuer;
          })
          a now
    pure (set_session_cookie a session_token response)

  -- What follows the check of the resources. An HTTPBadRequest is reported to the client.
  unfoldable pub after_resources : Client → String → String → Result (List String) → Endpoint R
  unfolding after_login
  after_resources client redirect_uri issuer (ok resources) = do
    result ← authenticate_user_or_present_login c b a params client
    after_login client issuer resources redirect_uri result
  after_resources client redirect_uri issuer (err (http_bad_request code description)) =
      pure (authorization_redirect redirect_uri params issuer ("error", "invalid_target"))
  after_resources client redirect_uri issuer (err e) = raise e

  -- What follows the tests of the request
  unfoldable pub after_validation : Client → String → String → Option String → Endpoint R
  unfolding after_resources
  after_validation client redirect_uri issuer (some error) =
      pure (authorization_redirect redirect_uri params issuer ("error", error))
  after_validation client redirect_uri issuer none =
      after_resources client redirect_uri issuer
        (validate_resource_indicator c.container_issuer_url b.registry (get params "resource"))

  -- What follows the check of the redirect URI
  unfoldable pub after_redirect_uri : Client → String → Bool → Endpoint R
  unfolding after_validation
  after_redirect_uri client redirect_uri false = pure (
      page (
        oauth_error_page b.templates "Invalid redirect URI"
          "The requested redirect URI is not allowed for this OAuth client." 400))
  after_redirect_uri client redirect_uri true = do
    issuer ← lift c.container_issuer_url
    after_validation client redirect_uri issuer
        (validate_authorization_request c.session.settings params client)

  -- What follows `get_client`
  unfoldable pub after_client : Option Client → Endpoint R
  unfolding after_redirect_uri
  after_client none = pure (
      page (
        oauth_error_page b.templates "Unknown OAuth client" "The application is not registered."
          400))
  after_client (some client) = do
    registered ← lift (
        redirect_uri_registered_for_client b.checked client.redirect_uris
          (field params "redirect_uri"))
    after_redirect_uri client (field params "redirect_uri") registered

  unfoldable pub authorize : Endpoint R
  unfolding after_client
  authorize = do
    client ← on_database (get_client c.session (field params "client_id"))
    after_client client

unfoldable pub authorization_endpoint :
    {R : Type 0} → Context R → Browser → AuthorizationRequest → Endpoint R
unfolding authorize
authorization_endpoint c b a = with_authorization_params a (λ params. authorize c b a params)
