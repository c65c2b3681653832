-- ===== src/Api/Authorize/Grant.antt =====
-- api/endpoints/authorize.py: the consent of the user, and the code.
use guillotina_oauth_server.Prelude.{
  String, Bool, true, false, not, ◌&&◌, ◌||◌, Option, none, some, List, [], ◌∷◌, ◌==◌,
  if◌then◌else◌, Dict,
}
use guillotina_oauth_server.Exec.{Result, pure, lift, ◌>>=◌, ◌>>◌}
use guillotina_oauth_server.Storage.Rows.{Client}
use guillotina_oauth_server.Storage.Repository.Consents.{has_consent, create_consent}
use guillotina_oauth_server.Storage.Repository.Codes.{create_code}
use guillotina_oauth_server.Flow.Consent.{build_consent_key}
use guillotina_oauth_server.Flow.Clients.Redirects.{redirect_with_params}
use guillotina_oauth_server.Flow.Csrf.{Payload, oauth_csrf_field, csrf_token, csrf_valid}
use guillotina_oauth_server.Flow.Tokens.{generate_opaque_token}
use guillotina_oauth_server.Utils.Request.Params.{Param}
use guillotina_oauth_server.Api.Pages.{consent_form}
use guillotina_oauth_server.Api.Response.{
  Response, page, redirect, Context, Endpoint, field, optional_field, on_database,
}
use guillotina_oauth_server.Api.Authorize.Request.{Browser, AuthorizationRequest, is_text}

-- `_authorization_redirect`, with one more parameter
unfoldable pub authorization_redirect : String → Dict Param → String → String × String → Response
authorization_redirect redirect_uri params issuer (name, value) = redirect (
    redirect_with_params redirect_uri
      (("state", optional_field params "state") ∷ ("iss", some issuer) ∷ (name, some value) ∷ []))

-- `_csrf_base_payload`
unfoldable pub csrf_base_payload : Dict Param → String → List String → List String → Payload
csrf_base_payload params user_id scopes resources = record {
  user_id = user_id;
  client_id = field params "client_id";
  redirect_uri = field params "redirect_uri";
  response_type = field params "response_type";
  scope = scopes;
  state = field params "state";
  code_challenge = field params "code_challenge";
  code_challenge_method = field params "code_challenge_method";
  resource = resources;
}

-- What a grant is about, beside the request: the client, the user, the scopes, the resources, the
-- redirect URI and the issuer.
pub record Grant : Type 0 where
  pub client : Client
  pub user_id : String
  pub scopes : List String
  pub resources : List String
  pub redirect_uri : String
  pub issuer : String

module _ {R : Type 0} (c : Context R) (b : Browser) (params : Dict Param) (g : Grant) where
  abbrev pub answer : String × String → Response
  answer extra = authorization_redirect g.redirect_uri params g.issuer extra

  abbrev pub raw_code : String
  raw_code = generate_opaque_token "goc_" c.token_urlsafe

  abbrev pub consent_key : String
  consent_key = build_consent_key g.user_id g.client.client_id g.scopes g.resources

  -- The code, stored for the grant
  unfoldable pub issue_code : Endpoint R
  issue_code = do
    _ ← on_database (
        create_code c.session raw_code g.client.client_id g.user_id g.redirect_uri g.scopes
          g.resources (optional_field params "code_challenge"))
    pure (answer ("code", raw_code))

  -- The consent page, which carries a token for this very request
  unfoldable pub ask_consent : Endpoint R
  ask_consent = do
    token ← lift (
        csrf_token c.session.crypto c.session.settings b.codec c.clocks.wall
          (csrf_base_payload params g.user_id g.scopes g.resources))
    pure (
        page (
          consent_form b.templates params (field params "redirect_uri") g.client g.scopes
            g.resources g.user_id token))

  -- What follows the check of the token
  unfoldable pub decide : Option String → Bool → Endpoint R
  unfolding issue_code ask_consent
  decide decision true = issue_code
  decide decision false =
      if is_text decision "allow"
      then (do
        on_database
            (create_consent c.session consent_key g.user_id g.client.client_id g.scopes g.resources)
        issue_code)
      else if is_text decision "deny"
      then pure (answer ("error", "access_denied"))
      else ask_consent

  -- Whether a decision of the user needs a token.
  unfoldable pub is_decision : Option String → Bool
  is_decision decision = is_text decision "allow" || is_text decision "deny"

  unfoldable pub token_valid : Result Bool
  token_valid =
      csrf_valid c.session.crypto c.session.settings b.codec b.csrf_ttl c.clocks.wall
        (optional_field params oauth_csrf_field)
        (csrf_base_payload params g.user_id g.scopes g.resources)

  unfoldable pub decide_checked : Option String → Bool → Endpoint R
  unfolding decide is_decision token_valid
  decide_checked decision existing_consent =
      if is_decision decision
      then (do
        valid ← lift token_valid
        if valid
            then decide decision existing_consent
            else pure (answer ("error", "invalid_request")))
      else decide decision existing_consent

  -- A request with which the user logs in carries no decision.
  unfoldable pub decision_of : AuthorizationRequest → Bool → Option String
  decision_of a authenticated_now =
      if (a.method == "POST") && not authenticated_now
      then optional_field params "decision"
      else none

  -- `_grant_or_request_consent`
  unfoldable pub grant_or_request_consent : AuthorizationRequest → Bool → Endpoint R
  unfolding decide_checked decision_of
  grant_or_request_consent a authenticated_now = do
    existing_consent ← on_database (has_consent c.session consent_key)
    decide_checked (decision_of a authenticated_now) existing_consent
