-- ===== src/Api/Token/Endpoint.antt =====
-- api/endpoints/token.py: the token endpoint.
use guillotina_oauth_server.Prelude.{
  String, Bool, not, ◌||◌, Option, none, some, List, [], ◌∷◌, ◌==◌, if◌then◌else◌, Dict, get,
  concat, join, member, is_subset,
}
use guillotina_oauth_server.Exec.{Exec, ok, pure, lift, ◌>>=◌}
use guillotina_oauth_server.Flow.Keys.{token_hash}
use guillotina_oauth_server.Flow.Pkce.{verify_s256}
use guillotina_oauth_server.Flow.Tokens.{generate_opaque_token, issue_access_token}
use guillotina_oauth_server.Storage.Rows.{Client, Code, Refresh}
use guillotina_oauth_server.Storage.Repository.Clients.{get_client}
use guillotina_oauth_server.Storage.Repository.Codes.{get_active_code, consume_code}
use guillotina_oauth_server.Storage.Repository.Tokens.{
  get_valid_refresh, revoke_refresh_tokens_by_auth_code, create_refresh_token, rotate_refresh_token,
}
use guillotina_oauth_server.Utils.Request.Params.{
  Param, Request, normalize_list, form_content_type_valid, peer_ip_address,
}
use guillotina_oauth_server.Api.Response.{
  Response, error, tokens, bad_request, Context, State, Endpoint, on_database, limited,
  token_request_singleton_params, field, with_form,
}

-- `requested or granted`
unfoldable pub or_granted : List String → List String → List String
or_granted [] granted = granted
or_granted (s ∷ requested) granted = s ∷ requested

-- record["code_challenge"], "" where there is none
unfoldable pub challenge_of : Code → String
challenge_of record' = elim record'.code_challenge [ none ↦ "" | some challenge ↦ challenge ]

module _ {R : Type 0} (c : Context R) where
  -- The access token, the refresh token and the response for a user's grant, at the end of both flows.
  unfoldable pub access_token_for :
      String → List String → String → List String → Exec (State R) String
  access_token_for user_id resources client_id scope = do
    issuer ← lift c.container_issuer_url
    lift (
        issue_access_token c.jwt_encode c.session.crypto c.session.settings c.utc_now issuer user_id
          resources client_id scope)

  unfoldable pub new_refresh_token : String
  new_refresh_token = generate_opaque_token "gor_" c.token_urlsafe

  unfoldable pub token_response : String → List String → Response
  unfolding new_refresh_token
  token_response access_token scope = tokens (record {
    access_token = access_token;
    expires_in = c.session.settings.access_token_ttl;
    refresh_token = new_refresh_token;
    scope = join " " scope;
  })

  -- What follows `consume_code`
  unfoldable pub issue_tokens : Client → List String → Option Code → Endpoint R
  unfolding token_response new_refresh_token access_token_for
  issue_tokens client resources none = pure (bad_request "invalid_grant")
  issue_tokens client resources (some consumed) = do
    access_token ← access_token_for consumed.user_id resources client.client_id consumed.scope
    _ ← on_database (
        create_refresh_token c.session new_refresh_token client.client_id consumed.user_id
          consumed.scope resources (some consumed.code_hash) none)
    pure (token_response access_token consumed.scope)

  -- What follows the rotation
  unfoldable pub answer_rotation : Client → Refresh → List String → List String → Bool → Endpoint R
  unfolding token_response new_refresh_token access_token_for
  answer_rotation client refresh scopes resources rotated =
      if not rotated then pure (bad_request "invalid_grant") else (do
        access_token ← access_token_for refresh.user_id resources client.client_id scopes
        pure (token_response access_token scopes))

module _ {R : Type 0} (c : Context R) (params : Dict Param) where
  unfoldable pub consume_and_issue : Client → List String → Endpoint R
  consume_and_issue client resources = do
    consumed ← on_database (consume_code c.session (field params "code"))
    issue_tokens c client resources consumed

  -- The checks on a code that is active, and what follows them
  unfoldable pub exchange_active_code : Option Client → Code → Endpoint R
  unfolding challenge_of or_granted consume_and_issue
  exchange_active_code none code = pure (bad_request "invalid_grant")
  exchange_active_code (some client) code =
      let requested = normalize_list (get params "resource") in
      if not (code.client_id == client.client_id)
      then pure (bad_request "invalid_grant")
      else if not (member "authorization_code" client.grant_types)
      then pure (bad_request "unauthorized_client")
      else if not (code.redirect_uri == field params "redirect_uri")
      then pure (bad_request "invalid_grant")
      else if challenge_of code == ""
      then pure (bad_request "invalid_grant")
      else if not (verify_s256 c.session.crypto (field params "code_verifier") (challenge_of code))
      then pure (bad_request "invalid_grant")
      else if not (is_subset requested code.resource)
      then pure (bad_request "invalid_target")
      else consume_and_issue client (or_granted requested code.resource)

  -- A code that is not active: the tokens that were issued from it are revoked.
  unfoldable pub exchange_code : String → Option Client → Option Code → Endpoint R
  unfolding exchange_active_code
  exchange_code code_hash client none = do
    _ ← on_database (revoke_refresh_tokens_by_auth_code c.session code_hash)
    pure (bad_request "invalid_grant")
  exchange_code code_hash client (some code) = exchange_active_code client code

  unfoldable pub exchange_authorization_code : Endpoint R
  unfolding exchange_code
  exchange_authorization_code state =
      if field params "client_id" == ""
        || field params "code" == ""
        || field params "redirect_uri" == ""
      then (ok (bad_request "invalid_request"), state)
      else (do
        client ← on_database (get_client c.session (field params "client_id"))
        code_hash ← lift (token_hash c.session.crypto c.session.settings (field params "code"))
        code ← on_database (get_active_code c.session (field params "code"))
        exchange_code code_hash client code)
          state

  unfoldable pub rotate_and_issue : Client → Refresh → List String → List String → Endpoint R
  unfolding new_refresh_token answer_rotation
  rotate_and_issue client refresh scopes resources = do
    rotated ← on_database (
        rotate_refresh_token c.session (field params "refresh_token") (new_refresh_token c)
          client.client_id scopes resources)
    answer_rotation c client refresh scopes resources rotated

  unfoldable pub refresh_with : Option Client → Option Refresh → Endpoint R
  unfolding or_granted rotate_and_issue
  refresh_with client none = pure (bad_request "invalid_grant")
  refresh_with none (some refresh) = pure (bad_request "invalid_grant")
  refresh_with (some client) (some refresh) =
      let scopes = or_granted (normalize_list (get params "scope")) refresh.scope in
      let resources = or_granted (normalize_list (get params "resource")) refresh.resource in
      if not (refresh.client_id == client.client_id)
      then pure (bad_request "invalid_grant")
      else if not (member "refresh_token" client.grant_types)
      then pure (bad_request "unauthorized_client")
      else if not (is_subset scopes refresh.scope) || not (is_subset resources refresh.resource)
      then pure (bad_request "invalid_scope")
      else rotate_and_issue client refresh scopes resources

  -- `_rotate_refresh_token`
  unfoldable pub refresh_tokens : Endpoint R
  unfolding refresh_with
  refresh_tokens state =
      if field params "client_id" == "" || field params "refresh_token" == ""
      then (ok (bad_request "invalid_request"), state)
      else (do
        client ← on_database (get_client c.session (field params "client_id"))
        refresh ← on_database (get_valid_refresh c.session (field params "refresh_token"))
        refresh_with client refresh)
          state

  -- What follows the rate limiter's verdict
  unfoldable pub grant_request : Bool → Endpoint R
  unfolding exchange_authorization_code refresh_tokens
  grant_request blocked =
      if blocked
      then pure (error 429 "temporarily_unavailable" (some "token rate limit exceeded"))
      else if field params "grant_type" == "authorization_code"
      then exchange_authorization_code
      else if field params "grant_type" == "refresh_token"
      then refresh_tokens
      else pure (bad_request "unsupported_grant_type")

  -- The rest of the endpoint, once the form is parsed
  unfoldable pub token_request : Request → Endpoint R
  unfolding grant_request
  token_request request =
      if field params "grant_type" == "" then pure (bad_request "invalid_request") else (do
        blocked ←
            limited c (concat "oauth-token:" (peer_ip_address request))
              c.session.settings.token_rate_limit c.session.settings.token_rate_window
        grant_request blocked)

unfoldable pub token_endpoint : {R : Type 0} → Context R → Request → Endpoint R
unfolding token_request
token_endpoint c request =
    if form_content_type_valid request
    then with_form request token_request_singleton_params (λ params. token_request c params request)
    else pure (error 400 "invalid_request" (some "invalid content type"))
