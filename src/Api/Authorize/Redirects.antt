-- ===== src/Api/Authorize/Redirects.antt =====
-- api/endpoints/authorize.py: where the authorization endpoint sends a browser.
mod Locations
use guillotina_oauth_server.Prelude.{
  ◌≡◌, refl, ap, sym, subst, String, Bool, true, false, Option, none, some, List, ◌⊎◌, inl, inr,
  arith, Dict, get, Bool-cases, if◌then◌else◌,
}
use guillotina_oauth_server.Exec.{
  Exec, Exn, Result, ok, err, http_bad_request, http_precondition_failed, unique_violation,
  runtime_error, type_error, value_error, attribute_error, data_error, undefined_table, bind_ok,
  ◌>>=◌, pure, lift,
}
use guillotina_oauth_server.Flow.Clients.RedirectUris.{
  Registered, redirect_uri_registered_for_client, redirect_uri_registered_for_client-Registered,
}
use guillotina_oauth_server.Flow.Clients.Redirects.{redirect_with_params}
use guillotina_oauth_server.Storage.Rows.{Client, Database}
use guillotina_oauth_server.Storage.Repository.Clients.{get_client}
use guillotina_oauth_server.Storage.Repository.Codes.{create_code}
use guillotina_oauth_server.Storage.Repository.Consents.{has_consent, create_consent}
use guillotina_oauth_server.Utils.Request.Params.{Param, normalize_list}
use guillotina_oauth_server.Api.Pages.{consent_form}
use guillotina_oauth_server.Flow.Csrf.{csrf_token}
use guillotina_oauth_server.Api.Response.{
  Response, error, tokens, consents, empty, not_found, registered, page, redirect, with_cookie,
  Context, State, field, optional_field, on_database,
}
use guillotina_oauth_server.Api.Authorize.Request.{
  Browser, AuthorizationRequest, is_text, validate_authorization_request,
}
use guillotina_oauth_server.Api.Authorize.Login.{
  AuthenticationResult, early_response, authenticated, authenticate_user_or_present_login,
}
use guillotina_oauth_server.Api.Authorize.Grant.{
  Grant, answer, raw_code, consent_key, csrf_base_payload, authorization_redirect, issue_code,
  ask_consent, decide, is_decision, token_valid, decide_checked, decision_of,
  grant_or_request_consent,
}
use guillotina_oauth_server.Api.Authorize.Endpoint.{
  set_session_cookie, after_login, after_resources, after_validation, after_redirect_uri,
  after_client, authorize,
}
use guillotina_oauth_server.Api.Authorize.Redirects.Locations.{
  location, StaysAt, Stays, Stays-bind, authorization_redirect-StaysAt, issue_code-Stays,
  ask_consent-Stays, decide-Stays, decide_token-Stays, decide_checked-Stays,
  grant_or_request_consent-Stays, set_session_cookie-location,
}

module _ {R : Type 0} (c : Context R) (b : Browser) (a : AuthorizationRequest)
    (params : Dict Param) where
  abbrev uri : String
  uri = field params "redirect_uri"

  after_login-Stays :
      (client : Client) (issuer : String) (resources : List String) (result : AuthenticationResult)
      (state : State R)
      → Stays uri (after_login c b a params client issuer resources uri result state)
  unfolding after_login
  after_login-Stays client issuer resources (early_response p) state = inl refl
  after_login-Stays client issuer resources (authenticated user_id session_token now) state =
      with_session (grant_or_request_consent c b params g a now state)
        (grant_or_request_consent-Stays c b params g a now state)
    where
      g : Grant
      g = record {
        client = client;
        user_id = user_id;
        scopes = normalize_list (get params "scope");
        resources = resources;
        redirect_uri = uri;
        issuer = issuer;
      }

      with_session :
          (r : Result Response × State R)
          → Stays {S = State R} uri r
          → Stays {S = State R} uri (elim r.0 [
            | ok x ↦ (ok (set_session_cookie a session_token x), r.1)
            | err e ↦ (err e, r.1)
          ])
      with_session (ok response, s') h =
          subst
            (λ l.
              (l ≡ none)
              ⊎ ((items : List (String × Option String)) × (l
                    ≡ some (redirect_with_params uri items))))
            (sym (set_session_cookie-location a session_token response)) h
      with_session (err e, s') h = tt

  after_resources-Stays :
      (client : Client) (issuer : String) (allowed : Result (List String)) (state : State R)
      → Stays uri (after_resources c b a params client uri issuer allowed state)
  unfolding after_resources
  after_resources-Stays client issuer (ok resources) state =
      Stays-bind uri (authenticate_user_or_present_login c b a params client)
        (after_login c b a params client issuer resources uri) state
        (λ result s'. after_login-Stays client issuer resources result s')
  after_resources-Stays client issuer (err (http_bad_request code description)) state =
      authorization_redirect-StaysAt uri params issuer ("error", "invalid_target")
  after_resources-Stays client issuer (err (http_precondition_failed code d)) state = tt
  after_resources-Stays client issuer (err unique_violation) state = tt
  after_resources-Stays client issuer (err runtime_error) state = tt
  after_resources-Stays client issuer (err type_error) state = tt
  after_resources-Stays client issuer (err value_error) state = tt
  after_resources-Stays client issuer (err attribute_error) state = tt
  after_resources-Stays client issuer (err data_error) state = tt
  after_resources-Stays client issuer (err undefined_table) state = tt

  after_validation-Stays :
      (client : Client) (issuer : String) (found : Option String) (state : State R)
      → Stays uri (after_validation c b a params client uri issuer found state)
  unfolding after_validation
  after_validation-Stays client issuer (some code) state =
      authorization_redirect-StaysAt uri params issuer ("error", code)
  after_validation-Stays client issuer none state = after_resources-Stays client issuer _ state

  after_redirect_uri-Stays :
      (client : Client) (state : State R)
      → Stays uri (after_redirect_uri c b a params client uri true state)
  unfolding after_redirect_uri
  after_redirect_uri-Stays client state =
      Stays-bind uri (lift c.container_issuer_url)
        (λ issuer.
          after_validation c b a params client uri issuer
            (validate_authorization_request c.session.settings params client))
        state (λ issuer s'. after_validation-Stays client issuer _ s')

  -- An outcome that sends the browser nowhere, or to a URI of a registered client with some parameters.
  pub data RedirectsSafely (state : State R) : Result Response × State R → Type 0 where
    raises : (e : Exn) (s' : State R) → RedirectsSafely state (err e, s')
    stays :
        (response : Response) (s' : State R)
        → location response ≡ none
        → RedirectsSafely state (ok response, s')
    sends :
        (response : Response) (s' : State R) (client : Client)
        (items : List (String × Option String))
        → (get_client c.session (field params "client_id") state.database).0 ≡ ok (some client)
        → Registered b.checked uri client.redirect_uris
        → location response ≡ some (redirect_with_params uri items)
        → RedirectsSafely state (ok response, s')

  safely :
      (client : Client) (state : State R) (outcome : Result Response × State R)
      → (get_client c.session (field params "client_id") state.database).0 ≡ ok (some client)
      → Registered b.checked uri client.redirect_uris
      → Stays {S = State R} uri outcome
      → RedirectsSafely state outcome
  safely client state (err e, s') found known h = raises e s'
  safely client state (ok response, s') found known (inl nowhere) = stays response s' nowhere
  safely client state (ok response, s') found known (inr (items, to)) =
      sends response s' client items found known to

  after_client-RedirectsSafely :
      (found : Option Client) (state : State R)
      → (get_client c.session (field params "client_id") state.database).0 ≡ ok found
      → RedirectsSafely state (after_client c b a params found state)
  unfolding after_client after_redirect_uri
  after_client-RedirectsSafely none state e = stays _ state refl
  after_client-RedirectsSafely (some client) state e =
      checked_uri (redirect_uri_registered_for_client b.checked client.redirect_uris uri) refl
    where
      checked_uri :
          (verdict : Result Bool)
          → redirect_uri_registered_for_client b.checked client.redirect_uris uri ≡ verdict
          → RedirectsSafely state (elim verdict [
            | ok known ↦ after_redirect_uri c b a params client uri known state
            | err x ↦ (err x, state)
          ])
      checked_uri (err x) h = raises x state
      checked_uri (ok false) h = stays _ state refl
      checked_uri (ok true) h =
          safely client state (after_redirect_uri c b a params client uri true state) e
            (redirect_uri_registered_for_client-Registered b.checked client.redirect_uris uri h)
            (after_redirect_uri-Stays client state)

  get_client_found :
      (db : Database)
      → (found : Option Client) × (get_client c.session (field params "client_id") db
          ≡ (ok found, db))
  unfolding get_client
  get_client_found db = (_, refl)

  -- Whatever the request, the authorization endpoint sends the browser nowhere, or to the redirect URI of the
  -- request with some parameters put on. Then the client of the request registered that URI, or both are plain
  -- HTTP URLs of the local machine and the client registered one with the same host name, path and query; the
  -- port, the fragment, the userinfo and the path's parameters of such a URL may be any.
  pub authorize-RedirectsSafely :
      (state : State R) → RedirectsSafely state (authorize c b a params state)
  unfolding authorize
  authorize-RedirectsSafely state =
      let (found, e) = get_client_found state.database in
      subst (RedirectsSafely state)
        (sym (
          bind_ok (on_database (get_client c.session (field params "client_id")))
            (after_client c b a params) {s' = state} {a = found} (ground (arith, e))))
        (after_client-RedirectsSafely found state (ap (λ x. x.0) e))
