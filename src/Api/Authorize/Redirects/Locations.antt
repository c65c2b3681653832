-- ===== src/Api/Authorize/Redirects/Locations.antt =====
-- api/endpoints/authorize.py: the consent of the user redirects nowhere but to the redirect URI.
use guillotina_oauth_server.Prelude.{
  ◌≡◌, refl, String, Bool, true, false, Option, none, some, List, ◌⊎◌, inl, inr, Dict, Bool-cases,
  if◌then◌else◌,
}
use guillotina_oauth_server.Exec.{Exec, Result, ok, err, ◌>>=◌, pure, lift}
use guillotina_oauth_server.Flow.Clients.Redirects.{redirect_with_params}
use guillotina_oauth_server.Storage.Repository.Codes.{create_code}
use guillotina_oauth_server.Storage.Repository.Consents.{has_consent, create_consent}
use guillotina_oauth_server.Utils.Request.Params.{Param}
use guillotina_oauth_server.Api.Pages.{consent_form}
use guillotina_oauth_server.Flow.Csrf.{csrf_token}
use guillotina_oauth_server.Api.Response.{
  Response, error, tokens, consents, empty, not_found, registered, page, redirect, with_cookie,
  Context, State, field, optional_field, on_database,
}
use guillotina_oauth_server.Api.Authorize.Request.{Browser, AuthorizationRequest, is_text}
use guillotina_oauth_server.Api.Authorize.Grant.{
  Grant, answer, raw_code, consent_key, csrf_base_payload, authorization_redirect, issue_code,
  ask_consent, decide, is_decision, token_valid, decide_checked, decision_of,
  grant_or_request_consent,
}
use guillotina_oauth_server.Api.Authorize.Endpoint.{set_session_cookie}

-- Where a response sends the browser.
abbrev pub location : Response → Option String
location (redirect uri) = some uri
location (with_cookie cookie response) = location response
location (page p) = none
location (error status code description) = none
location (tokens t) = none
location (consents items) = none
location (registered status client issued) = none
location empty = none
location (not_found reason) = none

-- A response that sends the browser nowhere, or to the URI with some parameters put on.
abbrev pub StaysAt : String → Response → Type 0
StaysAt uri response =
    (location response ≡ none)
    ⊎ ((items : List (String × Option String)) × (location response
          ≡ some (redirect_with_params uri items)))

-- The same of an outcome; an exception sends the browser nowhere.
abbrev pub Stays : {S : Type 0} → String → Result Response × S → Type 0
Stays uri (ok response, state) = StaysAt uri response
Stays uri (err e, state) = Unit

-- A step that is followed by one that stays
pub Stays-bind :
    {S A : Type 0} (uri : String) (m : Exec S A) (f : A → Exec S Response) (s : S)
    → ((x : A) (s' : S) → Stays uri (f x s'))
    → Stays uri ((m >>= f) s)
Stays-bind {S = S} {A = A} uri m f s h = bound (m s)
  where
    bound :
        (r : Result A × S) → Stays {S = S} uri (elim r.0 [ ok x ↦ f x r.1 | err e ↦ (err e, r.1) ])
    bound (ok x, s') = h x s'
    bound (err e, s') = tt

pub authorization_redirect-StaysAt :
    (uri : String) (params : Dict Param) (issuer : String) (extra : String × String)
    → StaysAt uri (authorization_redirect uri params issuer extra)
unfolding authorization_redirect
authorization_redirect-StaysAt uri params issuer (name, value) = inr (_, refl)

module _ {R : Type 0} (c : Context R) (b : Browser) (params : Dict Param) (g : Grant) where
  pub issue_code-Stays : (state : State R) → Stays g.redirect_uri (issue_code c b params g state)
  unfolding issue_code
  issue_code-Stays state =
      let code = raw_code c b params g in
      Stays-bind g.redirect_uri
        (on_database (
          create_code c.session code g.client.client_id g.user_id g.redirect_uri g.scopes
            g.resources (optional_field params "code_challenge")))
        (λ _. pure (answer c b params g ("code", code))) state
        (λ _ _. authorization_redirect-StaysAt g.redirect_uri params g.issuer ("code", code))

  pub ask_consent-Stays : (state : State R) → Stays g.redirect_uri (ask_consent c b params g state)
  unfolding ask_consent
  ask_consent-Stays state =
      Stays-bind g.redirect_uri
        (lift (
          csrf_token c.session.crypto c.session.settings b.codec c.clocks.wall
            (csrf_base_payload params g.user_id g.scopes g.resources)))
        (λ token. pure (
          page (
            consent_form b.templates params (field params "redirect_uri") g.client g.scopes
              g.resources g.user_id token)))
        state (λ _ _. inl refl)

  pub decide-Stays :
      (decision : Option String) (existing : Bool) (state : State R)
      → Stays g.redirect_uri (decide c b params g decision existing state)
  unfolding decide
  decide-Stays decision true state = issue_code-Stays state
  decide-Stays decision false state = elim (Bool-cases (is_text decision "allow")) [
    | inl e ↦ rw e (
        Stays-bind g.redirect_uri
          (on_database (
            create_consent c.session (consent_key c b params g) g.user_id g.client.client_id
              g.scopes g.resources))
          (λ _. issue_code c b params g) state (λ _ s'. issue_code-Stays s'))
    | inr e ↦ elim (Bool-cases (is_text decision "deny")) [
      | inl e' ↦ rw e (
          rw e' (
            authorization_redirect-StaysAt g.redirect_uri params g.issuer
              ("error", "access_denied")))
      | inr e' ↦ rw e (rw e' (ask_consent-Stays state))
    ]
  ]

  pub decide_token-Stays :
      (decision : Option String) (existing valid : Bool) (state : State R)
      → Stays g.redirect_uri (
          (if valid
              then decide c b params g decision existing
              else pure (answer c b params g ("error", "invalid_request")))
            state)
  decide_token-Stays decision existing true state = decide-Stays decision existing state
  decide_token-Stays decision existing false state =
      authorization_redirect-StaysAt g.redirect_uri params g.issuer ("error", "invalid_request")

  pub decide_checked-Stays :
      (decision : Option String) (existing : Bool) (state : State R)
      → Stays g.redirect_uri (decide_checked c b params g decision existing state)
  unfolding decide_checked
  decide_checked-Stays decision existing state =
      elim (Bool-cases (is_decision c b params g decision)) [
        | inr e ↦ rw e (decide-Stays decision existing state)
        | inl e ↦ rw e (
            Stays-bind g.redirect_uri (lift (token_valid c b params g))
              (λ valid.
                if valid
                then decide c b params g decision existing
                else pure (answer c b params g ("error", "invalid_request")))
              state (λ valid s'. decide_token-Stays decision existing valid s'))
      ]

  pub grant_or_request_consent-Stays :
      (a : AuthorizationRequest) (now : Bool) (state : State R)
      → Stays g.redirect_uri (grant_or_request_consent c b params g a now state)
  unfolding grant_or_request_consent
  grant_or_request_consent-Stays a now state =
      Stays-bind g.redirect_uri (on_database (has_consent c.session (consent_key c b params g)))
        (decide_checked c b params g (decision_of c b params g a now)) state
        (λ existing s'. decide_checked-Stays (decision_of c b params g a now) existing s')

pub set_session_cookie-location :
    (a : AuthorizationRequest) (session_token : Option String) (response : Response)
    → location (set_session_cookie a session_token response) ≡ location response
unfolding set_session_cookie
set_session_cookie-location a none response = refl
set_session_cookie-location a (some session_token) response = refl
