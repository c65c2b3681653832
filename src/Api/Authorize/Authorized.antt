-- ===== src/Api/Authorize/Authorized.antt =====
-- api/endpoints/authorize.py: what holds where the authorization endpoint issues a code.
use guillotina_oauth_server.Prelude.{
  ◌≡◌, refl, ap, sym, subst, String, Bool, true, false, Option, none, some, List, [], ◌∷◌, ◌++◌,
  ◌⊎◌, inl, inr, arith, Dict, get,
}
use guillotina_oauth_server.Exec.{
  Result, ok, err, http_bad_request, http_precondition_failed, unique_violation, runtime_error,
  type_error, value_error, attribute_error, data_error, undefined_table, Result-cases, bind_ok,
}
use guillotina_oauth_server.Sql.{select_row}
use guillotina_oauth_server.Flow.Keys.{token_hash}
use guillotina_oauth_server.Flow.Clients.RedirectUris.{redirect_uri_registered_for_client}
use guillotina_oauth_server.Storage.Rows.{Client, Database}
use guillotina_oauth_server.Storage.Repository.Clients.{get_client}
use guillotina_oauth_server.Storage.Repository.Codes.{code_key}
use guillotina_oauth_server.Indicators.Grant.{validate_resource_indicator}
use guillotina_oauth_server.Utils.Request.Params.{Param, normalize_list}
use guillotina_oauth_server.Api.Response.{Response, Context, State, field, on_database}
use guillotina_oauth_server.Api.Authorize.Request.{
  Browser, AuthorizationRequest, validate_authorization_request,
}
use guillotina_oauth_server.Api.Authorize.Login.{
  AuthenticationResult, early_response, authenticated, authenticate_user_or_present_login,
}
use guillotina_oauth_server.Api.Authorize.Grant.{Grant, answer, raw_code}
use guillotina_oauth_server.Api.Authorize.Granted.{
  issued_row, Consents, grant_or_request_consent-cases,
}
use guillotina_oauth_server.Api.Authorize.Known.{
  Known, Resolved, shown, known, authenticate_user_or_present_login-Settles,
}
use guillotina_oauth_server.Api.Authorize.Endpoint.{
  set_session_cookie, after_login, after_resources, after_validation, after_redirect_uri,
  after_client, authorize,
}

module _ {R : Type 0} (c : Context R) (b : Browser) (a : AuthorizationRequest)
    (params : Dict Param) where
  abbrev pub grant_for : Client → String → String → List String → Grant
  grant_for client user_id issuer resources = record {
    client = client;
    user_id = user_id;
    scopes = normalize_list (get params "scope");
    resources = resources;
    redirect_uri = field params "redirect_uri";
    issuer = issuer;
  }

  -- A code for a grant: the user let the client in, the code is stored under its hash, which was free, and
  -- the browser is sent to the redirect URI with the code.
  pub record Coded (g : Grant) (session_token : Option String) (now : Bool) (state : State R)
      (outcome : Result Response × State R) : Type 0 where
    pub consents : Consents c b params g a now state.database
    pub hash : String
    pub hashed : token_hash c.session.crypto c.session.settings (raw_code c b params g) ≡ ok hash
    pub was_free : select_row (code_key c.session.container_db_key hash) state.database.codes ≡ none
    pub stored :
        outcome.1.database.codes ≡ state.database.codes ++ issued_row c b params g hash ∷ []
    pub answered :
        outcome.0
        ≡ ok (
            set_session_cookie a session_token
              (answer c b params g ("code", raw_code c b params g)))

  abbrev pub CodesKept : State R → Result Response × State R → Type 0
  CodesKept state outcome = outcome.1.database.codes ≡ state.database.codes

  after_login-cases :
      (client : Client) (user_id issuer : String) (resources : List String)
      (session_token : Option String) (now : Bool) (state state' : State R)
      → state'.database ≡ state.database
      → let outcome =
          after_login c b a params client issuer resources
            (field params "redirect_uri")
            (authenticated user_id session_token now)
            state' in
        CodesKept state outcome
        ⊎ Coded (grant_for client user_id issuer resources) session_token now state outcome
  unfolding after_login
  after_login-cases client user_id issuer resources session_token now state state' same =
      let g = grant_for client user_id issuer resources in
      elim (grant_or_request_consent-cases c b params g a now state') [
        | inl kept ↦ inl (ground (arith, kept, same))
        | inr (consents, issued) ↦ inr (record {
          consents = subst (Consents c b params g a now) same consents;
          hash = issued.hash;
          hashed = issued.hashed;
          was_free =
              subst
                (λ db. select_row (code_key c.session.container_db_key issued.hash) db.codes ≡ none)
                same issued.was_free;
          stored = ground (arith, issued.stored, issued.answered, same);
          answered = ground (arith, issued.answered);
        })
      ]

  -- Everything that an issued code rests on.
  pub record Authorized (state : State R) (outcome : Result Response × State R) : Type 0 where
    pub client : Client
    pub issuer : String
    pub resources : List String
    pub user_id : String
    pub session_token : Option String
    pub now : Bool
    pub client_found :
        (get_client c.session (field params "client_id") state.database).0 ≡ ok (some client)
    pub redirect_registered :
        redirect_uri_registered_for_client b.checked client.redirect_uris
          (field params "redirect_uri")
        ≡ ok true
    pub issuer_named : c.container_issuer_url ≡ ok issuer
    pub request_valid : validate_authorization_request c.session.settings params client ≡ none
    pub resources_allowed :
        validate_resource_indicator c.container_issuer_url b.registry (get params "resource")
        ≡ ok resources
    pub user_known : Known c b a params state user_id session_token now
    pub coded : Coded (grant_for client user_id issuer resources) session_token now state outcome

  abbrev Sound : State R → Result Response × State R → Type 0
  Sound state outcome = CodesKept state outcome ⊎ Authorized state outcome

  module _ (client : Client) (issuer : String) (state : State R)
      (client_found : (get_client c.session (field params "client_id") state.database).0
        ≡ ok (some client))
      (registered : redirect_uri_registered_for_client b.checked client.redirect_uris
          (field params "redirect_uri")
        ≡ ok true)
      (named : c.container_issuer_url ≡ ok issuer)
      (valid : validate_authorization_request c.session.settings params client ≡ none) where
    after-Resolved :
        (resources : List String) (result : AuthenticationResult) (state' : State R)
        → validate_resource_indicator c.container_issuer_url b.registry (get params "resource")
          ≡ ok resources
        → state'.database ≡ state.database
        → Resolved c b a params state result
        → Sound state (
            after_login c b a params client issuer resources
              (field params "redirect_uri")
              result
              state')
    after-Resolved resources (early_response p) state' allowed same (shown _) =
        inl (unfold after_login in ap (λ db. db.codes) same)
    after-Resolved resources (authenticated user_id session_token now) state' allowed same
          (known _ _ _ is_known) =
        elim (after_login-cases client user_id issuer resources session_token now state state'
          same) [
            | inl kept ↦ inl kept
            | inr coded ↦ inr (record {
              client = client;
              issuer = issuer;
              resources = resources;
              user_id = user_id;
              session_token = session_token;
              now = now;
              client_found = client_found;
              redirect_registered = registered;
              issuer_named = named;
              request_valid = valid;
              resources_allowed = allowed;
              user_known = is_known;
              coded = coded;
            })
          ]

    after_resources-Sound :
        (allowed : Result (List String))
        → validate_resource_indicator c.container_issuer_url b.registry (get params "resource")
          ≡ allowed
        → Sound state
            (after_resources c b a params client (field params "redirect_uri") issuer allowed state)
    unfolding after_resources
    after_resources-Sound (ok resources) e =
        let (result, returned, same, resolved) =
          authenticate_user_or_present_login-Settles c b a params state client in
        conclude result returned same resolved
      where
        conclude :
            (result : AuthenticationResult)
            → (authenticate_user_or_present_login c b a params client state).0 ≡ ok result
            → (authenticate_user_or_present_login c b a params client state).1.database
              ≡ state.database
            → Resolved c b a params state result
            → Sound state (
                after_resources c b a params client
                  (field params "redirect_uri")
                  issuer
                  (ok resources)
                  state)
        conclude result returned same resolved =
            let state' = (authenticate_user_or_present_login c b a params client state).1 in
            subst (Sound state)
              (sym (
                bind_ok (authenticate_user_or_present_login c b a params client)
                  (after_login c b a params client issuer resources (field params "redirect_uri"))
                  {s' = state'} {a = result} (ap (λ r. (r, state')) returned)))
              (after-Resolved resources result state' e same resolved)
    after_resources-Sound (err (http_bad_request code description)) e = inl refl
    after_resources-Sound (err (http_precondition_failed code description)) e = inl refl
    after_resources-Sound (err unique_violation) e = inl refl
    after_resources-Sound (err runtime_error) e = inl refl
    after_resources-Sound (err type_error) e = inl refl
    after_resources-Sound (err value_error) e = inl refl
    after_resources-Sound (err attribute_error) e = inl refl
    after_resources-Sound (err data_error) e = inl refl
    after_resources-Sound (err undefined_table) e = inl refl

  after_validation-Sound :
      (client : Client) (issuer : String) (state : State R) (found : Option String)
      → (get_client c.session (field params "client_id") state.database).0 ≡ ok (some client)
      → redirect_uri_registered_for_client b.checked client.redirect_uris
          (field params "redirect_uri")
        ≡ ok true
      → c.container_issuer_url ≡ ok issuer
      → validate_authorization_request c.session.settings params client ≡ found
      → Sound state
          (after_validation c b a params client (field params "redirect_uri") issuer found state)
  unfolding after_validation
  after_validation-Sound client issuer state (some error) client_found registered named e = inl refl
  after_validation-Sound client issuer state none client_found registered named e =
      after_resources-Sound client issuer state client_found registered named e _ refl

  after_redirect_uri-Sound :
      (client : Client) (state : State R) (registered : Bool)
      → (get_client c.session (field params "client_id") state.database).0 ≡ ok (some client)
      → redirect_uri_registered_for_client b.checked client.redirect_uris
          (field params "redirect_uri")
        ≡ ok registered
      → Sound state
          (after_redirect_uri c b a params client (field params "redirect_uri") registered state)
  unfolding after_redirect_uri
  after_redirect_uri-Sound client state false client_found e = inl refl
  after_redirect_uri-Sound client state true client_found e =
      elim (Result-cases c.container_issuer_url) [
        | inr (_, e') ↦ inl (ground arith)
        | inl (issuer, e') ↦
            subst (Sound state)
              (sym (
                ap
                  (λ r. elim r [
                    | ok issuer' ↦
                        after_validation c b a params client (field params "redirect_uri") issuer'
                          (validate_authorization_request c.session.settings params client) state
                    | err x ↦ (err x, state)
                  ])
                  e'))
              (after_validation-Sound client issuer state _ client_found e e' refl)
      ]

  after_client-Sound :
      (found : Option Client) (state : State R)
      → (get_client c.session (field params "client_id") state.database).0 ≡ ok found
      → Sound state (after_client c b a params found state)
  unfolding after_client
  after_client-Sound none state e = inl refl
  after_client-Sound (some client) state e =
      elim (Result-cases (
        redirect_uri_registered_for_client b.checked client.redirect_uris
          (field params "redirect_uri"))) [
            | inr (_, e') ↦ inl (ground arith)
            | inl (registered, e') ↦
                subst (Sound state)
                  (sym (
                    ap
                      (λ r. elim r [
                        | ok registered' ↦
                            after_redirect_uri c b a params client (field params "redirect_uri")
                              registered' state
                        | err x ↦ (err x, state)
                      ])
                      e'))
                  (after_redirect_uri-Sound client state registered e e')
          ]

  get_client_answer :
      (db : Database)
      → (found : Option Client) × (get_client c.session (field params "client_id") db
          ≡ (ok found, db))
  unfolding get_client
  get_client_answer db = (_, refl)

  -- The authorization endpoint, on the parameters of a request, leaves the codes of the store as they were,
  -- or it stores one code, for a registered client and a redirect URI of it, for a request that passes all
  -- tests (PKCE and scopes among them), for allowed resources, and for a known user who lets the client in by
  -- this request or by a consent that is remembered. The hash of the code was free, and the browser is sent
  -- to the redirect URI with the code.
  pub authorize-Authorized :
      (state : State R)
      → CodesKept state (authorize c b a params state)
        ⊎ Authorized state (authorize c b a params state)
  unfolding authorize
  authorize-Authorized state =
      let (found, e) = get_client_answer state.database in
      subst (Sound state)
        (sym (
          bind_ok (on_database (get_client c.session (field params "client_id")))
            (after_client c b a params) {s' = state} {a = found} (ground (arith, e))))
        (after_client-Sound found state (ap (λ x. x.0) e))
