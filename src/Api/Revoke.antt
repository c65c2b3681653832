-- ===== src/Api/Revoke.antt =====
-- api/endpoints/revoke.py: the revocation endpoint.
use guillotina_oauth_server.Prelude.{
  String, ◌≡◌, ◌≢◌, refl, sym, subst, Bool, true, false, ◌||◌, Option, none, some, arith, ◌==◌,
  eq_iff, if◌then◌else◌, Dict, concat,
}
use guillotina_oauth_server.Exec.{Exec, ok, pure, bind_ok, ◌>>=◌, ◌>>◌}
use guillotina_oauth_server.Flow.Consent.{build_consent_key}
use guillotina_oauth_server.Storage.Rows.{Refresh, Database}
use guillotina_oauth_server.Storage.Repository.Consents.{delete_consent}
use guillotina_oauth_server.Storage.Repository.Tokens.{
  get_refresh_token, revoke_where, revoke_refresh_family,
}
use guillotina_oauth_server.Storage.Families.Rows.{
  InFamily, RevokesOnly, revoke_refresh_family-RevokesRows,
}
use guillotina_oauth_server.Storage.Families.Consents.{
  ConsentOf, DeletesOnly, delete_consent-DeletesOnly,
}
use guillotina_oauth_server.Utils.Request.Params.{
  Param, Request, form_content_type_valid, peer_ip_address,
}
use guillotina_oauth_server.Api.Response.{
  error, empty, bad_request, Context, State, Endpoint, on_database, limited,
  revocation_request_singleton_params, field, with_form,
}

module _ {R : Type 0} (c : Context R) (params : Dict Param) where
  -- The revocation of the grant that a token belongs to, and of its remembered consent
  unfoldable pub revoke_grant : Refresh → Exec Database (Unit {0})
  revoke_grant refresh = do
    _ ← revoke_refresh_family c.session refresh.client_id refresh.user_id refresh.auth_code_hash
    _ ←
        delete_consent c.session
          (build_consent_key refresh.user_id refresh.client_id refresh.scope refresh.resource)
          (some refresh.user_id)
    pure tt

  -- What follows `get_refresh_token`: a token that is unknown, or another client's, is passed over.
  unfoldable pub revoke_found : Option Refresh → Endpoint R
  unfolding revoke_grant
  revoke_found none state = (ok empty, state)
  revoke_found (some refresh) state =
      if refresh.client_id == field params "client_id"
      then (on_database (revoke_grant refresh) >> pure empty) state
      else (ok empty, state)

  -- What follows the rate limiter's verdict
  unfoldable pub revoke_unless : Bool → Endpoint R
  unfolding revoke_found
  revoke_unless true =
      pure (error 429 "temporarily_unavailable" (some "revocation rate limit exceeded"))
  revoke_unless false = do
    refresh ← on_database (get_refresh_token c.session (field params "token"))
    revoke_found refresh

  unfoldable pub revocation_request : Request → Endpoint R
  unfolding revoke_unless
  revocation_request request =
      if field params "client_id" == "" || field params "token" == ""
      then pure (bad_request "invalid_request")
      else if field params "token_type_hint" == "access_token"
      then pure (bad_request "unsupported_token_type")
      else (do
        blocked ←
            limited c (concat "oauth-revoke:" (peer_ip_address request))
              c.session.settings.revoke_rate_limit c.session.settings.revoke_rate_window
        revoke_unless blocked)

unfoldable pub token_revocation_endpoint : {R : Type 0} → Context R → Request → Endpoint R
unfolding revocation_request
token_revocation_endpoint c request =
    if form_content_type_valid request
    then with_form request revocation_request_singleton_params
        (λ params. revocation_request c params request)
    else pure (error 400 "invalid_request" (some "invalid content type"))

module _ {R : Type 0} (c : Context R) (params : Dict Param) where
  -- What a revocation does for a token: it revokes the unrevoked tokens of the container with the client, the
  -- user and the authorization code of the token, and deletes the user's consent under the key that is made of
  -- the scopes and the resources of the token itself.
  pub record GrantRevoked (refresh : Refresh) (db db' : Database) : Type 0 where
    pub tokens_revoked :
        RevokesOnly
          (InFamily c.session.container_db_key refresh.client_id refresh.user_id
            refresh.auth_code_hash)
          c.session.now
          db.refresh_tokens
          db'.refresh_tokens
    pub consent_deleted :
        DeletesOnly
          (ConsentOf c.session.container_db_key
            (build_consent_key refresh.user_id refresh.client_id refresh.scope refresh.resource)
            refresh.user_id)
          db.consents
          db'.consents
    pub codes : db'.codes ≡ db.codes
    pub clients : db'.clients ≡ db.clients

  revoke_grant-GrantRevoked :
      (refresh : Refresh) (db : Database)
      → ((revoke_grant c params refresh db).0 ≡ ok tt)
        × GrantRevoked refresh db (revoke_grant c params refresh db).1
  unfolding revoke_grant delete_consent revoke_refresh_family revoke_where
  revoke_grant-GrantRevoked refresh db =
      let rows =
        revoke_refresh_family-RevokesRows c.session refresh.client_id refresh.user_id
          refresh.auth_code_hash db in
      (
        refl,
        record {
          tokens_revoked = rows.revokes;
          consent_deleted =
              delete_consent-DeletesOnly c.session
                (build_consent_key refresh.user_id refresh.client_id refresh.scope refresh.resource)
                refresh.user_id db;
          codes = refl;
          clients = refl;
        },
      )

  revoke_found-GrantRevoked :
      (refresh : Refresh) (state : State R)
      → refresh.client_id ≡ field params "client_id"
      → ((revoke_found c params (some refresh) state).0 ≡ ok empty)
        × GrantRevoked refresh state.database
            (revoke_found c params (some refresh) state).1.database
  unfolding revoke_found revoke_refresh_family delete_consent
  revoke_found-GrantRevoked refresh state own =
      rw ((eq_iff refresh.client_id (field params "client_id")).1 own) (
        let revoked = revoke_grant-GrantRevoked refresh state.database in
        (ground (arith, revoked.0), revoked.1))

  get_refresh_token_state :
      (token : String) (db : Database) → (get_refresh_token c.session token db).1 ≡ db
  unfolding get_refresh_token
  get_refresh_token_state token db = ground arith

  -- A request that the limiter lets through, for a token of the client, is answered with an empty response.
  -- Exactly the unrevoked tokens of the container with the token's client, user and authorization code are
  -- revoked, and exactly the user's consent is deleted whose key is made of the scopes and the resources of
  -- this very token. A consent for more than the token holds, which a refresh can narrow, stays.
  pub revoke_unless-GrantRevoked :
      (refresh : Refresh) (state : State R)
      → (get_refresh_token c.session (field params "token") state.database).0 ≡ ok (some refresh)
      → refresh.client_id ≡ field params "client_id"
      → ((revoke_unless c params false state).0 ≡ ok empty)
        × GrantRevoked refresh state.database (revoke_unless c params false state).1.database
  unfolding revoke_unless
  revoke_unless-GrantRevoked refresh state found own =
      let step : revoke_unless c params false state ≡ revoke_found c params (some refresh) state =
        bind_ok (on_database (get_refresh_token c.session (field params "token")))
          (revoke_found c params) {s' = state} {a = some refresh}
          (ground (arith, found, get_refresh_token_state (field params "token") state.database)) in
      subst (λ y. (y.0 ≡ ok empty) × GrantRevoked refresh state.database y.1.database) (sym step)
        (revoke_found-GrantRevoked refresh state own)

  -- The token of another client is left alone, and the answer does not tell it from a revoked one.
  pub revoke_unless-foreign :
      (refresh : Refresh) (state : State R)
      → (get_refresh_token c.session (field params "token") state.database).0 ≡ ok (some refresh)
      → refresh.client_id ≢ field params "client_id"
      → revoke_unless c params false state ≡ (ok empty, state)
  unfolding revoke_unless get_refresh_token
  revoke_unless-foreign refresh state found foreign =
      ground (arith, eq_iff refresh.client_id (field params "client_id"))
