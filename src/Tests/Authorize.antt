-- ===== src/Tests/Authorize.antt =====
-- The theorems on the authorization endpoint at concrete inputs.
use guillotina_oauth_server.Prelude.{
  ◌<◌, ◌≡◌, ◌⊎◌, refl, true, false, none, some, [], ◌∷◌, get, join, inl, add_seconds, arith, sorted,
}
use guillotina_oauth_server.Exec.{Result, ok}
use guillotina_oauth_server.Flow.Keys.{
  token_hash, derive_key, base_secret, access_token_signing_key,
}
use guillotina_oauth_server.Flow.Consent.{build_consent_key}
use guillotina_oauth_server.Flow.Pkce.{
  verify_s256, s256_challenge, pkce_verifier_valid, pkce_syntax_valid, unreserved, rstrip_padding,
}
use guillotina_oauth_server.Flow.Tokens.{generate_opaque_token}
use guillotina_oauth_server.Sql.{select_row}
use guillotina_oauth_server.Storage.Rows.{row_to_client}
use guillotina_oauth_server.Storage.Repository.Clients
use guillotina_oauth_server.Storage.Repository.Codes
use guillotina_oauth_server.Storage.Repository.Consents
use guillotina_oauth_server.Storage.Repository.Tokens
use guillotina_oauth_server.Utils.Request.Params.{normalize_list}
use guillotina_oauth_server.Api.Response.{Response, State, field, optional_field}
use guillotina_oauth_server.Api.Token.Endpoint.{new_refresh_token}
use guillotina_oauth_server.Api.Token.Complete.{IsReady}
use guillotina_oauth_server.Api.Authorize.Request.{is_text}
use guillotina_oauth_server.Api.Authorize.Grant.{
  answer, decision_of, is_decision, grant_or_request_consent,
}
use guillotina_oauth_server.Api.Authorize.Granted.{Issued, issued_row}
use guillotina_oauth_server.Api.Authorize.Authorized.{CodesKept, Authorized, authorize-Authorized}
use guillotina_oauth_server.Api.Authorize.Endpoint.{authorize}
use guillotina_oauth_server.Api.Authorize.Redirects.{RedirectsSafely, authorize-RedirectsSafely}
use guillotina_oauth_server.Api.Authorize.Remembered.{grant_or_request_consent-Issued}
use guillotina_oauth_server.Api.Authorize.Exchange.{
  FollowsUp, Completes, later_session, later_context, Issued-Completes,
}
use guillotina_oauth_server.Tests.Data.{context, store, state, crypto, database, verifier, code_row}
use guillotina_oauth_server.Tests.Web.{
  browser, authorization_request, authorize_params, grant, client, next_params,
}

authorize-Authorized_example :
    CodesKept context browser authorization_request authorize_params state
      (authorize context browser authorization_request authorize_params state)
    ⊎ Authorized context browser authorization_request authorize_params state
        (authorize context browser authorization_request authorize_params state)
authorize-Authorized_example =
    authorize-Authorized context browser authorization_request authorize_params state

authorize-RedirectsSafely_example :
    RedirectsSafely context browser authorization_request authorize_params state
      (authorize context browser authorization_request authorize_params state)
authorize-RedirectsSafely_example =
    authorize-RedirectsSafely context browser authorization_request authorize_params state

abbrev outcome : Result Response × State (Unit {0})
outcome =
    grant_or_request_consent context browser authorize_params grant authorization_request false
      state

consent_remembered :
    (Consents.has_consent store
      (build_consent_key "alice" "app" ("guillotina:access" ∷ []) ("https://api.example" ∷ []))
      database).0
    ≡ ok true
unfolding Consents.has_consent Consents.consent_active Consents.consent_key_is Consents.not_expired
    build_consent_key select_row join sorted
consent_remembered = refl

no_decision :
    is_decision context browser authorize_params grant
      (decision_of context browser authorize_params grant authorization_request false)
    ≡ false
unfolding is_decision decision_of is_text
no_decision = refl

code_hashed : token_hash crypto store.settings (generate_opaque_token "goc_" "new") ≡ ok "goc_new"
unfolding token_hash derive_key base_secret generate_opaque_token
code_hashed = refl

code_free : select_row (Codes.code_key "db/guillotina" "goc_new") database.codes ≡ none
unfolding select_row Codes.code_key
code_free = refl

grant_or_request_consent-Issued_example :
    Issued context browser authorize_params grant state outcome
grant_or_request_consent-Issued_example =
    grant_or_request_consent-Issued context browser authorize_params grant authorization_request
      false "goc_new" state consent_remembered (inl no_decision) code_hashed code_free

-- The same outcome, written out
abbrev allowed : Result Response × State (Unit {0})
allowed = (
  ok (answer context browser authorize_params grant ("code", "goc_new")),
  record state {
    database = record database {
      codes = code_row ∷ issued_row context browser authorize_params grant "goc_new" ∷ [];
    };
  },
)

goc_new : generate_opaque_token "goc_" "new" ≡ "goc_new"
unfolding generate_opaque_token
goc_new = refl

allowed-Issued : Issued context browser authorize_params grant state allowed
unfolding generate_opaque_token
allowed-Issued = record {
  hash = "goc_new";
  hashed = code_hashed;
  was_free = code_free;
  stored = refl;
  answered = refl;
}

later_in_time : 2000 < add_seconds store.now store.settings.authorization_code_ttl
unfolding add_seconds
later_in_time = omega arith

verifier_meets : verify_s256 crypto verifier verifier ≡ true
unfolding verify_s256 s256_challenge pkce_verifier_valid pkce_syntax_valid unreserved rstrip_padding
verifier_meets = refl

follows_up : FollowsUp context browser authorize_params grant state allowed next_params
unfolding field get normalize_list optional_field generate_opaque_token
follows_up = record {
  challenge = verifier;
  client_id = refl;
  code = refl;
  redirect_uri = refl;
  complete = refl;
  no_resource = refl;
  challenged = refl;
  not_empty = refl;
  verifier = verifier_meets;
}

client_kept :
    (Clients.get_client
      (later_session context browser authorize_params grant state allowed 2000)
      "app"
      allowed.1.database).0
    ≡ ok (some client)
unfolding Clients.get_client Clients.client_key select_row row_to_client
client_kept = refl

ready :
    IsReady
      (later_context context browser authorize_params grant state allowed context 2000)
      allowed.1.database
unfolding access_token_signing_key derive_key base_secret token_hash new_refresh_token
    generate_opaque_token Tokens.refresh_key select_row
ready = record {
  issuer = "https://guillotina.example";
  key = "secretguillotina.oauth:access-token";
  refresh_hash = "gor_new";
  issuer_named = refl;
  key_derived = refl;
  hashed = refl;
  free = refl;
}

Issued-Completes_example :
    Completes context browser authorize_params grant state allowed context 2000 next_params
      (record { database = allowed.1.database; limiter = state.limiter })
Issued-Completes_example =
    Issued-Completes context browser authorize_params grant state allowed allowed-Issued context
      2000 next_params (record { database = allowed.1.database; limiter = state.limiter }) refl
      later_in_time follows_up client_kept refl ready
