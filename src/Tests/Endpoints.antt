-- ===== src/Tests/Endpoints.antt =====
-- The theorems on the endpoints at concrete inputs.
use guillotina_oauth_server.Prelude.{
  ◌≡◌, List, All, eq_iff, refl, arith, false, some, [], ◌∷◌, get, Dict, pos, join,
}
use guillotina_oauth_server.Exec.{ok}
use guillotina_oauth_server.Flow.Keys.{
  token_hash, derive_key, base_secret, access_token_signing_key,
}
use guillotina_oauth_server.Flow.Pkce.{
  verify_s256, s256_challenge, pkce_verifier_valid, pkce_syntax_valid, unreserved, rstrip_padding,
}
use guillotina_oauth_server.Flow.Tokens.{
  issue_access_token, generate_opaque_token, access_token_claims,
}
use guillotina_oauth_server.Sql.{select_row, delete_rows, insert_row, update_rows}
use guillotina_oauth_server.Storage.Rows.{row_to_client, row_to_code, row_to_refresh}
use guillotina_oauth_server.Storage.Repository.Clients
use guillotina_oauth_server.Storage.Repository.Codes
use guillotina_oauth_server.Storage.Repository.Tokens
use guillotina_oauth_server.Utils.Request.Params.{
  Param, Request, text, normalize_list, peer_ip_address,
}
use guillotina_oauth_server.Api.Response.{Context, State, Tokens, tokens, empty, field}
use guillotina_oauth_server.Api.Token.Endpoint
use guillotina_oauth_server.Api.Token.Endpoint.{exchange_authorization_code, refresh_tokens}
use guillotina_oauth_server.Api.Token.Exchange.{Exchanged, exchange_authorization_code-Exchanged}
use guillotina_oauth_server.Api.Token.Refused.{
  InForce, RefusesReplay, exchange_authorization_code-RefusesReplay,
}
use guillotina_oauth_server.Api.Token.Replay.{
  RevokedByReplay, at_later, exchange_authorization_code-RevokedByReplay,
}
use guillotina_oauth_server.Storage.Operations.{Event, call, run}
use guillotina_oauth_server.Storage.Operations
use guillotina_oauth_server.Storage.SingleUse.{stores_code}
use guillotina_oauth_server.Api.Token.Refresh.{Refreshed, refresh_tokens-Refreshed}
use guillotina_oauth_server.Api.Token.Endpoint.{token_endpoint}
use guillotina_oauth_server.Api.Revoke.{revoke_unless, GrantRevoked, revoke_unless-GrantRevoked}
use guillotina_oauth_server.Api.Consents.{revoke_consent, OfOthers, revoke_consent-other_user}
use guillotina_oauth_server.Api.Throttling.{Rejects, token_endpoint-Rejects}
use guillotina_oauth_server.Utils.RateLimit.Memory.{
  memory_rate_limit_exceeded, active_limit, track_and_record, record_hit, popleft_expired,
}
use guillotina_oauth_server.Utils.RateLimit.Redis.{
  rate_limit_exceeded, with_fallback, get_redis_driver,
}
use guillotina_oauth_server.Storage.Repository.Consents
use guillotina_oauth_server.Tests.Data.{
  context, store, other_store, state, refresh_row, consent_row, database-IsWellFormed, code_params,
  refresh_params, token_hash_here,
}

abbrev issued : Tokens
issued = record {
  access_token = "secretguillotina.oauth:access-tokenalice";
  expires_in = pos 3600;
  refresh_token = "gor_new";
  scope = "guillotina:access";
}

exchange_succeeds : (exchange_authorization_code context code_params state).0 ≡ ok (tokens issued)
unfolding exchange_authorization_code Clients.get_client Clients.client_key Codes.get_active_code
    Codes.consume_code Codes.code_active Codes.code_key Tokens.create_refresh_token
    Tokens.insert_refresh Tokens.refresh_row Tokens.refresh_key select_row delete_rows insert_row
    row_to_client row_to_code token_hash derive_key base_secret access_token_signing_key verify_s256
    s256_challenge pkce_verifier_valid pkce_syntax_valid unreserved rstrip_padding
    issue_access_token generate_opaque_token access_token_claims normalize_list field get join
    Endpoint.exchange_code Endpoint.exchange_active_code Endpoint.consume_and_issue
    Endpoint.issue_tokens Endpoint.access_token_for Endpoint.new_refresh_token
    Endpoint.token_response Endpoint.or_granted Endpoint.challenge_of
exchange_succeeds = refl

exchange_authorization_code-Exchanged_example :
    Exchanged context code_params issued state.database
      (exchange_authorization_code context code_params state).1.database
exchange_authorization_code-Exchanged_example =
    exchange_authorization_code-Exchanged context code_params state issued exchange_succeeds

-- A second later the same request comes again, from a server with other clocks; in between another container's
-- code is consumed.
abbrev late : Context (Unit {0})
late = at_later context code_params (record context { token_urlsafe = "newer" }) 1_001_000

abbrev between : List Event
between = call other_store (Operations.consume_code "code-1") ∷ []

abbrev replay_state : State (Unit {0})
replay_state = record state {
  database = run between (exchange_authorization_code context code_params state).1.database;
}

exchange_authorization_code-RevokedByReplay_example :
    RevokedByReplay context code_params "code-1" issued
      (exchange_authorization_code context code_params state)
      (exchange_authorization_code late code_params replay_state)
unfolding stores_code field get
exchange_authorization_code-RevokedByReplay_example =
    exchange_authorization_code-RevokedByReplay context code_params state replay_state issued
      "code-1" between (record context { token_urlsafe = "newer" }) 1_001_000 exchange_succeeds
      (token_hash_here "code-1") (refl, tt) (omega arith) refl

-- A code that was never issued
abbrev spent_params : Dict Param
spent_params =
    ("client_id", text "app")
    ∷ ("code", text "code-0")
    ∷ ("redirect_uri", text "https://app.example/cb")
    ∷ []

none-InForce : All (λ r. ¬ InForce "db/guillotina" "code-0" 1000 r) state.database.codes
none-InForce = ((λ (_, same, _). absurd (ground (arith, eq_iff "code-1" "code-0"))), tt)

exchange_authorization_code-RefusesReplay_example :
    RefusesReplay context spent_params "code-0" state
      (exchange_authorization_code context spent_params state)
unfolding field get
exchange_authorization_code-RefusesReplay_example =
    exchange_authorization_code-RefusesReplay context spent_params state (token_hash_here "code-0")
      refl none-InForce

refresh_succeeds : (refresh_tokens context refresh_params state).0 ≡ ok (tokens issued)
unfolding refresh_tokens Clients.get_client Clients.client_key Tokens.get_valid_refresh
    Tokens.rotate_refresh_token Tokens.rotatable Tokens.refresh_valid Tokens.insert_rotated
    Tokens.replace_row Tokens.insert_refresh Tokens.refresh_row Tokens.refresh_key
    Tokens.not_revoked select_row update_rows insert_row row_to_client row_to_refresh token_hash
    derive_key base_secret access_token_signing_key issue_access_token generate_opaque_token
    access_token_claims normalize_list field get join Endpoint.refresh_with
    Endpoint.rotate_and_issue Endpoint.answer_rotation Endpoint.access_token_for
    Endpoint.new_refresh_token Endpoint.token_response Endpoint.or_granted
refresh_succeeds = refl

refresh_tokens-Refreshed_example :
    Refreshed context refresh_params issued state.database
      (refresh_tokens context refresh_params state).1.database
refresh_tokens-Refreshed_example =
    refresh_tokens-Refreshed context refresh_params state issued database-IsWellFormed
      refresh_succeeds

abbrev revoke_params : Dict Param
revoke_params = ("client_id", text "app") ∷ ("token", text "token-1") ∷ []

revoke_unless-GrantRevoked_example :
    ((revoke_unless context revoke_params false state).0 ≡ ok empty)
    × GrantRevoked context revoke_params
        (row_to_refresh refresh_row)
        state.database
        (revoke_unless context revoke_params false state).1.database
unfolding Tokens.get_refresh_token Tokens.refresh_key select_row row_to_refresh token_hash
    derive_key base_secret field get
revoke_unless-GrantRevoked_example =
    revoke_unless-GrantRevoked context revoke_params (row_to_refresh refresh_row) state refl refl

revoke_consent-other_user_example :
    OfOthers "alice" state (revoke_consent context "mallory" consent_row.consent_key state)
revoke_consent-other_user_example =
    revoke_consent-other_user context "mallory" consent_row.consent_key "alice" state
      (λ e. absurd (ground (arith, eq_iff "mallory" "alice")))

-- One request in each window
abbrev strict : Context (Unit {0})
strict = record context {
  session = record store {
    settings = record store.settings {
      token_rate_limit = some (pos 1);
      revoke_rate_limit = some (pos 1);
    };
  };
}

abbrev busy : State (Unit {0})
busy = record {
  database = state.database;
  limiter = record {
    windows = ("oauth-token:10.0.0.1", 49 ∷ []) ∷ ("oauth-revoke:10.0.0.1", 49 ∷ []) ∷ [];
    redis_unavailable = false;
    redis = tt;
  };
}

abbrev request : Request
request = record {
  content_type = some "application/x-www-form-urlencoded";
  body = ("grant_type", "refresh_token") ∷ ("client_id", "app") ∷ ("token", "token-1") ∷ [];
  client = some "10.0.0.1";
}

token_endpoint-Rejects_example : Rejects busy (token_endpoint strict request busy)
unfolding rate_limit_exceeded with_fallback get_redis_driver memory_rate_limit_exceeded active_limit
    track_and_record record_hit popleft_expired get peer_ip_address
token_endpoint-Rejects_example = token_endpoint-Rejects strict request busy refl
