-- ===== src/Api/Token/Complete.antt =====
-- api/endpoints/token.py: requests that are answered with tokens.
use guillotina_oauth_server.Prelude.{
  ◌≡◌, ap, sym, ◌∙◌, String, false, Option, none, some, List, arith, ◌==◌, eq_iff, Dict, join,
}
use guillotina_oauth_server.Exec.{Result, ok, bind_ok}
use guillotina_oauth_server.Flow.Keys.{token_hash, access_token_signing_key}
use guillotina_oauth_server.Flow.Tokens.{access_token_claims, issue_access_token}
use guillotina_oauth_server.Sql.{select_row, insert_row}
use guillotina_oauth_server.Storage.Rows.{Client, Code, Database}
use guillotina_oauth_server.Storage.Answers.{consume_code_answer, get_active_code_answer}
use guillotina_oauth_server.Storage.Repository.Clients.{get_client}
use guillotina_oauth_server.Storage.Repository.Codes.{get_active_code, consume_code}
use guillotina_oauth_server.Storage.Repository.Tokens.{
  refresh_key, refresh_row, insert_refresh, create_refresh_token,
}
use guillotina_oauth_server.Utils.Request.Params.{Param}
use guillotina_oauth_server.Api.Response.{Tokens, tokens, Context, State, field, on_database}
use guillotina_oauth_server.Api.Token.Endpoint.{
  challenge_of, access_token_for, new_refresh_token, token_response, issue_tokens,
  consume_and_issue, exchange_active_code, exchange_code, exchange_authorization_code,
}
use guillotina_oauth_server.Api.Token.Exchange.{lacks_fields, exchange_authorization_code_answer}
use guillotina_oauth_server.Api.Token.Exchange.Steps.{IsExchangeable, resources_of, stored_for}

module _ {R : Type 0} (c : Context R) where
  -- What the server needs at hand: a secret, an issuer, and a new refresh token whose hash is free.
  pub record IsReady (db : Database) : Type 0 where
    pub issuer : String
    pub key : String
    pub refresh_hash : String
    pub issuer_named : c.container_issuer_url ≡ ok issuer
    pub key_derived : access_token_signing_key c.session.crypto c.session.settings ≡ ok key
    pub hashed :
        token_hash c.session.crypto c.session.settings (new_refresh_token c) ≡ ok refresh_hash
    pub free :
        select_row (refresh_key c.session.container_db_key refresh_hash) db.refresh_tokens ≡ none

  stored_ok :
      (client : Client) (resources : List String) (code : Code) (db : Database)
      → IsReady db
      → (stored_for c.session (new_refresh_token c) client resources code db).0
        ≡ ok (new_refresh_token c)
  unfolding create_refresh_token insert_refresh insert_row refresh_row
  stored_ok client resources code db ready = ground (arith, ready.hashed, ready.free)

  access_token_ok :
      (user_id : String) (resources : List String) (client_id : String) (scope : List String)
      (state : State R)
      → IsReady state.database
      → (access_token : String) × (access_token_for c user_id resources client_id scope state
          ≡ (ok access_token, state))
  unfolding access_token_for issue_access_token
  access_token_ok user_id resources client_id scope state ready = (
    c.jwt_encode
        (access_token_claims c.session.settings c.utc_now ready.issuer user_id resources client_id
          scope)
        ready.key,
    ground (arith, ready.issuer_named, ready.key_derived),
  )

  issue_tokens_ok :
      (client : Client) (resources : List String) (code : Code) (state : State R)
      → IsReady state.database
      → (t : Tokens) × ((issue_tokens c client resources (some code) state).0 ≡ ok (tokens t))
  unfolding issue_tokens token_response
  issue_tokens_ok client resources code state ready =
      let (access_token, e) =
        access_token_ok code.user_id resources client.client_id code.scope state ready in
      let stored = stored_ok client resources code state.database ready in
      (
        record {
          access_token = access_token;
          expires_in = c.session.settings.access_token_ttl;
          refresh_token = new_refresh_token c;
          scope = join " " code.scope;
        },
        ground (arith, e, stored),
      )

module _ {R : Type 0} (c : Context R) (params : Dict Param) where
  refresh_tokens-consume_code :
      {hash : String} (code : String) (db : Database)
      → token_hash c.session.crypto c.session.settings code ≡ ok hash
      → (consume_code c.session code db).1.refresh_tokens ≡ db.refresh_tokens
  unfolding consume_code
  refresh_tokens-consume_code code db e = ground (arith, e)

  consume_and_issue_ok :
      {hash : String} (client : Client) (resources : List String) (code : Code) (state : State R)
      → token_hash c.session.crypto c.session.settings (field params "code") ≡ ok hash
      → (get_active_code c.session (field params "code") state.database).0 ≡ ok (some code)
      → IsReady c state.database
      → (t : Tokens) × ((consume_and_issue c params client resources state).0 ≡ ok (tokens t))
  unfolding consume_and_issue
  consume_and_issue_ok client resources code state e active ready =
      let db' = (consume_code c.session (field params "code") state.database).1 in
      let state' : State R = record state { database = db' } in
      let same = refresh_tokens-consume_code (field params "code") state.database e in
      let agree : (consume_code c.session (field params "code") state.database).0 ≡ ok (some code) =
        ap (λ y. y.0) (consume_code_answer c.session (field params "code") state.database e)
        ∙ sym (
            ap (λ y. y.0) (get_active_code_answer c.session (field params "code") state.database e))
        ∙ active in
      let step : consume_and_issue c params client resources state
          ≡ issue_tokens c client resources (some code) state' =
        bind_ok (on_database (consume_code c.session (field params "code")))
          (issue_tokens c client resources) (ap (λ r. (r, state')) agree) in
      let (t, issued) = issue_tokens_ok c client resources code state' (record {
        issuer = ready.issuer;
        key = ready.key;
        refresh_hash = ready.refresh_hash;
        issuer_named = ready.issuer_named;
        key_derived = ready.key_derived;
        hashed = ready.hashed;
        free =
            ap (select_row (refresh_key c.session.container_db_key ready.refresh_hash)) same
            ∙ ready.free;
      }) in
      (t, ap (λ y. y.0) step ∙ issued)

  exchange_active_code_ok :
      (client : Client) (code : Code) (state : State R)
      → IsExchangeable c params client code
      → (challenge_of code == "") ≡ false
      → exchange_active_code c params (some client) code state
        ≡ consume_and_issue c params client (resources_of c params code) state
  unfolding exchange_active_code
  exchange_active_code_ok client code state checks challenged = ground (
    arith,
    (eq_iff code.client_id client.client_id).1 checks.same_client,
    checks.grant_type,
    (eq_iff code.redirect_uri (field params "redirect_uri")).1 checks.redirect_uri,
    challenged,
    checks.pkce,
    checks.resource,
  )

  -- A request whose client is registered and whose code is in force, and that passes every check of the
  -- exchange, is answered with tokens, once the server has a secret, an issuer and a new refresh token
  -- whose hash is free.
  pub exchange_authorization_code_succeeds :
      {hash : String} (client : Client) (code : Code) (state : State R)
      → lacks_fields c params ≡ false
      → token_hash c.session.crypto c.session.settings (field params "code") ≡ ok hash
      → (get_client c.session (field params "client_id") state.database).0 ≡ ok (some client)
      → (get_active_code c.session (field params "code") state.database).0 ≡ ok (some code)
      → IsExchangeable c params client code
      → (challenge_of code == "") ≡ false
      → IsReady c state.database
      → (t : Tokens) × ((exchange_authorization_code c params state).0 ≡ ok (tokens t))
  exchange_authorization_code_succeeds {hash = hash} client code state complete e found active
        checks challenged ready =
      let (found', active', e', e'', answer) =
        exchange_authorization_code_answer c params state e complete in
      let (t, issued) =
        consume_and_issue_ok client (resources_of c params code) code state e active ready in
      (
        t,
        ap (λ y. y.0) (started found' active' (sym e' ∙ found) (sym e'' ∙ active) answer) ∙ issued,
      )
    where
      started :
          (found' : Option Client) (active' : Option Code)
          → ◌≡◌ {A = Result (Option Client)} (ok found') (ok (some client))
          → ◌≡◌ {A = Result (Option Code)} (ok active') (ok (some code))
          → exchange_authorization_code c params state
            ≡ exchange_code c params hash found' active' state
          → exchange_authorization_code c params state
            ≡ consume_and_issue c params client (resources_of c params code) state
      started found' active' same_client same_code answer =
          answer
          ∙ (let same : found' ≡ some client = ground arith in
              let same' : active' ≡ some code = ground arith in
              rw same (
                rw same' (
                  unfold exchange_code in
                  exchange_active_code_ok client code state checks challenged)))
