-- ===== src/Api/Token/Exchange/Steps.antt =====
-- api/endpoints/token.py: the steps of the exchange.
use guillotina_oauth_server.Prelude.{
  String, ◌≡◌, refl, ap, sym, ◌∙◌, true, Option, none, some, List, arith, eq_iff, Dict, get, join,
  member, is_subset, inl, inr,
}
use guillotina_oauth_server.Exec.{Result, ok, Result-cases, bind_ok}
use guillotina_oauth_server.Flow.Keys.{token_hash}
use guillotina_oauth_server.Flow.Pkce.{verify_s256}
use guillotina_oauth_server.Storage.Rows.{Client, Code, Refresh, Database, Session}
use guillotina_oauth_server.Storage.Answers.{consume_code_answer, get_active_code_answer}
use guillotina_oauth_server.Storage.Repository.Codes.{get_active_code, consume_code}
use guillotina_oauth_server.Storage.Repository.Tokens.{create_refresh_token, insert_refresh}
use guillotina_oauth_server.Utils.Request.Params.{Param, normalize_list}
use guillotina_oauth_server.Api.Response.{Tokens, tokens, Context, State, field, on_database}
use guillotina_oauth_server.Api.Token.Endpoint.{
  or_granted, challenge_of, access_token_for, new_refresh_token, token_response, issue_tokens,
  consume_and_issue, exchange_active_code,
}

-- The database after a refresh token was stored for what a consumed code grants.
abbrev pub stored_for :
    Session → String → Client → List String → Code → Database → Result String × Database
stored_for s refresh_token client resources consumed db =
    create_refresh_token s refresh_token client.client_id consumed.user_id consumed.scope resources
      (some consumed.code_hash) none db

module _ {R : Type 0} (c : Context R) where
  pub access_token_for_state :
      (user_id : String) (resources : List String) (client_id : String) (scope : List String)
      (state : State R)
      → (access_token_for c user_id resources client_id scope state).1 ≡ state
  unfolding access_token_for
  access_token_for_state user_id resources client_id scope state = ground arith

  pub create_refresh_token_ok :
      (refresh_token : String) (client : Client) (resources : List String) (code : Code)
      (db : Database) {x : String}
      → (stored_for c.session refresh_token client resources code db).0 ≡ ok x
      → x ≡ refresh_token
  unfolding create_refresh_token insert_refresh
  create_refresh_token_ok refresh_token client resources code db h = ground arith

  pub issue_tokens_success :
      (client : Client) (resources : List String) (consumed : Option Code) (state : State R)
      (t : Tokens)
      → (issue_tokens c client resources consumed state).0 ≡ ok (tokens t)
      → (code : Code) × (consumed ≡ some code)
        × (t.refresh_token ≡ new_refresh_token c)
        × (t.scope ≡ join " " code.scope)
        × ((stored_for c.session (new_refresh_token c) client resources code state.database).0
            ≡ ok (new_refresh_token c))
        × ((issue_tokens c client resources consumed state).1.database
            ≡ (stored_for c.session (new_refresh_token c) client resources code state.database).1)
  unfolding issue_tokens token_response
  issue_tokens_success client resources none state t h = absurd (ground arith)
  issue_tokens_success client resources (some code) state t h =
      let stored = stored_for c.session (new_refresh_token c) client resources code in
      let same = access_token_for_state code.user_id resources client.client_id code.scope state in
      elim (Result-cases
        (access_token_for c code.user_id resources client.client_id code.scope state).0) [
          | inr (_, e) ↦ absurd (ground arith)
          | inl (access_token, e) ↦ elim (Result-cases (stored state.database).0) [
            | inr (_, e') ↦ absurd (ground arith)
            | inl (x, e') ↦
                let named =
                  create_refresh_token_ok (new_refresh_token c) client resources code state.database
                    e' in
                (code, refl, ground arith, ground arith, ground arith, ground arith)
          ]
        ]

module _ {R : Type 0} (c : Context R) (params : Dict Param) where
  -- What the exchange checks of a client and its active code.
  pub record IsExchangeable (client : Client) (code : Code) : Type 0 where
    pub same_client : code.client_id ≡ client.client_id
    pub grant_type : member "authorization_code" client.grant_types ≡ true
    pub redirect_uri : code.redirect_uri ≡ field params "redirect_uri"
    pub pkce :
        verify_s256 c.session.crypto (field params "code_verifier") (challenge_of code) ≡ true
    pub resource : is_subset (normalize_list (get params "resource")) code.resource ≡ true

  abbrev pub resources_of : Code → List String
  resources_of code = or_granted (normalize_list (get params "resource")) code.resource

  -- What the stored refresh token holds.
  pub record IssuedFor (client : Client) (code : Code) (refresh : Refresh) : Type 0 where
    pub client_id : refresh.client_id ≡ client.client_id
    pub user_id : refresh.user_id ≡ code.user_id
    pub scope : refresh.scope ≡ code.scope
    pub resource : refresh.resource ≡ resources_of code
    pub auth_code_hash : refresh.auth_code_hash ≡ some code.code_hash
    pub unrevoked : refresh.revoked_at ≡ none

  pub exchange_active_code_success :
      (found : Option Client) (code : Code) (state : State R) (t : Tokens)
      → (exchange_active_code c params found code state).0 ≡ ok (tokens t)
      → (client : Client) × (found ≡ some client)
        × IsExchangeable client code
        × (exchange_active_code c params found code state
            ≡ consume_and_issue c params client (resources_of code) state)
  unfolding exchange_active_code
  exchange_active_code_success none code state t h = absurd (ground arith)
  exchange_active_code_success (some client) code state t h = (
    client,
    refl,
    record {
      same_client = (eq_iff code.client_id client.client_id).0 (ground arith);
      grant_type = ground arith;
      redirect_uri = (eq_iff code.redirect_uri (field params "redirect_uri")).0 (ground arith);
      pkce = ground arith;
      resource = ground arith;
    },
    ground arith,
  )

  pub consume_and_issue_success :
      {hash : String} (client : Client) (resources : List String) (code : Code) (state : State R)
      (t : Tokens)
      → token_hash c.session.crypto c.session.settings (field params "code") ≡ ok hash
      → (get_active_code c.session (field params "code") state.database).0 ≡ ok (some code)
      → (consume_and_issue c params client resources state).0 ≡ ok (tokens t)
      → let db' = (consume_code c.session (field params "code") state.database).1 in
        (t.refresh_token ≡ new_refresh_token c)
        × (t.scope ≡ join " " code.scope)
        × ((stored_for c.session (new_refresh_token c) client resources code db').0
            ≡ ok (new_refresh_token c))
        × ((consume_and_issue c params client resources state).1.database
            ≡ (stored_for c.session (new_refresh_token c) client resources code db').1)
  unfolding consume_and_issue
  consume_and_issue_success client resources code state t e active h =
      let db' = (consume_code c.session (field params "code") state.database).1 in
      let state' : State R = record state { database = db' } in
      let agree : (consume_code c.session (field params "code") state.database).0 ≡ ok (some code) =
        ap (λ y. y.0) (consume_code_answer c.session (field params "code") state.database e)
        ∙ sym (
            ap (λ y. y.0) (get_active_code_answer c.session (field params "code") state.database e))
        ∙ active in
      let step : consume_and_issue c params client resources state
          ≡ issue_tokens c client resources (some code) state' =
        bind_ok (on_database (consume_code c.session (field params "code")))
          (issue_tokens c client resources) (ap (λ r. (r, state')) agree) in
      let shown =
        issue_tokens_success c client resources (some code) state' t
          (ap (λ y. y.0) (sym step) ∙ h) in
      ground (arith, step, shown)
