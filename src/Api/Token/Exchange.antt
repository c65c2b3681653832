-- ===== src/Api/Token/Exchange.antt =====
-- api/endpoints/token.py: the exchange of authorization codes.
pub mod Steps
use guillotina_oauth_server.Prelude.{
  String, ◌≡◌, refl, ap, sym, subst, ◌∙◌, Bool, false, ◌||◌, Option, none, some, [], ◌∷◌, arith,
  ◌==◌, Dict, join, inl, inr,
}
use guillotina_oauth_server.Exec.{ok, Result-cases}
use guillotina_oauth_server.Flow.Keys.{token_hash}
use guillotina_oauth_server.Storage.Rows.{Client, Code, Refresh, Database, row_to_refresh}
use guillotina_oauth_server.Storage.Issued.{get_refresh_token-create_refresh_token}
use guillotina_oauth_server.Storage.SingleUse.{consume_code_once, stores_code}
use guillotina_oauth_server.Storage.Operations
use guillotina_oauth_server.Storage.Operations.{call, run, step, perform}
use guillotina_oauth_server.Storage.Answers.{get_active_code_answer}
use guillotina_oauth_server.Storage.Repository.Clients.{get_client}
use guillotina_oauth_server.Storage.Repository.Codes.{get_active_code, consume_code}
use guillotina_oauth_server.Storage.Repository.Tokens.{
  create_refresh_token, refresh_row, revoke_where, get_refresh_token,
  revoke_refresh_tokens_by_auth_code,
}
use guillotina_oauth_server.Utils.Request.Params.{Param}
use guillotina_oauth_server.Api.Response.{Tokens, tokens, Context, State, field}
use guillotina_oauth_server.Api.Token.Endpoint.{
  new_refresh_token, exchange_code, exchange_authorization_code,
}
use guillotina_oauth_server.Api.Token.Exchange.Steps.{
  stored_for, IsExchangeable, resources_of, IssuedFor, exchange_active_code_success,
  consume_and_issue_success,
}

module _ {R : Type 0} (c : Context R) (params : Dict Param) where
  -- Whether a field that the exchange needs is missing.
  abbrev pub lacks_fields : Bool
  lacks_fields =
      field params "client_id" == ""
      || field params "code" == ""
      || field params "redirect_uri" == ""

  pub exchange_authorization_code_answer :
      {hash : String} (state : State R)
      → token_hash c.session.crypto c.session.settings (field params "code") ≡ ok hash
      → lacks_fields ≡ false
      → (found : Option Client) × (active : Option Code) × ((get_client c.session
            (field params "client_id")
            state.database).0
          ≡ ok found)
        × ((get_active_code c.session (field params "code") state.database).0 ≡ ok active)
        × (exchange_authorization_code c params state
            ≡ exchange_code c params hash found active state)
  unfolding exchange_authorization_code get_client get_active_code
  exchange_authorization_code_answer {hash = hash} state e complete =
      let shown = get_active_code_answer c.session (field params "code") state.database e in
      (_, _, refl, ap (λ y. y.0) shown, rw complete (rw e refl))

  -- The fields are there, and the code can be hashed.
  pub exchange_started :
      (state : State R) (t : Tokens)
      → (exchange_authorization_code c params state).0 ≡ ok (tokens t)
      → (lacks_fields ≡ false)
        × (hash : String) × (token_hash c.session.crypto c.session.settings (field params "code")
            ≡ ok hash)
  unfolding exchange_authorization_code get_client
  exchange_started state t h =
      elim (Result-cases (token_hash c.session.crypto c.session.settings (field params "code"))) [
        | inr (_, e) ↦ absurd (ground arith)
        | inl (hash, e) ↦ (ground arith, hash, e)
      ]

  exchange_code_success :
      (hash : String) (found : Option Client) (active : Option Code) (state : State R) (t : Tokens)
      → token_hash c.session.crypto c.session.settings (field params "code") ≡ ok hash
      → (get_active_code c.session (field params "code") state.database).0 ≡ ok active
      → (exchange_code c params hash found active state).0 ≡ ok (tokens t)
      → let db' = (consume_code c.session (field params "code") state.database).1 in
        (client : Client) × (code : Code) × (found ≡ some client)
        × (active ≡ some code)
        × IsExchangeable c params client code
        × (t.refresh_token ≡ new_refresh_token c)
        × (t.scope ≡ join " " code.scope)
        × ((stored_for c.session
              (new_refresh_token c)
              client
              (resources_of c params code)
              code
              db').0
            ≡ ok (new_refresh_token c))
        × ((exchange_code c params hash found active state).1.database
            ≡ (stored_for c.session
                (new_refresh_token c)
                client
                (resources_of c params code)
                code
                db').1)
  unfolding exchange_code
  exchange_code_success hash found none state t e e' h =
      absurd (unfold revoke_refresh_tokens_by_auth_code revoke_where in ground arith)
  exchange_code_success hash found (some code) state t e e' h =
      let (client, is_client, checks, issued) =
        exchange_active_code_success c params found code state t h in
      let shown =
        consume_and_issue_success c params client (resources_of c params code) code state t e e'
          (ap (λ y. y.0) (sym issued) ∙ h) in
      (
        client,
        code,
        is_client,
        refl,
        checks,
        shown.0,
        shown.1,
        shown.2,
        ap (λ y. y.1.database) issued ∙ shown.3,
      )

  -- What the database holds at the end, of which only the codes are older than the new token.
  stored_after :
      (hash : String) (client : Client) (code : Code) (db : Database)
      → token_hash c.session.crypto c.session.settings (field params "code") ≡ ok hash
      → let db' = (consume_code c.session (field params "code") db).1 in
        let outcome =
          stored_for c.session (new_refresh_token c) client (resources_of c params code) code db' in
        outcome.0 ≡ ok (new_refresh_token c)
        → ((get_active_code c.session (field params "code") outcome.1).0 ≡ ok none)
          × (refresh : Refresh) × ((get_refresh_token c.session (new_refresh_token c) outcome.1).0
              ≡ ok (some refresh))
          × IssuedFor c params client code refresh
  stored_after hash client code db e h =
      let db' = (consume_code c.session (field params "code") db).1 in
      let store =
        Operations.create_refresh_token (new_refresh_token c) client.client_id code.user_id
          code.scope (resources_of c params code) (some code.code_hash) none in
      let once =
        consume_code_once c.session (field params "code") (call c.session store ∷ []) c.session.now
          db e (unfold stores_code in (refl, tt)) (omega arith) in
      let (hash', _, read) =
        get_refresh_token-create_refresh_token c.session (new_refresh_token c) client.client_id
          code.user_id code.scope (resources_of c params code) (some code.code_hash) none db' h in
      (
        unfold run in unfold step in unfold perform in once.1,
        _,
        read,
        unfold row_to_refresh in
            unfold refresh_row in
            record {
              client_id = refl;
              user_id = refl;
              scope = refl;
              resource = refl;
              auth_code_hash = refl;
              unrevoked = refl;
            },
      )

  -- What an exchange that issues the tokens `t` found in the database `db`, and leaves in `db'`.
  pub record Exchanged (t : Tokens) (db db' : Database) : Type 0 where
    pub client : Client
    pub code : Code
    pub refresh : Refresh
    pub client_found : (get_client c.session (field params "client_id") db).0 ≡ ok (some client)
    pub code_found : (get_active_code c.session (field params "code") db).0 ≡ ok (some code)
    pub checks : IsExchangeable c params client code
    pub scope : t.scope ≡ join " " code.scope
    pub code_spent : (get_active_code c.session (field params "code") db').0 ≡ ok none
    pub refresh_stored : (get_refresh_token c.session t.refresh_token db').0 ≡ ok (some refresh)
    pub issued_for : IssuedFor c params client code refresh

  -- An exchange that issues tokens has found the client, and the code in force, and both pass every check:
  -- the code belongs to the client and to the redirect URI of the request, the client has the grant
  -- type, the verifier meets the PKCE challenge and the resources that are asked for are among those of the
  -- code. Afterwards the code is no longer active, and the refresh token of the response is
  -- stored for the user, the client, the scope and the resources, unrevoked and linked to the code.
  pub exchange_authorization_code-Exchanged :
      (state : State R) (t : Tokens)
      → (exchange_authorization_code c params state).0 ≡ ok (tokens t)
      → Exchanged t state.database (exchange_authorization_code c params state).1.database
  exchange_authorization_code-Exchanged state t h =
      let (complete, hash, e) = exchange_started state t h in
      let (found, active, e', e'', answer) = exchange_authorization_code_answer state e complete in
      conclude hash found active e e' e'' answer
    where
      conclude :
          (hash : String) (found : Option Client) (active : Option Code)
          → token_hash c.session.crypto c.session.settings (field params "code") ≡ ok hash
          → (get_client c.session (field params "client_id") state.database).0 ≡ ok found
          → (get_active_code c.session (field params "code") state.database).0 ≡ ok active
          → exchange_authorization_code c params state
            ≡ exchange_code c params hash found active state
          → Exchanged t state.database (exchange_authorization_code c params state).1.database
      conclude hash found active e e' e'' answer =
          let (client, code, is_client, is_code, checks, named, scoped, stored, left) =
            exchange_code_success hash found active state t e e''
              (ap (λ y. y.0) (sym answer) ∙ h) in
          let (spent, refresh, read, issued) =
            stored_after hash client code state.database e stored in
          let same = sym (ap (λ y. y.1.database) answer ∙ left) in
          record {
            client = client;
            code = code;
            refresh = refresh;
            client_found = e' ∙ ap ok is_client;
            code_found = e'' ∙ ap ok is_code;
            checks = checks;
            scope = scoped;
            code_spent =
                subst (λ db. (get_active_code c.session (field params "code") db).0 ≡ ok none) same
                  spent;
            refresh_stored =
                subst (λ db. (get_refresh_token c.session t.refresh_token db).0 ≡ ok (some refresh))
                  same (rw named read);
            issued_for = issued;
          }

  -- A request whose code is not found in force
  pub exchange_authorization_code_refused :
      {hash : String} (state : State R)
      → token_hash c.session.crypto c.session.settings (field params "code") ≡ ok hash
      → lacks_fields ≡ false
      → (get_active_code c.session (field params "code") state.database).0 ≡ ok none
      → (found : Option Client) × (exchange_authorization_code c params state
          ≡ exchange_code c params hash found none state)
  exchange_authorization_code_refused {hash = hash} state e complete inactive =
      let (found, active, e', e'', answer) = exchange_authorization_code_answer state e complete in
      let none_active : active ≡ none = ground (arith, inactive, e'') in
      (found, answer ∙ ap (λ a. exchange_code c params hash found a state) none_active)
