-- ===== src/Api/Authorize/Exchange.antt =====
-- api/endpoints/authorize.py and token.py: from the authorization request to the tokens.
use guillotina_oauth_server.Prelude.{
  ℕ, ◌<◌, ◌≡◌, refl, ap, sym, subst, ◌∙◌, String, true, false, none, some, [], arith, ◌==◌, eq_refl,
  Dict, get, member, add_seconds, join,
}
use guillotina_oauth_server.Exec.{Result, ok}
use guillotina_oauth_server.Sql.{select_row}
use guillotina_oauth_server.Sql.Select.{select_row-append, select_row-weaken}
use guillotina_oauth_server.Flow.Pkce.{verify_s256}
use guillotina_oauth_server.Storage.Rows.{Code, Session, row_to_code}
use guillotina_oauth_server.Storage.Answers.{get_active_code_answer}
use guillotina_oauth_server.Storage.Repository.Clients.{get_client}
use guillotina_oauth_server.Storage.Repository.Codes.{
  code_key, code_active, code_row, get_active_code,
}
use guillotina_oauth_server.Utils.Request.Params.{Param, normalize_list}
use guillotina_oauth_server.Api.Response.{
  Response, Tokens, tokens, Context, State, field, optional_field,
}
use guillotina_oauth_server.Api.Token.Endpoint.{challenge_of, exchange_authorization_code}
use guillotina_oauth_server.Api.Token.Exchange.{
  lacks_fields, Exchanged, exchange_authorization_code-Exchanged,
}
use guillotina_oauth_server.Api.Token.Exchange.Steps.{IsExchangeable}
use guillotina_oauth_server.Api.Token.Complete.{IsReady, exchange_authorization_code_succeeds}
use guillotina_oauth_server.Api.Authorize.Request.{Browser}
use guillotina_oauth_server.Api.Authorize.Grant.{Grant, raw_code}
use guillotina_oauth_server.Api.Authorize.Granted.{Issued, issued_row}

module _ {R : Type 0} (c : Context R) (b : Browser) (params : Dict Param) (g : Grant)
    (state : State R) (outcome : Result Response × State R) where
  -- The store at a later time.
  abbrev pub later_session : ℕ → Session
  later_session later = record c.session { now = later }

  -- The code is in force until its time is up.
  Issued-code_active :
      (issued : Issued c b params g state outcome) (later : ℕ)
      → later < add_seconds c.session.now c.session.settings.authorization_code_ttl
      → (get_active_code (later_session later) (raw_code c b params g) outcome.1.database).0
        ≡ ok (some (row_to_code (issued_row c b params g issued.hash)))
  Issued-code_active issued later in_time =
      let container = c.session.container_db_key in
      let active = code_active container issued.hash later in
      let row = issued_row c b params g issued.hash in
      let gone : select_row active state.database.codes ≡ none =
        select_row-weaken active (code_key container issued.hash)
          (λ r h. unfold code_active in ground arith) state.database.codes issued.was_free in
      let own : active row ≡ true =
        unfold code_active in
        unfold code_row in
        unfold code_key in ground (arith, eq_refl container, eq_refl issued.hash) in
      ap (λ r. r.0)
        (get_active_code_answer (later_session later) (raw_code c b params g) outcome.1.database
          issued.hashed)
      ∙ rw issued.stored
          (rw (select_row-append active state.database.codes row) (rw gone (rw own refl)))

  -- The token request of a client that the code was issued to: its own id, the code and the redirect URI, a
  -- verifier that meets the challenge of the authorization request, and no resources of its own.
  pub record FollowsUp (request : Dict Param) : Type 0 where
    pub challenge : String
    pub client_id : field request "client_id" ≡ g.client.client_id
    pub code : field request "code" ≡ raw_code c b params g
    pub redirect_uri : field request "redirect_uri" ≡ g.redirect_uri
    pub complete : lacks_fields c request ≡ false
    pub no_resource : normalize_list (get request "resource") ≡ []
    pub challenged : optional_field params "code_challenge" ≡ some challenge
    pub not_empty : (challenge == "") ≡ false
    pub verifier : verify_s256 c.session.crypto (field request "code_verifier") challenge ≡ true

  row_code : Issued c b params g state outcome → Code
  row_code issued = row_to_code (issued_row c b params g issued.hash)

  -- The token endpoint at a later time, with whatever else a context holds.
  abbrev pub later_context : Context R → ℕ → Context R
  later_context other later = record other { session = later_session later }

  FollowsUp-IsExchangeable :
      (issued : Issued c b params g state outcome) (request : Dict Param) (other : Context R)
      (later : ℕ)
      → FollowsUp request
      → member "authorization_code" g.client.grant_types ≡ true
      → IsExchangeable (later_context other later) request g.client (row_code issued)
  unfolding row_code row_to_code code_row challenge_of
  FollowsUp-IsExchangeable issued request other later f granted = record {
    same_client = refl;
    grant_type = granted;
    redirect_uri = sym f.redirect_uri;
    pkce = rw f.challenged f.verifier;
    resource = rw f.no_resource refl;
  }

  FollowsUp-challenged :
      (issued : Issued c b params g state outcome) (request : Dict Param)
      → FollowsUp request
      → (challenge_of (row_code issued) == "") ≡ false
  unfolding row_code row_to_code code_row challenge_of
  FollowsUp-challenged issued request f = rw f.challenged f.not_empty

  scopes_kept :
      (issued : Issued c b params g state outcome)
      → join " " (row_code issued).scope ≡ join " " g.scopes
  unfolding row_code row_to_code code_row
  scopes_kept issued = refl

  user_kept : (issued : Issued c b params g state outcome) → (row_code issued).user_id ≡ g.user_id
  unfolding row_code row_to_code code_row
  user_kept issued = refl

  -- What the exchange of a code of the grant leaves: tokens with the scopes of the grant, whose refresh
  -- token is the user's.
  pub record Completes (other : Context R) (later : ℕ) (request : Dict Param) (state' : State R)
      : Type 0 where
    pub issued_tokens : Tokens
    pub answered :
        (exchange_authorization_code (later_context other later) request state').0
        ≡ ok (tokens issued_tokens)
    pub scope : issued_tokens.scope ≡ join " " g.scopes
    pub exchanged :
        Exchanged
          (later_context other later)
          request
          issued_tokens
          state'.database
          (exchange_authorization_code (later_context other later) request state').1.database
    pub user : exchanged.refresh.user_id ≡ g.user_id

  -- A code that the authorization endpoint has issued is exchanged for tokens by the client's next token
  -- request, until the time of the code is up: the tokens have the scopes that were granted, and the refresh
  -- token is stored for the user who let the client in.
  pub Issued-Completes :
      (issued : Issued c b params g state outcome) (other : Context R) (later : ℕ)
      (request : Dict Param) (state' : State R)
      → state'.database ≡ outcome.1.database
      → later < add_seconds c.session.now c.session.settings.authorization_code_ttl
      → FollowsUp request
      → (get_client (later_session later) g.client.client_id outcome.1.database).0
        ≡ ok (some g.client)
      → member "authorization_code" g.client.grant_types ≡ true
      → IsReady (later_context other later) outcome.1.database
      → Completes other later request state'
  Issued-Completes issued other later request state' same in_time f registered granted ready =
      let c' = later_context other later in
      let active : (get_active_code c'.session (field request "code") state'.database).0
          ≡ ok (some (row_code issued)) =
        rw same (rw f.code (unfold row_code in Issued-code_active issued later in_time)) in
      let found : (get_client c'.session (field request "client_id") state'.database).0
          ≡ ok (some g.client) =
        rw same (rw f.client_id registered) in
      let (t, answered) =
        exchange_authorization_code_succeeds c' request {hash = issued.hash} g.client
          (row_code issued) state' f.complete (rw f.code issued.hashed) found active
          (FollowsUp-IsExchangeable issued request other later f granted)
          (FollowsUp-challenged issued request f) (subst (IsReady c') (sym same) ready) in
      let e = exchange_authorization_code-Exchanged c' request state' t answered in
      let is_code : e.code ≡ row_code issued = ground (arith, e.code_found, active) in
      record {
        issued_tokens = t;
        answered = answered;
        scope = e.scope ∙ ap (λ code. join " " code.scope) is_code ∙ scopes_kept issued;
        exchanged = e;
        user = e.issued_for.user_id ∙ ap (λ code. code.user_id) is_code ∙ user_kept issued;
      }
