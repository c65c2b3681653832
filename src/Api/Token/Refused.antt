-- ===== src/Api/Token/Refused.antt =====
-- api/endpoints/token.py: a code that is not in force.
use guillotina_oauth_server.Prelude.{
  ℕ, ◌<◌, String, ◌≡◌, refl, sym, subst, false, Option, none, List, [], ◌∷◌, arith, eq_iff, Dict,
  All, map_option, ap, ◌∙◌, Bool-cases, inl, inr,
}
use guillotina_oauth_server.Exec.{Result, ok}
use guillotina_oauth_server.Flow.Keys.{token_hash}
use guillotina_oauth_server.Sql.{select_row}
use guillotina_oauth_server.Storage.Rows.{CodeRow, Client, row_to_code}
use guillotina_oauth_server.Storage.Answers.{get_active_code_answer}
use guillotina_oauth_server.Storage.Families.Rows.{
  FromCode, RevokesOnly, revoke_refresh_tokens_by_auth_code-RevokesRows,
}
use guillotina_oauth_server.Storage.Repository.Codes.{code_active, code_key, get_active_code}
use guillotina_oauth_server.Storage.Repository.Tokens.{
  revoke_refresh_tokens_by_auth_code, revoke_where,
}
use guillotina_oauth_server.Utils.Request.Params.{Param}
use guillotina_oauth_server.Api.Response.{Response, bad_request, Context, State, field}
use guillotina_oauth_server.Api.Token.Endpoint.{exchange_code, exchange_authorization_code}
use guillotina_oauth_server.Api.Token.Exchange.{lacks_fields, exchange_authorization_code_refused}

-- A code of the container under a hash, of which the time is not up
abbrev pub InForce : String → String → ℕ → CodeRow → Type 0
InForce container hash now r =
    (r.container_db_key ≡ container) × (r.code_hash ≡ hash) × (now < r.expires_at)

none_active :
    (container hash : String) (now : ℕ) (rows : List CodeRow)
    → All (λ r. ¬ InForce container hash now r) rows
    → select_row (code_active container hash now) rows ≡ none
unfolding select_row
none_active container hash now [] h = refl
none_active container hash now (r ∷ rows) (out, h) =
    elim (Bool-cases (code_active container hash now r)) [
      | inr e ↦ rw e (none_active container hash now rows h)
      | inl e ↦ absurd (
          out (
            unfold code_active in
            unfold code_key in
            (
              (eq_iff r.container_db_key container).0 (ground arith),
              (eq_iff r.code_hash hash).0 (ground arith),
              ground arith,
            )))
    ]

module _ {R : Type 0} (c : Context R) (params : Dict Param) where
  -- An answer of invalid_grant that revokes the unrevoked tokens which were issued from a code, each row in
  -- its place, and changes nothing else.
  pub record RefusesReplay (hash : String) (state : State R) (outcome : Result Response × State R)
      : Type 0 where
    pub refused : outcome.0 ≡ ok (bad_request "invalid_grant")
    pub limiter : outcome.1.limiter ≡ state.limiter
    pub revokes :
        RevokesOnly
          (FromCode c.session.container_db_key hash)
          c.session.now
          state.database.refresh_tokens
          outcome.1.database.refresh_tokens
    pub codes : outcome.1.database.codes ≡ state.database.codes
    pub clients : outcome.1.database.clients ≡ state.database.clients
    pub consents : outcome.1.database.consents ≡ state.database.consents

  exchange_code-RefusesReplay :
      (hash : String) (found : Option Client) (state : State R)
      → RefusesReplay hash state (exchange_code c params hash found none state)
  unfolding exchange_code revoke_refresh_tokens_by_auth_code revoke_where
  exchange_code-RefusesReplay hash found state =
      let rows = revoke_refresh_tokens_by_auth_code-RevokesRows c.session hash state.database in
      record {
        refused = refl;
        limiter = refl;
        revokes = rows.revokes;
        codes = rows.codes;
        clients = rows.clients;
        consents = rows.consents;
      }

  pub inactive-RefusesReplay :
      {hash : String} (state : State R)
      → token_hash c.session.crypto c.session.settings (field params "code") ≡ ok hash
      → lacks_fields c params ≡ false
      → (get_active_code c.session (field params "code") state.database).0 ≡ ok none
      → RefusesReplay hash state (exchange_authorization_code c params state)
  inactive-RefusesReplay {hash = hash} state e complete inactive =
      let (found, answer) =
        exchange_authorization_code_refused c params state e complete inactive in
      subst (RefusesReplay hash state) (sym answer) (exchange_code-RefusesReplay hash found state)

  -- A complete request whose code has no row in the container with the hash of the code and its time not up,
  -- such as a code that was exchanged before, is answered with invalid_grant. Exactly the unrevoked refresh
  -- tokens of the container that are linked to the hash of that code are revoked, at `now`; every other row
  -- of every table and the limiter stay as they are.
  pub exchange_authorization_code-RefusesReplay :
      {hash : String} (state : State R)
      → token_hash c.session.crypto c.session.settings (field params "code") ≡ ok hash
      → lacks_fields c params ≡ false
      → All (λ r. ¬ InForce c.session.container_db_key hash c.session.now r) state.database.codes
      → RefusesReplay hash state (exchange_authorization_code c params state)
  exchange_authorization_code-RefusesReplay {hash = hash} state e complete out =
      inactive-RefusesReplay state e complete (
        ap (λ y. y.0) (get_active_code_answer c.session (field params "code") state.database e)
        ∙ ap (λ r. ok (map_option row_to_code r))
            (none_active c.session.container_db_key hash c.session.now state.database.codes out))
