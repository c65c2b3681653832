-- ===== src/Api/Token/Replay.antt =====
-- api/endpoints/token.py: a code that is exchanged twice.
use guillotina_oauth_server.Prelude.{
  ℕ, ◌≤◌, String, ◌≡◌, ap, sym, subst, ◌∙◌, false, none, some, List, arith, eq_iff, Dict, All, inl,
  inr, Option-cases,
}
use guillotina_oauth_server.Exec.{Result, ok}
use guillotina_oauth_server.Flow.Keys.{token_hash}
use guillotina_oauth_server.Sql.{select_row}
use guillotina_oauth_server.Sql.Select.{select_row_sound}
use guillotina_oauth_server.Storage.Rows.{Refresh, Code, Database, Session, row_to_code}
use guillotina_oauth_server.Storage.Answers.{get_active_code_answer}
use guillotina_oauth_server.Storage.Families.Rows.{FromCode, RevokesOnly-none_left}
use guillotina_oauth_server.Storage.Operations.{Event, run}
use guillotina_oauth_server.Storage.SingleUse.{stores_code, get_active_code_stays_none}
use guillotina_oauth_server.Storage.Repository.Codes.{get_active_code, code_active, code_key}
use guillotina_oauth_server.Storage.Repository.Tokens.{get_refresh_token}
use guillotina_oauth_server.Utils.Request.Params.{Param}
use guillotina_oauth_server.Api.Response.{
  Response, Tokens, tokens, bad_request, Context, State, field,
}
use guillotina_oauth_server.Api.Token.Endpoint.{exchange_authorization_code}
use guillotina_oauth_server.Api.Token.Exchange.{
  exchange_started, exchange_authorization_code-Exchanged,
}
use guillotina_oauth_server.Api.Token.Refused.{inactive-RefusesReplay}

module _ (s : Session) where
  -- An active code is found under its own hash.
  active_code_hash :
      {hash : String} (code : String) (db : Database) (found : Code)
      → token_hash s.crypto s.settings code ≡ ok hash
      → (get_active_code s code db).0 ≡ ok (some found)
      → found.code_hash ≡ hash
  unfolding row_to_code
  active_code_hash {hash} code db found e h =
      let shown = ap (λ y. y.0) (sym (get_active_code_answer s code db e)) ∙ h in
      elim (Option-cases (select_row (code_active s.container_db_key hash s.now) db.codes)) [
        | inl x ↦ absurd (ground arith)
        | inr (row, x) ↦
            let own = select_row_sound (code_active s.container_db_key hash s.now) db.codes x in
            let named : row.code_hash ≡ hash =
              (unfold code_active code_key in (eq_iff row.code_hash hash).0 (ground arith)) in
            ground (arith, shown, named)
      ]

module _ {R : Type 0} (c : Context R) (params : Dict Param) where
  -- The token endpoint of the same container at a later time, with whatever else a context holds.
  abbrev pub at_later : Context R → ℕ → Context R
  at_later other later = record other { session = record c.session { now = later } }

  -- What comes about when the code of `params`, with the hash `hash`, is sent again: after `first`, the
  -- outcome of an exchange that issued the tokens `t`, comes `second`.
  pub record RevokedByReplay (hash : String) (t : Tokens) (first second : Result Response × State R)
      : Type 0 where
    pub refresh : Refresh
    pub stored :
        (get_refresh_token c.session t.refresh_token first.1.database).0 ≡ ok (some refresh)
    pub linked : refresh.auth_code_hash ≡ some hash
    pub refused : second.0 ≡ ok (bad_request "invalid_grant")
    pub none_left :
        All (λ r. ¬ FromCode c.session.container_db_key hash r) second.1.database.refresh_tokens

  -- After a request was answered with tokens, it is sent again, at any later time, with any clocks and random
  -- texts, and after any calls and cleanup runs by any containers of which none stores the code again. It is
  -- refused with invalid_grant, and it leaves no unrevoked refresh token in the container that is linked to the
  -- code, as the one is that was issued for it.
  pub exchange_authorization_code-RevokedByReplay :
      (state state' : State R) (t : Tokens) (hash : String) (events : List Event)
      (other : Context R) (later : ℕ)
      → (exchange_authorization_code c params state).0 ≡ ok (tokens t)
      → token_hash c.session.crypto c.session.settings (field params "code") ≡ ok hash
      → All (λ event. stores_code c.session.container_db_key hash event ≡ false) events
      → c.session.now ≤ later
      → state'.database ≡ run events (exchange_authorization_code c params state).1.database
      → RevokedByReplay hash t
          (exchange_authorization_code c params state)
          (exchange_authorization_code (at_later other later) params state')
  exchange_authorization_code-RevokedByReplay state state' t hash events other later h hashed others
        in_order after =
      let first = exchange_authorization_code-Exchanged c params state t h in
      let (complete, _, _) = exchange_started c params state t h in
      let inactive =
        get_active_code_stays_none c.session (field params "code") events later
          (exchange_authorization_code c params state).1.database hashed others in_order
          first.code_spent in
      let refused = inactive-RefusesReplay (at_later other later) params state' hashed complete (
        subst
          (λ db.
            (get_active_code (record c.session { now = later }) (field params "code") db).0
            ≡ ok none)
          (sym after) inactive) in
      record {
        refresh = first.refresh;
        stored = first.refresh_stored;
        linked =
            first.issued_for.auth_code_hash
            ∙ ap some (
                active_code_hash c.session (field params "code") state.database first.code hashed
                  first.code_found);
        refused = refused.refused;
        none_left =
            RevokesOnly-none_left (FromCode c.session.container_db_key hash) later _ _
              (λ r is_in. is_in.2) refused.revokes;
      }
