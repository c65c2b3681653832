-- ===== src/Api/Token/Refresh.antt =====
-- api/endpoints/token.py: the refresh of tokens.
mod Steps
use guillotina_oauth_server.Prelude.{
  String, ◌≡◌, refl, ap, sym, subst, ◌∙◌, Bool, true, false, ◌||◌, Option, none, some, List, [],
  ◌∷◌, arith, ◌==◌, eq_iff, Dict, get, join, member, is_subset, inl, inr, Bool-cases, Option-cases,
}
use guillotina_oauth_server.Exec.{Result, ok, Result-cases}
use guillotina_oauth_server.Flow.Keys.{token_hash}
use guillotina_oauth_server.Sql.{select_row}
use guillotina_oauth_server.Sql.Select.{select_row_sound}
use guillotina_oauth_server.Storage.Rows.{Client, Refresh, RefreshRow, Database, row_to_refresh}
use guillotina_oauth_server.Storage.Answers.{get_valid_refresh_answer}
use guillotina_oauth_server.Storage.PrimaryKeys.{IsWellFormed}
use guillotina_oauth_server.Storage.Rotation.{rotate_refresh_token_success}
use guillotina_oauth_server.Storage.Repository.Clients.{get_client}
use guillotina_oauth_server.Storage.Repository.Tokens.{
  refresh_row, refresh_valid, rotatable, rotate_refresh_token, get_valid_refresh, get_refresh_token,
}
use guillotina_oauth_server.Utils.Request.Params.{Param, normalize_list}
use guillotina_oauth_server.Api.Response.{Tokens, tokens, Context, State, field}
use guillotina_oauth_server.Api.Token.Endpoint.{
  or_granted, access_token_for, new_refresh_token, token_response, answer_rotation,
  rotate_and_issue, refresh_with, refresh_tokens,
}
use guillotina_oauth_server.Api.Token.Refresh.Steps.{
  select_row_stricter, scopes_of, resources_of, rotation, IsRefreshable, answer_rotation_success,
  refresh_with_success, rotate_and_issue_success, rotates_the_valid, lacks_fields, refresh_started,
  refresh_tokens_answer, token_hash_ok,
}

module _ {R : Type 0} (c : Context R) (params : Dict Param) where
  -- What a refresh that issues the tokens `t` found in the database `db`, and leaves in `db'`.
  pub record Refreshed (t : Tokens) (db db' : Database) : Type 0 where
    pub client : Client
    pub refresh : Refresh
    pub renewed : Refresh
    pub client_found : (get_client c.session (field params "client_id") db).0 ≡ ok (some client)
    pub refresh_found :
        (get_valid_refresh c.session (field params "refresh_token") db).0 ≡ ok (some refresh)
    pub checks : IsRefreshable c params client refresh
    pub response_scope : t.scope ≡ join " " (scopes_of c params refresh)
    pub old_spent : (get_valid_refresh c.session (field params "refresh_token") db').0 ≡ ok none
    pub new_stored : (get_refresh_token c.session t.refresh_token db').0 ≡ ok (some renewed)
    pub user_id : renewed.user_id ≡ refresh.user_id
    pub client_id : renewed.client_id ≡ client.client_id
    pub scope : renewed.scope ≡ scopes_of c params refresh
    pub resource : renewed.resource ≡ resources_of c params refresh
    pub auth_code_hash : renewed.auth_code_hash ≡ refresh.auth_code_hash
    pub unrevoked : renewed.revoked_at ≡ none

  refresh_with-Refreshed :
      {hash : String} (found : Option Client) (valid : Option Refresh) (state : State R)
      (t : Tokens)
      → IsWellFormed state.database
      → token_hash c.session.crypto c.session.settings (field params "refresh_token") ≡ ok hash
      → (get_client c.session (field params "client_id") state.database).0 ≡ ok found
      → (get_valid_refresh c.session (field params "refresh_token") state.database).0 ≡ ok valid
      → (refresh_with c params found valid state).0 ≡ ok (tokens t)
      → Refreshed t state.database (refresh_with c params found valid state).1.database
  refresh_with-Refreshed found valid state t v e e' e'' h =
      let (client, refresh, is_client, is_refresh, checks, issued) =
        refresh_with_success c params found valid state t h in
      let (rotated, named, scoped, left) =
        rotate_and_issue_success c params client refresh state t (ap (λ y. y.0) (sym issued) ∙ h) in
      let (new_hash, renew) =
        token_hash_ok c params (field params "refresh_token") (new_refresh_token c) e in
      let (row, candidate, dead, stored) =
        rotate_refresh_token_success c.session (field params "refresh_token") (new_refresh_token c)
          client.client_id (scopes_of c params refresh) (resources_of c params refresh)
          state.database e renew v rotated in
      let held =
        rotates_the_valid c params client refresh state.database row e (e'' ∙ ap ok is_refresh)
          checks.same_client candidate in
      let same = sym (ap (λ y. y.1.database) issued ∙ left) in
      record {
        client = client;
        refresh = refresh;
        renewed = _;
        client_found = e' ∙ ap ok is_client;
        refresh_found = e'' ∙ ap ok is_refresh;
        checks = checks;
        response_scope = scoped;
        old_spent =
            subst
              (λ db. (get_valid_refresh c.session (field params "refresh_token") db).0 ≡ ok none)
              same dead;
        new_stored =
            ap
              (λ token.
                (get_refresh_token c.session token
                  (refresh_with c params found valid state).1.database).0)
              named
            ∙ ap (λ db. (get_refresh_token c.session (new_refresh_token c) db).0) (sym same)
            ∙ stored;
        user_id = unfold row_to_refresh refresh_row in ap (λ r. r.user_id) held;
        client_id = unfold row_to_refresh refresh_row in refl;
        scope = unfold row_to_refresh refresh_row in refl;
        resource = unfold row_to_refresh refresh_row in refl;
        auth_code_hash = unfold row_to_refresh refresh_row in ap (λ r. r.auth_code_hash) held;
        unrevoked = unfold row_to_refresh refresh_row in refl;
      }

  -- In a database that keeps its primary keys, a refresh that issues tokens has found the client and the
  -- unexpired, unrevoked token, and both pass every check: the token belongs to the client, the client
  -- has the grant type, and the scopes and resources that are asked for are among those of the token.
  -- Afterwards the old token is no longer valid, and the token of the response is stored in
  -- its place for the same user and authorization code.
  pub refresh_tokens-Refreshed :
      (state : State R) (t : Tokens)
      → IsWellFormed state.database
      → (refresh_tokens c params state).0 ≡ ok (tokens t)
      → Refreshed t state.database (refresh_tokens c params state).1.database
  refresh_tokens-Refreshed state t v h =
      let (complete, hash, e) = refresh_started c params state t h in
      let (found, valid, e', e'', answer) = refresh_tokens_answer c params state e complete in
      conclude hash found valid e e' e'' answer
    where
      conclude :
          (hash : String) (found : Option Client) (valid : Option Refresh)
          → token_hash c.session.crypto c.session.settings (field params "refresh_token") ≡ ok hash
          → (get_client c.session (field params "client_id") state.database).0 ≡ ok found
          → (get_valid_refresh c.session (field params "refresh_token") state.database).0 ≡ ok valid
          → refresh_tokens c params state ≡ refresh_with c params found valid state
          → Refreshed t state.database (refresh_tokens c params state).1.database
      conclude hash found valid e e' e'' answer =
          subst (λ y. Refreshed t state.database y.1.database) (sym answer)
            (refresh_with-Refreshed found valid state t v e e' e'' (ap (λ y. y.0) (sym answer) ∙ h))
