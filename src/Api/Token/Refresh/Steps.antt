-- ===== src/Api/Token/Refresh/Steps.antt =====
-- api/endpoints/token.py: the steps of the refresh.
use guillotina_oauth_server.Prelude.{
  String, ◌≡◌, refl, ap, sym, ◌∙◌, Bool, true, false, ◌||◌, Option, none, some, List, [], ◌∷◌,
  arith, ◌==◌, eq_iff, Dict, get, join, member, is_subset, inl, inr, Bool-cases, Option-cases,
}
use guillotina_oauth_server.Exec.{Result, ok, Result-cases}
use guillotina_oauth_server.Flow.Keys.{token_hash}
use guillotina_oauth_server.Sql.{select_row}
use guillotina_oauth_server.Sql.Select.{select_row_sound}
use guillotina_oauth_server.Storage.Rows.{Client, Refresh, RefreshRow, Database, row_to_refresh}
use guillotina_oauth_server.Storage.Answers.{get_valid_refresh_answer}
use guillotina_oauth_server.Storage.Repository.Clients.{get_client}
use guillotina_oauth_server.Storage.Repository.Tokens.{
  refresh_valid, rotatable, rotate_refresh_token, get_valid_refresh,
}
use guillotina_oauth_server.Utils.Request.Params.{Param, normalize_list}
use guillotina_oauth_server.Api.Response.{Tokens, tokens, Context, State, field}
use guillotina_oauth_server.Api.Token.Endpoint.{
  or_granted, access_token_for, new_refresh_token, token_response, answer_rotation,
  rotate_and_issue, refresh_with, refresh_tokens,
}

-- The first row that a test takes is the first that a stricter test takes, if it takes it.
pub select_row_stricter :
    (p q : RefreshRow → Bool) (rows : List RefreshRow) (row : RefreshRow)
    → ((r : RefreshRow) → p r ≡ true → q r ≡ true)
    → select_row q rows ≡ some row
    → p row ≡ true
    → select_row p rows ≡ some row
unfolding select_row
select_row_stricter p q [] row implies found taken = absurd (ground arith)
select_row_stricter p q (r ∷ rows) row implies found taken = elim (Bool-cases (q r)) [
  | inl e ↦ ground arith
  | inr e ↦ ground (arith, implies r, select_row_stricter p q rows row implies)
]

module _ {R : Type 0} (c : Context R) (params : Dict Param) where
  abbrev pub scopes_of : Refresh → List String
  scopes_of refresh = or_granted (normalize_list (get params "scope")) refresh.scope

  abbrev pub resources_of : Refresh → List String
  resources_of refresh = or_granted (normalize_list (get params "resource")) refresh.resource

  abbrev pub rotation : Client → Refresh → Database → Result Bool × Database
  rotation client refresh db =
      rotate_refresh_token c.session (field params "refresh_token") (new_refresh_token c)
        client.client_id (scopes_of refresh) (resources_of refresh) db

  -- What a refresh checks of a client and its valid token.
  pub record IsRefreshable (client : Client) (refresh : Refresh) : Type 0 where
    pub same_client : refresh.client_id ≡ client.client_id
    pub grant_type : member "refresh_token" client.grant_types ≡ true
    pub scope : is_subset (scopes_of refresh) refresh.scope ≡ true
    pub resource : is_subset (resources_of refresh) refresh.resource ≡ true

  pub answer_rotation_success :
      (client : Client) (refresh : Refresh) (scopes resources : List String) (rotated : Bool)
      (state : State R) (t : Tokens)
      → (answer_rotation c client refresh scopes resources rotated state).0 ≡ ok (tokens t)
      → (rotated ≡ true)
        × (t.refresh_token ≡ new_refresh_token c)
        × (t.scope ≡ join " " scopes)
        × ((answer_rotation c client refresh scopes resources rotated state).1.database
            ≡ state.database)
  unfolding answer_rotation token_response access_token_for
  answer_rotation_success client refresh scopes resources rotated state t h =
      (ground arith, ground arith, ground arith, ground arith)

  pub refresh_with_success :
      (found : Option Client) (valid : Option Refresh) (state : State R) (t : Tokens)
      → (refresh_with c params found valid state).0 ≡ ok (tokens t)
      → (client : Client) × (refresh : Refresh) × (found ≡ some client)
        × (valid ≡ some refresh)
        × IsRefreshable client refresh
        × (refresh_with c params found valid state
            ≡ rotate_and_issue c params client refresh
                (scopes_of refresh)
                (resources_of refresh)
                state)
  unfolding refresh_with
  refresh_with_success found none state t h = absurd (ground arith)
  refresh_with_success none (some refresh) state t h = absurd (ground arith)
  refresh_with_success (some client) (some refresh) state t h = (
    client,
    refresh,
    refl,
    refl,
    record {
      same_client = (eq_iff refresh.client_id client.client_id).0 (ground arith);
      grant_type = ground arith;
      scope = ground arith;
      resource = ground arith;
    },
    ground arith,
  )

  pub rotate_and_issue_success :
      (client : Client) (refresh : Refresh) (state : State R) (t : Tokens)
      → (rotate_and_issue c params client refresh
          (scopes_of refresh)
          (resources_of refresh)
          state).0
        ≡ ok (tokens t)
      → ((rotation client refresh state.database).0 ≡ ok true)
        × (t.refresh_token ≡ new_refresh_token c)
        × (t.scope ≡ join " " (scopes_of refresh))
        × ((rotate_and_issue c params client refresh
              (scopes_of refresh)
              (resources_of refresh)
              state).1.database
            ≡ (rotation client refresh state.database).1)
  unfolding rotate_and_issue
  rotate_and_issue_success client refresh state t h =
      elim (Result-cases (rotation client refresh state.database).0) [
        | inr (_, e) ↦ absurd (ground arith)
        | inl (rotated, e) ↦
            let state' : State R = record state {
              database = (rotation client refresh state.database).1;
            } in
            let shown =
              answer_rotation_success client refresh (scopes_of refresh) (resources_of refresh)
                rotated state' t in
            ground (arith, shown)
      ]

  -- The token that the client holds is the one that the rotation takes.
  pub rotates_the_valid :
      {hash : String} (client : Client) (refresh : Refresh) (db : Database) (row : RefreshRow)
      → token_hash c.session.crypto c.session.settings (field params "refresh_token") ≡ ok hash
      → (get_valid_refresh c.session (field params "refresh_token") db).0 ≡ ok (some refresh)
      → refresh.client_id ≡ client.client_id
      → select_row
          (rotatable c.session.container_db_key hash client.client_id c.session.now)
          db.refresh_tokens
        ≡ some row
      → row_to_refresh row ≡ refresh
  rotates_the_valid {hash = hash} client refresh db row e valid same found =
      let valid' =
        ap (λ y. y.0) (sym (get_valid_refresh_answer c.session (field params "refresh_token") db e))
        ∙ valid in
      elim (Option-cases (
        select_row (refresh_valid c.session.container_db_key hash c.session.now)
          db.refresh_tokens)) [
            | inl x ↦ absurd (ground arith)
            | inr (first, x) ↦
                let is_refresh : row_to_refresh first ≡ refresh = ground arith in
                let owned : first.client_id ≡ client.client_id =
                  (unfold row_to_refresh in ap (λ r. r.client_id) is_refresh ∙ same) in
                let own =
                  select_row_sound (refresh_valid c.session.container_db_key hash c.session.now)
                    db.refresh_tokens x in
                let taken : rotatable c.session.container_db_key hash client.client_id c.session.now
                      first
                    ≡ true =
                  (unfold rotatable in ground (arith, eq_iff first.client_id client.client_id)) in
                let first_found =
                  select_row_stricter
                    (rotatable c.session.container_db_key hash client.client_id c.session.now)
                    (refresh_valid c.session.container_db_key hash c.session.now) db.refresh_tokens
                    first (λ r h. unfold rotatable in ground arith) x taken in
                let alike : row ≡ first = ground arith in ap row_to_refresh alike ∙ is_refresh
          ]

  -- Whether a field that the refresh needs is missing.
  abbrev pub lacks_fields : Bool
  lacks_fields = field params "client_id" == "" || field params "refresh_token" == ""

  pub refresh_started :
      (state : State R) (t : Tokens)
      → (refresh_tokens c params state).0 ≡ ok (tokens t)
      → (lacks_fields ≡ false)
        × (hash : String) × (token_hash c.session.crypto c.session.settings
              (field params "refresh_token")
            ≡ ok hash)
  unfolding refresh_tokens get_client get_valid_refresh
  refresh_started state t h =
      elim (Result-cases
        (token_hash c.session.crypto c.session.settings (field params "refresh_token"))) [
          | inr (_, e) ↦ absurd (ground arith)
          | inl (hash, e) ↦ (ground arith, hash, e)
        ]

  pub refresh_tokens_answer :
      {hash : String} (state : State R)
      → token_hash c.session.crypto c.session.settings (field params "refresh_token") ≡ ok hash
      → lacks_fields ≡ false
      → (found : Option Client) × (valid : Option Refresh) × ((get_client c.session
            (field params "client_id")
            state.database).0
          ≡ ok found)
        × ((get_valid_refresh c.session (field params "refresh_token") state.database).0 ≡ ok valid)
        × (refresh_tokens c params state ≡ refresh_with c params found valid state)
  unfolding refresh_tokens get_client get_valid_refresh
  refresh_tokens_answer {hash = hash} state e complete =
      let shown =
        get_valid_refresh_answer c.session (field params "refresh_token") state.database e in
      (_, _, refl, ap (λ y. y.0) shown, rw complete (rw e refl))

  -- A key that hashes one token hashes another.
  pub token_hash_ok :
      {hash : String} (token other : String)
      → token_hash c.session.crypto c.session.settings token ≡ ok hash
      → (hash' : String) × (token_hash c.session.crypto c.session.settings other ≡ ok hash')
  unfolding token_hash
  token_hash_ok token other e =
      elim (Result-cases (token_hash c.session.crypto c.session.settings other)) [
        | inl found ↦ found
        | inr (_, e') ↦ absurd (ground arith)
      ]
