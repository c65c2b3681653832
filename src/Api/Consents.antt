-- ===== src/Api/Consents.antt =====
-- api/endpoints/consents.py: a user's consents, listed and revoked.
use guillotina_oauth_server.Prelude.{
  String, ◌≡◌, ◌≢◌, refl, inl, inr, eq_iff, Bool-cases, Option, none, some, List, [], ◌∷◌, ◌==◌,
  arith, if◌then◌else◌, Dict, get, put, map_option,
}
use guillotina_oauth_server.Exec.{Exec, ok, pure, ◌>>=◌}
use guillotina_oauth_server.Storage.Rows.{Client, Consent, Database}
use guillotina_oauth_server.Sql.{select_rows}
use guillotina_oauth_server.Sql.Select.{select_rows-delete_rows, select_rows-update_rows}
use guillotina_oauth_server.Storage.Families.Rows.{OfUserClient, RevokesOnly}
use guillotina_oauth_server.Storage.Families.Consents.{ConsentOf, DeletesOnly}
use guillotina_oauth_server.Storage.Repository.Clients.{get_client}
use guillotina_oauth_server.Storage.Repository.Consents.{
  list_consents, delete_consent, consent_deletable,
}
use guillotina_oauth_server.Storage.Repository.Tokens.{
  revoke_user_client_refresh_tokens, of_user_client, revoke_row, revoke_where,
}
use guillotina_oauth_server.Utils.Request.Params.{Request, form_content_type_valid}
use guillotina_oauth_server.Api.Response.{
  error, empty, consents, ConsentItem, Context, State, Endpoint, on_database,
  consent_request_singleton_params, field, with_form,
}

-- The item of a consent
consent_item : Consent → Option Client → ConsentItem
consent_item consent client = record {
  consent_key = consent.consent_key;
  client_id = consent.client_id;
  client_name = map_option (λ client. client.client_name) client;
  scope = consent.scope;
  resource = consent.resource;
  granted_at = consent.granted_at;
  expires_at = consent.expires_at;
}

-- {c["consent_key"]: c for c in consents}.get(consent_key): the last one counts.
unfoldable pub find_consent : String → List Consent → Option Consent
find_consent key [] = none
find_consent key (consent ∷ rest) =
    let later = find_consent key rest in
    elim later [
      | some other ↦ some other
      | none ↦ if consent.consent_key == key then some consent else none
    ]

module _ {R : Type 0} (c : Context R) where
  -- The clients that were looked up before are kept in a dict.
  client_from :
      Dict (Option Client) → String → Exec (State R) (Option Client × Dict (Option Client))
  client_from clients client_id = elim (get clients client_id) [
    | some client ↦ pure (client, clients)
    | none ↦ do
      client ← on_database (get_client c.session client_id)
      pure (client, put clients client_id client)
  ]

  unfoldable pub consent_items :
      Dict (Option Client) → List Consent → Exec (State R) (List ConsentItem)
  unfolding client_from consent_item
  consent_items clients [] = pure []
  consent_items clients (consent ∷ rest) = do
    (client, clients') ← client_from clients consent.client_id
    items ← consent_items clients' rest
    pure (consent_item consent client ∷ items)

  list_for : Option String → Endpoint R
  list_for none = pure (error 401 "invalid_token" none)
  list_for (some user_id) = do
    rows ← on_database (list_consents c.session user_id)
    items ← consent_items [] rows
    pure (consents items)

  unfoldable pub list_consents_endpoint : Endpoint R
  unfolding list_for
  list_consents_endpoint = list_for c.authenticated_user

  unfoldable pub revoke_consent_found : String → String → Option Consent → Endpoint R
  revoke_consent_found user_id key none = pure (error 404 "not_found" (some "unknown consent"))
  revoke_consent_found user_id key (some consent) = do
    _ ← on_database (delete_consent c.session key (some user_id))
    _ ← on_database (revoke_user_client_refresh_tokens c.session user_id consent.client_id)
    pure empty

  unfoldable pub revoke_consent : String → String → Endpoint R
  unfolding find_consent revoke_consent_found
  revoke_consent user_id key state =
      if key == ""
      then (ok (error 400 "invalid_request" (some "consent_key is required")), state)
      else (do
        rows ← on_database (list_consents c.session user_id)
        revoke_consent_found user_id key (find_consent key rows))
          state

  revoke_for : Option String → Request → Endpoint R
  unfolding revoke_consent
  revoke_for none request = pure (error 401 "invalid_token" none)
  revoke_for (some user_id) request =
      if form_content_type_valid request
      then with_form request consent_request_singleton_params
          (λ params. revoke_consent user_id (field params "consent_key"))
      else pure (error 400 "invalid_request" (some "invalid content type"))

  unfoldable pub revoke_consent_endpoint : Request → Endpoint R
  unfolding revoke_for
  revoke_consent_endpoint request = revoke_for c.authenticated_user request

-- The rows of another user are the same before and after.
abbrev pub OfOthers {ℓ} : {R : Type 0} {A : Type ℓ} → String → State R → A × State R → Type 0
OfOthers other state outcome =
    (select_rows (λ r. r.user_id == other) outcome.1.database.consents
      ≡ select_rows (λ r. r.user_id == other) state.database.consents)
    × (select_rows (λ r. r.user_id == other) outcome.1.database.refresh_tokens
        ≡ select_rows (λ r. r.user_id == other) state.database.refresh_tokens)

module _ {R : Type 0} (c : Context R) (user_id : String) where
  -- What a revocation that succeeds found in `db` and leaves in `db'`.
  pub record Deauthorized (key : String) (db db' : Database) : Type 0 where
    pub listed : List Consent
    pub consent : Consent
    pub listed_before : (list_consents c.session user_id db).0 ≡ ok listed
    pub found : find_consent key listed ≡ some consent
    pub consent_deleted :
        DeletesOnly (ConsentOf c.session.container_db_key key user_id) db.consents db'.consents
    pub tokens_revoked :
        RevokesOnly
          (OfUserClient c.session.container_db_key user_id consent.client_id)
          c.session.now
          db.refresh_tokens
          db'.refresh_tokens

  revoke_consent_found-other_user :
      (key other : String) (consent : Option Consent) (state : State R)
      → user_id ≢ other
      → OfOthers other state (revoke_consent_found c user_id key consent state)
  unfolding revoke_consent_found delete_consent revoke_user_client_refresh_tokens revoke_where
  revoke_consent_found-other_user key other none state apart = (refl, refl)
  revoke_consent_found-other_user key other (some consent) state apart = (
    select_rows-delete_rows (λ r. r.user_id == other)
        (consent_deletable c.session.container_db_key key (some user_id))
        (λ r h.
          unfold consent_deletable in
          ground (arith, eq_iff r.user_id user_id, eq_iff r.user_id other))
        state.database.consents,
    select_rows-update_rows (λ r. r.user_id == other)
        (of_user_client c.session.container_db_key user_id consent.client_id)
        (revoke_row c.session.now)
        (λ r h.
          unfold of_user_client revoke_row in
          ground (arith, eq_iff r.user_id user_id, eq_iff r.user_id other))
        state.database.refresh_tokens,
  )

  -- Whatever a user asks to revoke, the consents and the refresh tokens of any other user stay as they are.
  pub revoke_consent-other_user :
      (key other : String) (state : State R)
      → user_id ≢ other
      → OfOthers other state (revoke_consent c user_id key state)
  unfolding revoke_consent list_consents
  revoke_consent-other_user key other state apart = elim (Bool-cases (key == "")) [
    | inl e ↦ rw e (refl, refl)
    | inr e ↦ rw e (revoke_consent_found-other_user key other _ state apart)
  ]
