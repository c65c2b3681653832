-- ===== src/Storage/Isolation/Calls.antt =====
-- storage/pg/repository.py: what single calls leave of the rows of another container.
use guillotina_oauth_server.Prelude.{
  String, ◌≡◌, ◌≢◌, refl, Bool, true, false, Option, List, [], ◌∷◌, ◌++◌, arith, ◌==◌, eq_iff, inl,
  inr,
}
use guillotina_oauth_server.Exec.{Result-cases}
use guillotina_oauth_server.Flow.Keys.{token_hash}
use guillotina_oauth_server.Sql.{select_rows, insert_row, delete_rows, update_rows}
use guillotina_oauth_server.Sql.Select.{
  select_rows-delete_rows, select_rows-update_rows, select_rows-append, insert_row-cases,
}
use guillotina_oauth_server.Storage.Rows.{
  Client, ClientRow, CodeRow, RefreshRow, ConsentRow, Database, Session,
}
use guillotina_oauth_server.Storage.Operations.{
  perform, create_client, create_consent, delete_consent, create_code, consume_code, delete_code,
  create_refresh_token, revoke_refresh_token, delete_container_data,
}
use guillotina_oauth_server.Storage.Repository.Clients.{client_key, client_row}
use guillotina_oauth_server.Storage.Repository.Clients
use guillotina_oauth_server.Storage.Repository.Codes.{code_key, code_active, code_row, insert_code}
use guillotina_oauth_server.Storage.Repository.Codes
use guillotina_oauth_server.Storage.Repository.Consents.{
  consent_key_is, consent_deletable, consent_row, refresh_consent, upsert_consent,
}
use guillotina_oauth_server.Storage.Repository.Consents
use guillotina_oauth_server.Storage.Repository.Tokens.{
  refresh_key, rotatable, of_user_client, of_auth_code, of_family, revoke_row, replace_row,
  refresh_row, revoke_where, insert_refresh, insert_rotated,
}
use guillotina_oauth_server.Storage.Repository.Tokens
use guillotina_oauth_server.Storage.Repository.Containers

-- The rows of a container, of all four tables.
unfoldable pub rows_of : String → Database → Database
rows_of container db = record {
  clients = select_rows (λ r. r.container_db_key == container) db.clients;
  codes = select_rows (λ r. r.container_db_key == container) db.codes;
  refresh_tokens = select_rows (λ r. r.container_db_key == container) db.refresh_tokens;
  consents = select_rows (λ r. r.container_db_key == container) db.consents;
}

module _ (s : Session) (other : String) (apart : s.container_db_key ≢ other) (db : Database) where
  abbrev pub Unseen : Database → Type 0
  Unseen db' = rows_of other db' ≡ rows_of other db

  pub elsewhere : (key : String) → key == s.container_db_key ≡ true → key == other ≡ false
  elsewhere key h = ground (arith, eq_iff key s.container_db_key, eq_iff key other)

  pub own : s.container_db_key == other ≡ false
  own = ground (arith, eq_iff s.container_db_key other)

  module _ (p : CodeRow → Bool)
      (scoped : (r : CodeRow) → p r ≡ true → r.container_db_key == s.container_db_key ≡ true) where
    codes_deleted : Unseen (record db { codes = delete_rows p db.codes })
    unfolding rows_of
    codes_deleted = ground (
      arith,
      select_rows-delete_rows (λ r. r.container_db_key == other) p
          (λ r h. elsewhere r.container_db_key (scoped r h)) db.codes,
    )

  module _ (p : RefreshRow → Bool) (f : RefreshRow → RefreshRow)
      (scoped : (r : RefreshRow) → p r ≡ true → r.container_db_key == s.container_db_key ≡ true)
      (stays : (r : RefreshRow) → (f r).container_db_key ≡ r.container_db_key) where
    pub tokens_updated : Unseen (record db { refresh_tokens = update_rows p f db.refresh_tokens })
    unfolding rows_of
    tokens_updated = ground (
      arith,
      select_rows-update_rows (λ r. r.container_db_key == other) p f
          (λ r h. ground (arith, stays r, elsewhere r.container_db_key (scoped r h)))
          db.refresh_tokens,
    )

  pub create_client-Unseen : (client : Client) → Unseen (perform s (create_client client) db)
  unfolding perform Clients.create_client insert_row rows_of
  create_client-Unseen client = ground (
    arith,
    own,
    select_rows-append (λ r. r.container_db_key == other) db.clients (client_row s client) own,
  )

  pub insert_code-Unseen :
      (row : CodeRow) → row.container_db_key ≡ s.container_db_key → Unseen (insert_code s row db).1
  unfolding insert_code rows_of
  insert_code-Unseen row e =
      let hidden : row.container_db_key == other ≡ false = rw e own in
      let kept : select_rows (λ r. r.container_db_key == other) (db.codes ++ row ∷ [])
          ≡ select_rows (λ r. r.container_db_key == other) db.codes =
        select_rows-append (λ r. r.container_db_key == other) db.codes row hidden in
      elim (insert_row-cases (code_key row.container_db_key row.code_hash) row db.codes) [
        | inl x ↦ ground arith
        | inr (_, x) ↦ ground (arith, x, kept)
      ]

  pub create_code-Unseen :
      (raw client_id user_id uri : String) (scope resource : List String)
      (challenge : Option String)
      → Unseen (perform s (create_code raw client_id user_id uri scope resource challenge) db)
  unfolding perform Codes.create_code
  create_code-Unseen raw client_id user_id uri scope resource challenge =
      elim (Result-cases (token_hash s.crypto s.settings raw)) [
        | inl (hash, e) ↦ ground (
          arith,
          insert_code-Unseen (code_row s hash client_id user_id uri scope resource challenge)
              (unfold code_row in refl),
        )
        | inr (_, e) ↦ ground arith
      ]

  pub consume_code-Unseen : (code : String) → Unseen (perform s (consume_code code) db)
  unfolding perform Codes.consume_code
  consume_code-Unseen code = elim (Result-cases (token_hash s.crypto s.settings code)) [
    | inl (hash, e) ↦ ground (
      arith,
      codes_deleted (code_active s.container_db_key hash s.now)
          (λ r h. unfold code_active in ground arith),
    )
    | inr (_, e) ↦ ground arith
  ]

  pub delete_code-Unseen : (hash : String) → Unseen (perform s (delete_code hash) db)
  unfolding perform Codes.delete_code
  delete_code-Unseen hash =
      codes_deleted (code_key s.container_db_key hash) (λ r h. unfold code_key in ground arith)

  pub upsert_consent_unseen :
      (key : String) (row : ConsentRow)
      → row.container_db_key ≡ s.container_db_key
      → select_rows
          (λ r. r.container_db_key == other)
          (upsert_consent s.container_db_key key row db.consents)
        ≡ select_rows (λ r. r.container_db_key == other) db.consents
  unfolding upsert_consent
  upsert_consent_unseen key row e = ground (
    arith,
    select_rows-append (λ r. r.container_db_key == other) db.consents row (ground (arith, own)),
    select_rows-update_rows (λ r. r.container_db_key == other)
        (consent_key_is s.container_db_key key) (refresh_consent row)
        (λ r h.
          unfold consent_key_is refresh_consent in ground (arith, elsewhere r.container_db_key))
        db.consents,
  )

  pub create_consent-Unseen :
      (key user_id client_id : String) (scope resource : List String)
      → Unseen (perform s (create_consent key user_id client_id scope resource) db)
  unfolding perform Consents.create_consent rows_of
  create_consent-Unseen key user_id client_id scope resource = ground (
    arith,
    upsert_consent_unseen key (consent_row s key user_id client_id scope resource)
        (unfold consent_row in refl),
  )

  pub delete_consent-Unseen :
      (key : String) (user_id : Option String) → Unseen (perform s (delete_consent key user_id) db)
  unfolding perform Consents.delete_consent rows_of
  delete_consent-Unseen key user_id = ground (
    arith,
    select_rows-delete_rows (λ r. r.container_db_key == other)
        (consent_deletable s.container_db_key key user_id)
        (λ r h. unfold consent_deletable in ground (arith, elsewhere r.container_db_key))
        db.consents,
  )

  pub revoke_where-Unseen :
      (p : RefreshRow → Bool)
      → ((r : RefreshRow) → p r ≡ true → r.container_db_key == s.container_db_key ≡ true)
      → Unseen (revoke_where s p db).1
  unfolding revoke_where
  revoke_where-Unseen p scoped =
      tokens_updated p (revoke_row s.now) scoped (λ r. unfold revoke_row in refl)

  pub insert_refresh-Unseen :
      (row : RefreshRow)
      → row.container_db_key ≡ s.container_db_key
      → Unseen (insert_refresh s row db).1
  unfolding insert_refresh rows_of
  insert_refresh-Unseen row e =
      let hidden : row.container_db_key == other ≡ false = rw e own in
      let kept : select_rows (λ r. r.container_db_key == other) (db.refresh_tokens ++ row ∷ [])
          ≡ select_rows (λ r. r.container_db_key == other) db.refresh_tokens =
        select_rows-append (λ r. r.container_db_key == other) db.refresh_tokens row hidden in
      elim (insert_row-cases (refresh_key row.container_db_key row.token_hash) row
        db.refresh_tokens) [ inl x ↦ ground arith | inr (_, x) ↦ ground (arith, x, kept) ]

  pub create_refresh_token-Unseen :
      (raw client_id user_id : String) (scope resource : List String) (auth rotated : Option String)
      → Unseen
          (perform s (create_refresh_token raw client_id user_id scope resource auth rotated) db)
  unfolding perform Tokens.create_refresh_token
  create_refresh_token-Unseen raw client_id user_id scope resource auth rotated =
      elim (Result-cases (token_hash s.crypto s.settings raw)) [
        | inl (hash, e) ↦ ground (
          arith,
          insert_refresh-Unseen (refresh_row s hash client_id user_id scope resource rotated auth)
              (unfold refresh_row in refl),
        )
        | inr (_, e) ↦ ground arith
      ]

  pub revoke_refresh_token-Unseen :
      (token : String) → Unseen (perform s (revoke_refresh_token token) db)
  unfolding perform Tokens.revoke_refresh_token
  revoke_refresh_token-Unseen token = elim (Result-cases (token_hash s.crypto s.settings token)) [
    | inl (hash, e) ↦ ground (
      arith,
      tokens_updated (refresh_key s.container_db_key hash) (revoke_row s.now)
          (λ r h. unfold refresh_key in ground arith) (λ r. unfold revoke_row in refl),
    )
    | inr (_, e) ↦ ground arith
  ]

  pub delete_container_data-Unseen : Unseen (perform s delete_container_data db)
  unfolding perform Containers.delete_container_data rows_of
  delete_container_data-Unseen = ground (
    arith,
    select_rows-delete_rows (λ (r : ClientRow). r.container_db_key == other)
        (λ r. r.container_db_key == s.container_db_key) (λ r h. elsewhere r.container_db_key h)
        db.clients,
    select_rows-delete_rows (λ (r : CodeRow). r.container_db_key == other)
        (λ r. r.container_db_key == s.container_db_key) (λ r h. elsewhere r.container_db_key h)
        db.codes,
    select_rows-delete_rows (λ (r : RefreshRow). r.container_db_key == other)
        (λ r. r.container_db_key == s.container_db_key) (λ r h. elsewhere r.container_db_key h)
        db.refresh_tokens,
    select_rows-delete_rows (λ (r : ConsentRow). r.container_db_key == other)
        (λ r. r.container_db_key == s.container_db_key) (λ r h. elsewhere r.container_db_key h)
        db.consents,
  )
