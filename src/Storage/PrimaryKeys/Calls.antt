-- ===== src/Storage/PrimaryKeys/Calls.antt =====
-- storage/pg/repository.py: the calls keep the primary keys.
use guillotina_oauth_server.Prelude.{
  String, ◌≡◌, refl, Bool, Option, none, some, List, arith, inl, inr, Option-cases,
}
use guillotina_oauth_server.Exec.{Result-cases}
use guillotina_oauth_server.Flow.Keys.{token_hash}
use guillotina_oauth_server.Sql.{select_row, insert_row, delete_rows, update_rows}
use guillotina_oauth_server.Sql.Select.{insert_row-cases}
use guillotina_oauth_server.Sql.Keys.{
  IsUnique, delete_rows-IsUnique, update_rows-IsUnique, insert_row-IsUnique,
}
use guillotina_oauth_server.Storage.Rows.{
  Client, CodeRow, RefreshRow, ConsentRow, Database, Session,
}
use guillotina_oauth_server.Storage.Operations.{
  perform, create_client, create_consent, delete_consent, create_code, consume_code,
  create_refresh_token, rotate_refresh_token, revoke_refresh_token, delete_container_data,
}
use guillotina_oauth_server.Storage.Repository.Clients.{client_key, client_row}
use guillotina_oauth_server.Storage.Repository.Clients
use guillotina_oauth_server.Storage.Repository.Codes.{code_key, code_active, code_row, insert_code}
use guillotina_oauth_server.Storage.Repository.Codes
use guillotina_oauth_server.Storage.Repository.Consents.{
  consent_key_is, consent_deletable, consent_row, refresh_consent, upsert_consent,
}
use guillotina_oauth_server.Storage.Repository.Consents
use guillotina_oauth_server.Storage.Repository.Tokens.{
  refresh_key, rotatable, of_user_client, of_auth_code, of_family, revoke_row, replace_row,
  refresh_row, revoke_where, insert_refresh, insert_rotated,
}
use guillotina_oauth_server.Storage.Repository.Tokens
use guillotina_oauth_server.Storage.Repository.Containers
use guillotina_oauth_server.Storage.PrimaryKeys.Keys.{
  same_client, same_code, same_refresh, same_consent, IsWellFormed, same_client_symm,
  same_code_symm, same_refresh_symm, same_consent_symm,
}

module _ (s : Session) (db : Database) (v : IsWellFormed db) where
  pub create_client_keys : (client : Client) → IsWellFormed (perform s (create_client client) db)
  unfolding perform Clients.create_client
  create_client_keys client =
      elim (insert_row-cases (client_key s.container_db_key client.client_id) (client_row s client)
        db.clients) [
          | inl e ↦ ground arith
          | inr (_, e) ↦ ground (
            arith,
            e,
            insert_row-IsUnique same_client same_client_symm (client_row s client) db.clients
                v.clients e,
          )
        ]

  pub insert_code_keys : (row : CodeRow) → IsWellFormed (insert_code s row db).1
  unfolding insert_code
  insert_code_keys row = elim (insert_row-cases (same_code row) row db.codes) [
    | inl e ↦ ground arith
    | inr (_, e) ↦
        ground (arith, e, insert_row-IsUnique same_code same_code_symm row db.codes v.codes e)
  ]

  pub create_code_keys :
      (raw client_id user_id uri : String) (scope resource : List String)
      (challenge : Option String)
      → IsWellFormed (perform s (create_code raw client_id user_id uri scope resource challenge) db)
  unfolding perform Codes.create_code
  create_code_keys raw client_id user_id uri scope resource challenge =
      elim (Result-cases (token_hash s.crypto s.settings raw)) [
        | inl (hash, e) ↦ ground (
          arith,
          insert_code_keys (code_row s hash client_id user_id uri scope resource challenge),
        )
        | inr (_, e) ↦ ground arith
      ]

  pub codes_deleted :
      (p : CodeRow → Bool) → IsWellFormed (record db { codes = delete_rows p db.codes })
  codes_deleted p = record {
    clients = v.clients;
    codes = delete_rows-IsUnique same_code p db.codes v.codes;
    refresh_tokens = v.refresh_tokens;
    consents = v.consents;
  }

  pub tokens_updated :
      (p : RefreshRow → Bool) (f : RefreshRow → RefreshRow)
      → ((r x : RefreshRow)
          → (same_refresh r (f x) ≡ same_refresh r x) × (same_refresh (f r) x ≡ same_refresh r x))
      → IsWellFormed (record db { refresh_tokens = update_rows p f db.refresh_tokens })
  tokens_updated p f keeps = record {
    clients = v.clients;
    codes = v.codes;
    refresh_tokens = update_rows-IsUnique same_refresh f keeps p db.refresh_tokens v.refresh_tokens;
    consents = v.consents;
  }

  pub revoke_where_keys : (p : RefreshRow → Bool) → IsWellFormed (revoke_where s p db).1
  unfolding revoke_where
  revoke_where_keys p =
      tokens_updated p (revoke_row s.now) (λ r x. unfold refresh_key revoke_row in (refl, refl))

  pub insert_refresh_keys : (row : RefreshRow) → IsWellFormed (insert_refresh s row db).1
  unfolding insert_refresh
  insert_refresh_keys row = elim (insert_row-cases (same_refresh row) row db.refresh_tokens) [
    | inl e ↦ ground arith
    | inr (_, e) ↦ ground (
      arith,
      e,
      insert_row-IsUnique same_refresh same_refresh_symm row db.refresh_tokens v.refresh_tokens e,
    )
  ]

  pub create_refresh_token_keys :
      (raw client_id user_id : String) (scope resource : List String) (auth rotated : Option String)
      → IsWellFormed
          (perform s (create_refresh_token raw client_id user_id scope resource auth rotated) db)
  unfolding perform Tokens.create_refresh_token
  create_refresh_token_keys raw client_id user_id scope resource auth rotated =
      elim (Result-cases (token_hash s.crypto s.settings raw)) [
        | inl (hash, e) ↦ ground (
          arith,
          insert_refresh_keys (refresh_row s hash client_id user_id scope resource rotated auth),
        )
        | inr (_, e) ↦ ground arith
      ]

  pub upsert_consent_keys :
      (row : ConsentRow)
      → IsUnique same_consent (upsert_consent row.container_db_key row.consent_key row db.consents)
  unfolding upsert_consent
  upsert_consent_keys row = elim (Option-cases (select_row (same_consent row) db.consents)) [
    | inr (x, e) ↦ rw e (
        update_rows-IsUnique same_consent (refresh_consent row)
          (λ r y. unfold consent_key_is refresh_consent in (refl, refl)) (same_consent row)
          db.consents v.consents)
    | inl e ↦ rw e (
        insert_row-IsUnique same_consent same_consent_symm row db.consents v.consents
          (unfold insert_row in rw e))
  ]

  pub create_consent_keys :
      (key user_id client_id : String) (scope resource : List String)
      → IsWellFormed (perform s (create_consent key user_id client_id scope resource) db)
  unfolding perform Consents.create_consent
  create_consent_keys key user_id client_id scope resource = record {
    clients = v.clients;
    codes = v.codes;
    refresh_tokens = v.refresh_tokens;
    consents =
        unfold consent_row in
        upsert_consent_keys (consent_row s key user_id client_id scope resource);
  }

  pub delete_consent_keys :
      (key : String) (user_id : Option String)
      → IsWellFormed (perform s (delete_consent key user_id) db)
  unfolding perform Consents.delete_consent
  delete_consent_keys key user_id = record {
    clients = v.clients;
    codes = v.codes;
    refresh_tokens = v.refresh_tokens;
    consents = delete_rows-IsUnique same_consent _ db.consents v.consents;
  }

  pub delete_container_data_keys : IsWellFormed (perform s delete_container_data db)
  unfolding perform Containers.delete_container_data
  delete_container_data_keys = record {
    clients = delete_rows-IsUnique same_client _ db.clients v.clients;
    codes = delete_rows-IsUnique same_code _ db.codes v.codes;
    refresh_tokens = delete_rows-IsUnique same_refresh _ db.refresh_tokens v.refresh_tokens;
    consents = delete_rows-IsUnique same_consent _ db.consents v.consents;
  }

  pub consume_code_keys : (code : String) → IsWellFormed (perform s (consume_code code) db)
  unfolding perform Codes.consume_code
  consume_code_keys code = elim (Result-cases (token_hash s.crypto s.settings code)) [
    | inl (hash, e) ↦ ground (arith, codes_deleted (code_active s.container_db_key hash s.now))
    | inr (_, e) ↦ ground arith
  ]

  pub revoke_refresh_token_keys :
      (token : String) → IsWellFormed (perform s (revoke_refresh_token token) db)
  unfolding perform Tokens.revoke_refresh_token
  revoke_refresh_token_keys token = elim (Result-cases (token_hash s.crypto s.settings token)) [
    | inl (hash, e) ↦ ground (
      arith,
      tokens_updated (refresh_key s.container_db_key hash) (revoke_row s.now)
          (λ r x. unfold refresh_key revoke_row in (refl, refl)),
    )
    | inr (_, e) ↦ ground arith
  ]

pub insert_rotated_keys :
    (s : Session) (old new client_id : String) (scope resource : List String)
    (upd : Option RefreshRow) (db : Database)
    → IsWellFormed db
    → IsWellFormed (insert_rotated s old new client_id scope resource upd db).1
unfolding insert_rotated
insert_rotated_keys s old new client_id scope resource none db v = v
insert_rotated_keys s old new client_id scope resource (some upd) db v = ground (
  arith,
  insert_refresh_keys s db v
      (refresh_row s new client_id upd.user_id scope resource (some old) upd.auth_code_hash),
)

pub rotate_refresh_token_keys :
    (s : Session) (old new client_id : String) (scope resource : List String) (db : Database)
    → IsWellFormed db
    → IsWellFormed (perform s (rotate_refresh_token old new client_id scope resource) db)
unfolding perform Tokens.rotate_refresh_token
rotate_refresh_token_keys s old new client_id scope resource db v =
    elim (Result-cases (token_hash s.crypto s.settings old)) [
      | inr (_, e) ↦ ground arith
      | inl (old_hash, e) ↦ elim (Result-cases (token_hash s.crypto s.settings new)) [
        | inr (_, e') ↦ ground arith
        | inl (new_hash, e') ↦
            let matches : RefreshRow → Bool =
              rotatable s.container_db_key old_hash client_id s.now in
            let updated : Database = record db {
              refresh_tokens = update_rows matches (replace_row s.now new_hash) db.refresh_tokens;
            } in
            ground (
              arith,
              insert_rotated_keys s old_hash new_hash client_id scope resource
                  (select_row matches db.refresh_tokens) updated
                  (tokens_updated s db v matches (replace_row s.now new_hash)
                    (λ r x. unfold refresh_key replace_row in (refl, refl))),
            )
      ]
    ]
