-- ===== src/Storage/PrimaryKeys/Keys.antt =====
-- storage/pg/schema.py: the primary keys of the four tables.
use guillotina_oauth_server.Prelude.{◌≡◌, Bool, arith, eq_iff}
use guillotina_oauth_server.Sql.Keys.{IsUnique}
use guillotina_oauth_server.Storage.Rows.{ClientRow, CodeRow, RefreshRow, ConsentRow, Database}
use guillotina_oauth_server.Storage.Repository.Clients.{client_key}
use guillotina_oauth_server.Storage.Repository.Codes.{code_key}
use guillotina_oauth_server.Storage.Repository.Consents.{consent_key_is}
use guillotina_oauth_server.Storage.Repository.Tokens.{refresh_key}

-- PRIMARY KEY (container_db_key, client_id), and so on
abbrev pub same_client : ClientRow → ClientRow → Bool
same_client r = client_key r.container_db_key r.client_id

abbrev pub same_code : CodeRow → CodeRow → Bool
same_code r = code_key r.container_db_key r.code_hash

abbrev pub same_refresh : RefreshRow → RefreshRow → Bool
same_refresh r = refresh_key r.container_db_key r.token_hash

abbrev pub same_consent : ConsentRow → ConsentRow → Bool
same_consent r = consent_key_is r.container_db_key r.consent_key

pub record IsWellFormed (db : Database) : Type 0 where
  pub clients : IsUnique same_client db.clients
  pub codes : IsUnique same_code db.codes
  pub refresh_tokens : IsUnique same_refresh db.refresh_tokens
  pub consents : IsUnique same_consent db.consents

pub same_client_symm : (r x : ClientRow) → same_client r x ≡ same_client x r
unfolding client_key
same_client_symm r x = ground (
  arith,
  eq_iff r.container_db_key x.container_db_key,
  eq_iff x.container_db_key r.container_db_key,
  eq_iff r.client_id x.client_id,
  eq_iff x.client_id r.client_id,
)

pub same_code_symm : (r x : CodeRow) → same_code r x ≡ same_code x r
unfolding code_key
same_code_symm r x = ground (
  arith,
  eq_iff r.container_db_key x.container_db_key,
  eq_iff x.container_db_key r.container_db_key,
  eq_iff r.code_hash x.code_hash,
  eq_iff x.code_hash r.code_hash,
)

pub same_refresh_symm : (r x : RefreshRow) → same_refresh r x ≡ same_refresh x r
unfolding refresh_key
same_refresh_symm r x = ground (
  arith,
  eq_iff r.container_db_key x.container_db_key,
  eq_iff x.container_db_key r.container_db_key,
  eq_iff r.token_hash x.token_hash,
  eq_iff x.token_hash r.token_hash,
)

pub same_consent_symm : (r x : ConsentRow) → same_consent r x ≡ same_consent x r
unfolding consent_key_is
same_consent_symm r x = ground (
  arith,
  eq_iff r.container_db_key x.container_db_key,
  eq_iff x.container_db_key r.container_db_key,
  eq_iff r.consent_key x.consent_key,
  eq_iff x.consent_key r.consent_key,
)
