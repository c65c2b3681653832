-- ===== src/Storage/Rows.antt =====
-- The four tables of storage/pg/schema.py, and the dicts that the store's readers return.
use guillotina_oauth_server.Prelude.{ℕ, String, Option, some, List, []}
use guillotina_oauth_server.Config.{Settings, Crypto}

-- oauth_clients. The jsonb columns hold lists of texts.
pub record ClientRow : Type 0 where
  pub container_db_key : String
  pub client_id : String
  pub client_name : String
  pub redirect_uris : List String
  pub grant_types : List String
  pub response_types : List String
  pub scope : String
  pub created_at : ℕ
  pub updated_at : ℕ

-- oauth_authorization_codes
pub record CodeRow : Type 0 where
  pub container_db_key : String
  pub code_hash : String
  pub client_id : String
  pub user_id : String
  pub redirect_uri : String
  pub scope : List String
  pub resource : List String
  pub code_challenge : Option String
  pub expires_at : ℕ
  pub created_at : ℕ

-- oauth_refresh_tokens
pub record RefreshRow : Type 0 where
  pub container_db_key : String
  pub token_hash : String
  pub client_id : String
  pub user_id : String
  pub scope : List String
  pub resource : List String
  pub expires_at : ℕ
  pub rotated_from : Option String
  pub auth_code_hash : Option String
  pub revoked_at : Option ℕ
  pub replaced_by : Option String
  pub created_at : ℕ
  pub last_used_at : Option ℕ

-- oauth_consents. No `expires_at` means that the consent does not expire.
pub record ConsentRow : Type 0 where
  pub container_db_key : String
  pub consent_key : String
  pub user_id : String
  pub client_id : String
  pub scope : List String
  pub resource : List String
  pub granted_at : ℕ
  pub expires_at : Option ℕ

pub record Database : Type 0 where
  pub clients : List ClientRow
  pub codes : List CodeRow
  pub refresh_tokens : List RefreshRow
  pub consents : List ConsentRow

abbrev pub empty_database : Database
empty_database = record { clients = []; codes = []; refresh_tokens = []; consents = [] }

-- The dict of `_row_to_client`
pub record Client : Type 0 where
  pub client_id : String
  pub client_name : String
  pub redirect_uris : List String
  pub grant_types : List String
  pub response_types : List String
  pub token_endpoint_auth_method : String
  pub scope : String
  pub created_at : ℕ
  pub updated_at : ℕ

-- The dict of `_row_to_code`. `create_code` answers with no dates.
pub record Code : Type 0 where
  pub code_hash : String
  pub client_id : String
  pub user_id : String
  pub redirect_uri : String
  pub scope : List String
  pub resource : List String
  pub code_challenge : Option String
  pub code_challenge_method : String
  pub expires_at : Option ℕ
  pub created_at : Option ℕ

-- The dict of `_row_to_refresh`
pub record Refresh : Type 0 where
  pub token_hash : String
  pub client_id : String
  pub user_id : String
  pub scope : List String
  pub resource : List String
  pub expires_at : ℕ
  pub rotated_from : Option String
  pub auth_code_hash : Option String
  pub created_at : ℕ
  pub last_used_at : Option ℕ
  pub revoked_at : Option ℕ
  pub replaced_by : Option String

-- The dict of `_row_to_consent`
pub record Consent : Type 0 where
  pub consent_key : String
  pub user_id : String
  pub client_id : String
  pub scope : List String
  pub resource : List String
  pub granted_at : ℕ
  pub expires_at : Option ℕ

unfoldable pub row_to_client : ClientRow → Client
row_to_client row = record {
  client_id = row.client_id;
  client_name = row.client_name;
  redirect_uris = row.redirect_uris;
  grant_types = row.grant_types;
  response_types = row.response_types;
  token_endpoint_auth_method = "none";
  scope = row.scope;
  created_at = row.created_at;
  updated_at = row.updated_at;
}

unfoldable pub row_to_code : CodeRow → Code
row_to_code row = record {
  code_hash = row.code_hash;
  client_id = row.client_id;
  user_id = row.user_id;
  redirect_uri = row.redirect_uri;
  scope = row.scope;
  resource = row.resource;
  code_challenge = row.code_challenge;
  code_challenge_method = "S256";
  expires_at = some row.expires_at;
  created_at = some row.created_at;
}

unfoldable pub row_to_refresh : RefreshRow → Refresh
row_to_refresh row = record {
  token_hash = row.token_hash;
  client_id = row.client_id;
  user_id = row.user_id;
  scope = row.scope;
  resource = row.resource;
  expires_at = row.expires_at;
  rotated_from = row.rotated_from;
  auth_code_hash = row.auth_code_hash;
  created_at = row.created_at;
  last_used_at = row.last_used_at;
  revoked_at = row.revoked_at;
  replaced_by = row.replaced_by;
}

unfoldable pub row_to_consent : ConsentRow → Consent
row_to_consent row = record {
  consent_key = row.consent_key;
  user_id = row.user_id;
  client_id = row.client_id;
  scope = row.scope;
  resource = row.resource;
  granted_at = row.granted_at;
  expires_at = row.expires_at;
}

-- A store of one container during one transaction: `container_db_key` of `PostgresOAuthStore`, the
-- transaction's `now()`, and what the methods read from the application.
pub record Session : Type 0 where
  pub container_db_key : String
  pub now : ℕ
  pub settings : Settings
  pub crypto : Crypto
