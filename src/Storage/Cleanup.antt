-- ===== src/Storage/Cleanup.antt =====
-- storage/pg/repository.py: the cleanup task and the removal of a container's data.
use guillotina_oauth_server.Prelude.{
  ℕ, ◌+◌, ◌≤◌, String, ◌≡◌, refl, ap, none, arith, ◌==◌, length, is_some, map, inl, inr, map_option,
}
use guillotina_oauth_server.Exec.{ok, Result-cases}
use guillotina_oauth_server.Flow.Keys.{token_hash}
use guillotina_oauth_server.Sql.{select_row, count_rows}
use guillotina_oauth_server.Sql.Select.{
  select_row-delete_limited, select_rows-delete_limited, length-delete_limited,
  select_row-delete_limited-none, select_rows-delete_rows_nil,
}
use guillotina_oauth_server.Storage.Rows.{
  ClientRow, CodeRow, RefreshRow, ConsentRow, Database, Session, empty_database, row_to_code,
  row_to_refresh, row_to_consent,
}
use guillotina_oauth_server.Storage.Answers.{get_active_code_answer, get_valid_refresh_answer}
use guillotina_oauth_server.Storage.Isolation.{rows_of}
use guillotina_oauth_server.Storage.Repository.Codes.{code_active, get_active_code}
use guillotina_oauth_server.Storage.Repository.Tokens.{refresh_valid, get_valid_refresh}
use guillotina_oauth_server.Storage.Repository.Consents.{
  consent_active, consent_of_user, has_consent, list_consents, newest_first,
}
use guillotina_oauth_server.Storage.Repository.Containers.{
  cleanup_expired, code_expired, refresh_expired, consent_expired, delete_container_data,
}

module _ (s : Session) (now batch_size : ℕ) (earlier : now ≤ s.now) (db : Database) where
  abbrev cleaned : Database
  cleaned = (cleanup_expired now batch_size db).1

  codes_hidden :
      (hash : String)
      → select_row (code_active s.container_db_key hash s.now) cleaned.codes
        ≡ select_row (code_active s.container_db_key hash s.now) db.codes
  unfolding cleanup_expired
  codes_hidden hash =
      select_row-delete_limited (code_active s.container_db_key hash s.now) batch_size
        (code_expired now) (λ r h. unfold code_expired code_active in ground arith) db.codes

  tokens_hidden :
      (hash : String)
      → select_row (refresh_valid s.container_db_key hash s.now) cleaned.refresh_tokens
        ≡ select_row (refresh_valid s.container_db_key hash s.now) db.refresh_tokens
  unfolding cleanup_expired
  tokens_hidden hash =
      select_row-delete_limited (refresh_valid s.container_db_key hash s.now) batch_size
        (refresh_expired now) (λ r h. unfold refresh_expired refresh_valid in ground arith)
        db.refresh_tokens

  same_code : (code : String) → (get_active_code s code cleaned).0 ≡ (get_active_code s code db).0
  same_code code = elim (Result-cases (token_hash s.crypto s.settings code)) [
    | inl (hash, e) ↦
        rw (get_active_code_answer s code cleaned e, get_active_code_answer s code db e)
          (ap (λ r. ok (map_option row_to_code r)) (codes_hidden hash))
    | inr (_, e) ↦ unfold get_active_code in ground arith
  ]

  same_token :
      (token : String) → (get_valid_refresh s token cleaned).0 ≡ (get_valid_refresh s token db).0
  same_token token = elim (Result-cases (token_hash s.crypto s.settings token)) [
    | inl (hash, e) ↦
        rw (get_valid_refresh_answer s token cleaned e, get_valid_refresh_answer s token db e)
          (ap (λ r. ok (map_option row_to_refresh r)) (tokens_hidden hash))
    | inr (_, e) ↦ unfold get_valid_refresh in ground arith
  ]

  same_consent : (key : String) → (has_consent s key cleaned).0 ≡ (has_consent s key db).0
  unfolding cleanup_expired has_consent
  same_consent key =
      ap (λ r. ok (is_some r))
        (select_row-delete_limited (consent_active s.container_db_key key s.now) batch_size
          (consent_expired now) (λ r h. unfold consent_expired consent_active in ground arith)
          db.consents)

  same_list :
      (user_id : String) → (list_consents s user_id cleaned).0 ≡ (list_consents s user_id db).0
  unfolding cleanup_expired list_consents
  same_list user_id =
      ap (λ rows. ok (map row_to_consent (newest_first rows)))
        (select_rows-delete_limited (consent_of_user s.container_db_key user_id s.now) batch_size
          (consent_expired now) (λ r h. unfold consent_expired consent_of_user in ground arith)
          db.consents)

  -- A run of the cleanup is invisible from then on: no answer about an active code, a valid refresh
  -- token, a remembered consent or a user's list of consents, by any container's store at the time of
  -- the run or later, depends on whether the run took place.
  pub cleanup_expired_invisible :
      (code token consent_key user_id : String)
      → ((get_active_code s code cleaned).0 ≡ (get_active_code s code db).0)
        × ((get_valid_refresh s token cleaned).0 ≡ (get_valid_refresh s token db).0)
        × ((has_consent s consent_key cleaned).0 ≡ (has_consent s consent_key db).0)
        × ((list_consents s user_id cleaned).0 ≡ (list_consents s user_id db).0)
  cleanup_expired_invisible code token consent_key user_id =
      (same_code code, same_token token, same_consent consent_key, same_list user_id)

-- A run removes at most `batch_size` rows of each table, and no client.
pub cleanup_expired_bounds :
    (now batch_size : ℕ) (db : Database)
    → let db' = (cleanup_expired now batch_size db).1 in
      (length db.codes ≤ length db'.codes + batch_size)
      × (length db.refresh_tokens ≤ length db'.refresh_tokens + batch_size)
      × (length db.consents ≤ length db'.consents + batch_size)
      × (db'.clients ≡ db.clients)
unfolding cleanup_expired
cleanup_expired_bounds now batch_size db = (
  length-delete_limited (code_expired now) batch_size db.codes,
  length-delete_limited (refresh_expired now) batch_size db.refresh_tokens,
  length-delete_limited (consent_expired now) batch_size db.consents,
  refl,
)

-- Where at most `batch_size` rows of each table have expired, a run leaves no expired row.
pub cleanup_expired_complete :
    (now batch_size : ℕ) (db : Database)
    → count_rows (code_expired now) db.codes ≤ batch_size
    → count_rows (refresh_expired now) db.refresh_tokens ≤ batch_size
    → count_rows (consent_expired now) db.consents ≤ batch_size
    → let db' = (cleanup_expired now batch_size db).1 in
      (select_row (code_expired now) db'.codes ≡ none)
      × (select_row (refresh_expired now) db'.refresh_tokens ≡ none)
      × (select_row (consent_expired now) db'.consents ≡ none)
unfolding cleanup_expired
cleanup_expired_complete now batch_size db few_codes few_tokens few_consents = (
  select_row-delete_limited-none (code_expired now) batch_size db.codes few_codes,
  select_row-delete_limited-none (refresh_expired now) batch_size db.refresh_tokens few_tokens,
  select_row-delete_limited-none (consent_expired now) batch_size db.consents few_consents,
)

-- Uninstalling the addon leaves no row of the container in any of the four tables.
pub delete_container_data_clears :
    (s : Session) (db : Database)
    → rows_of s.container_db_key (delete_container_data s db).1 ≡ empty_database
unfolding rows_of delete_container_data
delete_container_data_clears s db = ground (
  arith,
  select_rows-delete_rows_nil (λ (r : ClientRow). r.container_db_key == s.container_db_key)
      (λ r. r.container_db_key == s.container_db_key) (λ r h. h) db.clients,
  select_rows-delete_rows_nil (λ (r : CodeRow). r.container_db_key == s.container_db_key)
      (λ r. r.container_db_key == s.container_db_key) (λ r h. h) db.codes,
  select_rows-delete_rows_nil (λ (r : RefreshRow). r.container_db_key == s.container_db_key)
      (λ r. r.container_db_key == s.container_db_key) (λ r h. h) db.refresh_tokens,
  select_rows-delete_rows_nil (λ (r : ConsentRow). r.container_db_key == s.container_db_key)
      (λ r. r.container_db_key == s.container_db_key) (λ r h. h) db.consents,
)
