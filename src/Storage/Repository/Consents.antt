-- ===== src/Storage/Repository/Consents.antt =====
-- storage/pg/repository.py: remembered consents.
use guillotina_oauth_server.Prelude.{
  ℕ, zero, suc, String, Bool, true, ◌&&◌, Option, none, some, List, [], ◌∷◌, ◌++◌, map, ◌==◌, leb,
  ltb, if◌then◌else◌, is_some, ℤ, pos, negsuc, add_seconds,
}
use guillotina_oauth_server.Exec.{Exec, ◌>>=◌, ◌>>◌, pure, gets, modify}
use guillotina_oauth_server.Sql.{select_row, select_rows, update_rows, delete_rows, count_rows}
use guillotina_oauth_server.Storage.Rows.{ConsentRow, Consent, Database, Session, row_to_consent}

-- expires_at IS NULL OR expires_at > now()
unfoldable pub not_expired : Option ℕ → ℕ → Bool
not_expired none now = true
not_expired (some expires_at) now = ltb now expires_at

-- WHERE container_db_key = $1 AND consent_key = $2
unfoldable pub consent_key_is : String → String → ConsentRow → Bool
consent_key_is container key row = row.container_db_key == container && row.consent_key == key

unfoldable pub consent_active : String → String → ℕ → ConsentRow → Bool
unfolding consent_key_is not_expired
consent_active container key now row =
    consent_key_is container key row && not_expired row.expires_at now

unfoldable pub has_consent : Session → String → Exec Database Bool
has_consent s key = do
  row ← gets (λ db. select_row (consent_active s.container_db_key key s.now) db.consents)
  pure (is_some row)

-- CASE WHEN $7 = 0 THEN NULL ELSE now() + $7 * interval '1 second' END
unfoldable pub consent_expiry : ℕ → ℤ → Option ℕ
unfolding add_seconds
consent_expiry now (pos zero) = none
consent_expiry now (pos (suc n)) = some (add_seconds now (pos (suc n)))
consent_expiry now (negsuc n) = some (add_seconds now (negsuc n))

-- The row that the INSERT of `create_consent` writes where there is no conflict.
unfoldable pub consent_row :
    Session → String → String → String → List String → List String → ConsentRow
unfolding consent_expiry
consent_row s key user_id client_id scope resource = record {
  container_db_key = s.container_db_key;
  consent_key = key;
  user_id = user_id;
  client_id = client_id;
  scope = scope;
  resource = resource;
  granted_at = s.now;
  expires_at = consent_expiry s.now s.settings.consent_ttl;
}

-- ON CONFLICT DO UPDATE SET …: `user_id` and `client_id` stay as they are.
unfoldable pub refresh_consent : ConsentRow → ConsentRow → ConsentRow
refresh_consent excluded row = record row {
  scope = excluded.scope;
  resource = excluded.resource;
  granted_at = excluded.granted_at;
  expires_at = excluded.expires_at;
}

unfoldable pub upsert_consent : String → String → ConsentRow → List ConsentRow → List ConsentRow
unfolding refresh_consent
upsert_consent container key row rows =
    if is_some (select_row (consent_key_is container key) rows)
    then update_rows (consent_key_is container key) (refresh_consent row) rows
    else rows ++ row ∷ []

unfoldable pub create_consent :
    Session → String → String → String → List String → List String → Exec Database (Unit {0})
create_consent s key user_id client_id scope resource = modify λ db. record db {
  consents =
      upsert_consent s.container_db_key key (consent_row s key user_id client_id scope resource)
        db.consents;
}

unfoldable pub consent_of_user : String → String → ℕ → ConsentRow → Bool
unfolding not_expired
consent_of_user container user_id now row =
    row.container_db_key == container && row.user_id == user_id && not_expired row.expires_at now

insert_newest : ConsentRow → List ConsentRow → List ConsentRow
insert_newest row [] = row ∷ []
insert_newest row (other ∷ rows) =
    if leb other.granted_at row.granted_at
    then row ∷ other ∷ rows
    else other ∷ insert_newest row rows

-- ORDER BY granted_at DESC
unfoldable pub newest_first : List ConsentRow → List ConsentRow
unfolding insert_newest
newest_first [] = []
newest_first (row ∷ rows) = insert_newest row (newest_first rows)

unfoldable pub list_consents : Session → String → Exec Database (List Consent)
unfolding row_to_consent newest_first
list_consents s user_id = do
  rows ← gets (λ db. select_rows (consent_of_user s.container_db_key user_id s.now) db.consents)
  pure (map row_to_consent (newest_first rows))

owned_by : Option String → ConsentRow → Bool
owned_by none row = true
owned_by (some user_id) row = row.user_id == user_id

-- The rows that `delete_consent` matches, with or without a user.
unfoldable pub consent_deletable : String → String → Option String → ConsentRow → Bool
unfolding consent_key_is owned_by
consent_deletable container key user_id row =
    consent_key_is container key row && owned_by user_id row

unfoldable pub delete_consent : Session → String → Option String → Exec Database Bool
unfolding consent_deletable
delete_consent s key user_id = do
  count ← gets (λ db. count_rows (consent_deletable s.container_db_key key user_id) db.consents)
  modify λ db. record db {
    consents = delete_rows (consent_deletable s.container_db_key key user_id) db.consents;
  }
  pure (ltb 0 count)
