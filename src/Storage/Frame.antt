-- ===== src/Storage/Frame.antt =====
-- What each call of the store leaves alone: the calls on codes the tokens, and the other way round.
use guillotina_oauth_server.Prelude.{String, ◌≡◌, Option, List, inl, inr, subst, sym}
use guillotina_oauth_server.Exec.{ok, Result-cases, state_then_pure}
use guillotina_oauth_server.Flow.Keys.{token_hash}
use guillotina_oauth_server.Sql.{select_row, update_rows}
use guillotina_oauth_server.Storage.Rows.{Database, Session}
use guillotina_oauth_server.Storage.Repository.Codes
use guillotina_oauth_server.Storage.Repository.Codes.{insert_code, code_row}
use guillotina_oauth_server.Storage.Repository.Tokens
use guillotina_oauth_server.Storage.Repository.Tokens.{
  insert_refresh, insert_rotated, rotatable, replace_row, refresh_row,
}

-- The database after the UPDATE of `rotate_refresh_token`.
unfoldable pub after_update : Session → String → String → String → Database → Database
after_update s old_hash new_hash client_id db = record db {
  refresh_tokens =
      update_rows (rotatable s.container_db_key old_hash client_id s.now)
        (replace_row s.now new_hash) db.refresh_tokens;
}

module _ (P : Database → Type 0) (s : Session) (db : Database) where
  pub rotate_cases :
      (old new client_id : String) (scope resource : List String)
      → P db
      → ((old_hash new_hash : String)
          → token_hash s.crypto s.settings old ≡ ok old_hash
          → token_hash s.crypto s.settings new ≡ ok new_hash
          → P
              (insert_rotated s old_hash new_hash client_id scope resource
                (select_row
                  (rotatable s.container_db_key old_hash client_id s.now)
                  db.refresh_tokens)
                (after_update s old_hash new_hash client_id db)).1)
      → P (Tokens.rotate_refresh_token s old new client_id scope resource db).1
  unfolding Tokens.rotate_refresh_token after_update
  rotate_cases old new client_id scope resource same rotated =
      elim (Result-cases (token_hash s.crypto s.settings old)) [
        | inr (_, e) ↦ rw e same
        | inl (old_hash, e) ↦ elim (Result-cases (token_hash s.crypto s.settings new)) [
          | inr (_, e') ↦ rw (e, e') same
          | inl (new_hash, e') ↦ rw (e, e') (rotated old_hash new_hash e e')
        ]
      ]

  pub create_code_cases :
      (raw client_id user_id uri : String) (scope resource : List String)
      (challenge : Option String)
      → P db
      → ((hash : String)
          → token_hash s.crypto s.settings raw ≡ ok hash
          → P (insert_code s (code_row s hash client_id user_id uri scope resource challenge) db).1)
      → P (Codes.create_code s raw client_id user_id uri scope resource challenge db).1
  unfolding Codes.create_code
  create_code_cases raw client_id user_id uri scope resource challenge same created =
      elim (Result-cases (token_hash s.crypto s.settings raw)) [
        | inr (_, e) ↦ rw e same
        | inl (hash, e) ↦ rw e (
            subst P
              (sym (
                state_then_pure
                  (insert_code s (code_row s hash client_id user_id uri scope resource challenge)) _
                  db))
              (created hash e))
      ]

  pub create_refresh_token_cases :
      (raw client_id user_id : String) (scope resource : List String) (auth rotated : Option String)
      → P db
      → ((hash : String)
          → token_hash s.crypto s.settings raw ≡ ok hash
          → P
              (insert_refresh s
                (refresh_row s hash client_id user_id scope resource rotated auth)
                db).1)
      → P (Tokens.create_refresh_token s raw client_id user_id scope resource auth rotated db).1
  unfolding Tokens.create_refresh_token
  create_refresh_token_cases raw client_id user_id scope resource auth rotated same created =
      elim (Result-cases (token_hash s.crypto s.settings raw)) [
        | inr (_, e) ↦ rw e same
        | inl (hash, e) ↦ rw e (
            subst P
              (sym (
                state_then_pure
                  (insert_refresh s
                    (refresh_row s hash client_id user_id scope resource rotated auth))
                  raw db))
              (created hash e))
      ]
