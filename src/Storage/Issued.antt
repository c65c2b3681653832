-- ===== src/Storage/Issued.antt =====
-- storage/pg/repository.py: what a call that stores a refresh token leaves to be read back.
use guillotina_oauth_server.Prelude.{
  String, ◌≡◌, ap, ◌∙◌, true, Option, some, List, arith, inl, inr, eq_refl, map_option,
}
use guillotina_oauth_server.Exec.{ok, Result-cases}
use guillotina_oauth_server.Flow.Keys.{token_hash}
use guillotina_oauth_server.Sql.{select_row}
use guillotina_oauth_server.Sql.Select.{insert_row-cases, select_row-append}
use guillotina_oauth_server.Storage.Rows.{Database, Session, row_to_refresh}
use guillotina_oauth_server.Storage.Answers.{get_refresh_token_answer}
use guillotina_oauth_server.Storage.Repository.Tokens.{
  refresh_key, refresh_row, insert_refresh, create_refresh_token, get_refresh_token,
}

module _ (s : Session) (raw client_id user_id : String) (scope resource : List String)
    (auth_code_hash rotated_from : Option String) (db : Database) where
  -- A refresh token that was stored is read back with everything that it was stored with.
  pub get_refresh_token-create_refresh_token :
      {x : String}
      → (create_refresh_token s raw client_id user_id scope resource auth_code_hash rotated_from
          db).0
        ≡ ok x
      → (hash : String) × (token_hash s.crypto s.settings raw ≡ ok hash)
        × ((get_refresh_token s raw
              (create_refresh_token s raw client_id user_id scope resource auth_code_hash
                rotated_from db).1).0
            ≡ ok (
                some (
                  row_to_refresh (
                    refresh_row s hash client_id user_id scope resource rotated_from
                      auth_code_hash))))
  unfolding create_refresh_token insert_refresh
  get_refresh_token-create_refresh_token h =
      elim (Result-cases (token_hash s.crypto s.settings raw)) [
        | inr (_, e) ↦ absurd (ground arith)
        | inl (hash, e) ↦
            let row =
              refresh_row s hash client_id user_id scope resource rotated_from auth_code_hash in
            let db' =
              (create_refresh_token s raw client_id user_id scope resource auth_code_hash
                rotated_from db).1 in
            let own : refresh_key s.container_db_key hash row ≡ true =
              (unfold refresh_key refresh_row in
                ground (arith, eq_refl s.container_db_key, eq_refl hash)) in
            let found : select_row (refresh_key s.container_db_key hash) db'.refresh_tokens
                ≡ some row =
              elim (insert_row-cases (refresh_key s.container_db_key hash) row db.refresh_tokens) [
                | inl x ↦ absurd (unfold refresh_row in ground arith)
                | inr (free, x) ↦
                    unfold refresh_row in
                    ground (
                      arith,
                      own,
                      select_row-append (refresh_key s.container_db_key hash) db.refresh_tokens row,
                    )
              ] in
            (
              hash,
              e,
              ap (λ y. y.0) (get_refresh_token_answer s raw db' e)
                  ∙ ap (λ r. ok (map_option row_to_refresh r)) found,
            )
      ]
