-- ===== src/Storage/SingleUse.antt =====
-- storage/pg/repository.py: an authorization code can be consumed once, and never after it expired.
use guillotina_oauth_server.Prelude.{
  ap, sym, ℕ, ◌≤◌, ◌<◌, String, ◌≡◌, refl, ◌∙◌, Bool, false, ◌&&◌, Option, none, some, List, [],
  ◌∷◌, arith, ◌==◌, eq_iff, inl, inr, Option-cases, All,
}
use guillotina_oauth_server.Exec.{Result, ok, err, Result-cases}
use guillotina_oauth_server.Flow.Keys.{token_hash}
use guillotina_oauth_server.Sql.{select_row}
use guillotina_oauth_server.Sql.Select.{
  insert_row-cases, select_row-append, select_row-weaken, select_row-delete_rows_keeps,
  select_row-delete_rows-none, select_row-delete_limited_keeps, select_row_sound,
}
use guillotina_oauth_server.Storage.Rows.{
  CodeRow, Database, Session, RefreshRow, Client, Code, row_to_code,
}
use guillotina_oauth_server.Storage.Answers.{consume_code_answer, get_active_code_answer}
use guillotina_oauth_server.Storage.Frame.{rotate_cases, create_refresh_token_cases, after_update}
use guillotina_oauth_server.Storage.Operations.{
  Operation, perform, Event, call, cleanup, step, run, create_client, create_consent,
  delete_consent, create_code, consume_code, delete_code, create_refresh_token,
  rotate_refresh_token, revoke_user_client_refresh_tokens, revoke_refresh_tokens_by_auth_code,
  revoke_refresh_family, revoke_refresh_token, delete_container_data,
}
use guillotina_oauth_server.Storage.Repository.Clients
use guillotina_oauth_server.Storage.Repository.Codes.{code_key, code_active, code_row, insert_code}
use guillotina_oauth_server.Storage.Repository.Codes
use guillotina_oauth_server.Storage.Repository.Consents
use guillotina_oauth_server.Storage.Repository.Tokens.{insert_refresh, insert_rotated, revoke_where}
use guillotina_oauth_server.Storage.Repository.Tokens
use guillotina_oauth_server.Storage.Repository.Containers

unfoldable pub has_hash : Result String → String → Bool
has_hash (ok h) hash = h == hash
has_hash (err e) hash = false

-- The event stores an authorization code under this hash in this container.
unfoldable pub stores_code : String → String → Event → Bool
unfolding has_hash
stores_code container hash (call s (create_code raw _ _ _ _ _ _)) =
    s.container_db_key == container && has_hash (token_hash s.crypto s.settings raw) hash
stores_code container hash _ = false

abbrev CodeGone : String → String → ℕ → Database → Type 0
CodeGone container hash now db = select_row (code_active container hash now) db.codes ≡ none

CodeGone-later :
    (container hash : String) (now later : ℕ) (db : Database)
    → now ≤ later
    → CodeGone container hash now db
    → CodeGone container hash later db
unfolding code_active
CodeGone-later container hash now later db h =
    select_row-weaken (code_active container hash later) (code_active container hash now)
      (λ r e. ground arith) db.codes

module _ (container hash : String) (now : ℕ) where
  insert_code_gone :
      (s : Session) (row : CodeRow) (db : Database)
      → code_key container hash row ≡ false
      → CodeGone container hash now db
      → CodeGone container hash now (insert_code s row db).1
  unfolding insert_code code_active
  insert_code_gone s row db other gone =
      elim (insert_row-cases (code_key row.container_db_key row.code_hash) row db.codes) [
        | inl e ↦ ground arith
        | inr (_, e) ↦
            ground (arith, e, select_row-append (code_active container hash now) db.codes row)
      ]

  create_code_gone :
      (s : Session) (raw client_id user_id uri : String) (scope resource : List String)
      (challenge : Option String) (db : Database)
      → stores_code container hash
          (call s (create_code raw client_id user_id uri scope resource challenge))
        ≡ false
      → CodeGone container hash now db
      → CodeGone container hash now
          (perform s (create_code raw client_id user_id uri scope resource challenge) db)
  unfolding perform Codes.create_code stores_code
  create_code_gone s raw client_id user_id uri scope resource challenge db other gone =
      elim (Result-cases (token_hash s.crypto s.settings raw)) [
        | inl (h, e) ↦
            let row : CodeRow = code_row s h client_id user_id uri scope resource challenge in
            let apart : code_key container hash row ≡ false =
              (unfold code_key code_row in ground arith) in
            ground (arith, insert_code_gone s row db apart gone)
        | inr (_, e) ↦ ground arith
      ]

  consume_code_gone :
      (s : Session) (code : String) (db : Database)
      → CodeGone container hash now db
      → CodeGone container hash now (perform s (consume_code code) db)
  unfolding perform Codes.consume_code
  consume_code_gone s code db gone = elim (Result-cases (token_hash s.crypto s.settings code)) [
    | inl (h, e) ↦ ground (
      arith,
      select_row-delete_rows_keeps (code_active container hash now)
          (code_active s.container_db_key h s.now) db.codes gone,
    )
    | inr (_, e) ↦ ground arith
  ]

codes-insert_rotated :
    (s : Session) (old new client_id : String) (scope resource : List String)
    (upd : Option RefreshRow) (db : Database)
    → (insert_rotated s old new client_id scope resource upd db).1.codes ≡ db.codes
unfolding insert_rotated insert_refresh
codes-insert_rotated s old new client_id scope resource none db = refl
codes-insert_rotated s old new client_id scope resource (some upd) db = ground arith

codes-rotate :
    (s : Session) (old new client_id : String) (scope resource : List String) (db : Database)
    → (Tokens.rotate_refresh_token s old new client_id scope resource db).1.codes ≡ db.codes
codes-rotate s old new client_id scope resource db =
    rotate_cases (λ db'. db'.codes ≡ db.codes) s db old new client_id scope resource refl
      λ old_hash new_hash e e'.
        codes-insert_rotated s old_hash new_hash client_id scope resource _ _
        ∙ (unfold after_update in refl)

codes-create_refresh_token :
    (s : Session) (raw client_id user_id : String) (scope resource : List String)
    (auth rotated : Option String) (db : Database)
    → (Tokens.create_refresh_token s raw client_id user_id scope resource auth rotated db).1.codes
      ≡ db.codes
codes-create_refresh_token s raw client_id user_id scope resource auth rotated db =
    create_refresh_token_cases (λ db'. db'.codes ≡ db.codes) s db raw client_id user_id scope
      resource auth rotated refl (λ hash e. unfold insert_refresh in ground arith)

codes-create_client :
    (s : Session) (client : Client) (db : Database)
    → (Clients.create_client s client db).1.codes ≡ db.codes
unfolding Clients.create_client
codes-create_client s client db = ground arith

codes-revoke_refresh_token :
    (s : Session) (token : String) (db : Database)
    → (Tokens.revoke_refresh_token s token db).1.codes ≡ db.codes
unfolding Tokens.revoke_refresh_token
codes-revoke_refresh_token s token db = ground arith

module _ (container hash : String) (now : ℕ) where
  same_codes :
      {codes codes' : List CodeRow}
      → codes' ≡ codes
      → select_row (code_active container hash now) codes ≡ none
      → select_row (code_active container hash now) codes' ≡ none
  same_codes e gone = rw e gone

  perform_gone :
      (s : Session) (operation : Operation) (db : Database)
      → stores_code container hash (call s operation) ≡ false
      → CodeGone container hash now db
      → CodeGone container hash now (perform s operation db)
  unfolding perform
  perform_gone s (create_client client) db o g = same_codes (codes-create_client s client db) g
  perform_gone s (create_consent key user_id client_id scope resource) db o g =
      unfold Consents.create_consent in g
  perform_gone s (delete_consent key user_id) db o g = unfold Consents.delete_consent in g
  perform_gone s (create_code raw client_id user_id uri scope resource challenge) db o g =
      create_code_gone container hash now s raw client_id user_id uri scope resource challenge db o
        g
  perform_gone s (consume_code code) db o g = consume_code_gone container hash now s code db g
  perform_gone s (delete_code h) db o g =
      unfold Codes.delete_code in
      select_row-delete_rows_keeps (code_active container hash now) (code_key s.container_db_key h)
        db.codes g
  perform_gone s (create_refresh_token raw client_id user_id scope resource auth rotated) db o g =
      same_codes (codes-create_refresh_token s raw client_id user_id scope resource auth rotated db)
        g
  perform_gone s (rotate_refresh_token old new client_id scope resource) db o g =
      same_codes (codes-rotate s old new client_id scope resource db) g
  perform_gone s (revoke_user_client_refresh_tokens user_id client_id) db o g =
      unfold Tokens.revoke_user_client_refresh_tokens revoke_where in g
  perform_gone s (revoke_refresh_tokens_by_auth_code h) db o g =
      unfold Tokens.revoke_refresh_tokens_by_auth_code revoke_where in g
  perform_gone s (revoke_refresh_family client_id user_id h) db o g =
      unfold Tokens.revoke_refresh_family revoke_where in g
  perform_gone s (revoke_refresh_token token) db o g =
      same_codes (codes-revoke_refresh_token s token db) g
  perform_gone s delete_container_data db o g =
      unfold Containers.delete_container_data in
      select_row-delete_rows_keeps (code_active container hash now)
        (λ r. r.container_db_key == s.container_db_key) db.codes g

  step_gone :
      (event : Event) (db : Database)
      → stores_code container hash event ≡ false
      → CodeGone container hash now db
      → CodeGone container hash now (step event db)
  unfolding step
  step_gone (call s operation) db o g = perform_gone s operation db o g
  step_gone (cleanup at batch_size) db o g =
      unfold Containers.cleanup_expired in
      select_row-delete_limited_keeps (code_active container hash now) batch_size
        (Containers.code_expired at) db.codes g

  run_gone :
      (events : List Event) (db : Database)
      → All (λ event. stores_code container hash event ≡ false) events
      → CodeGone container hash now db
      → CodeGone container hash now (run events db)
  unfolding run
  run_gone [] db o g = g
  run_gone (event ∷ events) db o g = run_gone events (step event db) o.1 (step_gone event db o.0 g)

module _ (s : Session) (code : String) {hash : String} (db : Database)
    (e : token_hash s.crypto s.settings code ≡ ok hash) where
  consumed_gone : CodeGone s.container_db_key hash s.now (Codes.consume_code s code db).1
  consumed_gone = rw (consume_code_answer s code db e) (
      select_row-delete_rows-none (code_active s.container_db_key hash s.now)
        (code_active s.container_db_key hash s.now) (λ r h. h) db.codes)

  gone-none :
      CodeGone s.container_db_key hash s.now db
      → ((Codes.consume_code s code db).0 ≡ ok none)
        × ((Codes.get_active_code s code db).0 ≡ ok none)
  gone-none gone = (
    rw (consume_code_answer s code db e) (rw gone),
    rw (get_active_code_answer s code db e) (rw gone),
  )

-- After a call of `consume_code`, whatever calls and cleanup runs follow, by any containers and whether
-- they raise or not, as long as none of them stores a code with the same hash in the container: at any
-- later time neither `consume_code` nor `get_active_code` finds the code.
pub consume_code_once :
    (s : Session) (code : String) {hash : String} (events : List Event) (later : ℕ) (db : Database)
    → token_hash s.crypto s.settings code ≡ ok hash
    → All (λ event. stores_code s.container_db_key hash event ≡ false) events
    → s.now ≤ later
    → ((Codes.consume_code
          (record s { now = later })
          code
          (run events (Codes.consume_code s code db).1)).0
        ≡ ok none)
      × ((Codes.get_active_code
            (record s { now = later })
            code
            (run events (Codes.consume_code s code db).1)).0
          ≡ ok none)
consume_code_once s code {hash} events later db e others h =
    let db' : Database = run events (Codes.consume_code s code db).1 in
    gone-none (record s { now = later }) code db' e
      (CodeGone-later s.container_db_key hash s.now later db' h (
        run_gone s.container_db_key hash s.now events (Codes.consume_code s code db).1 others
          (consumed_gone s code db e)))

-- A code that is not in force stays so, whatever calls and cleanup runs follow that do not store it again.
pub get_active_code_stays_none :
    (s : Session) (code : String) {hash : String} (events : List Event) (later : ℕ) (db : Database)
    → token_hash s.crypto s.settings code ≡ ok hash
    → All (λ event. stores_code s.container_db_key hash event ≡ false) events
    → s.now ≤ later
    → (Codes.get_active_code s code db).0 ≡ ok none
    → (Codes.get_active_code (record s { now = later }) code (run events db)).0 ≡ ok none
get_active_code_stays_none s code {hash} events later db e others h inactive =
    let gone : CodeGone s.container_db_key hash s.now db =
      elim (Option-cases (select_row (code_active s.container_db_key hash s.now) db.codes)) [
        | inl x ↦ x
        | inr (row, x) ↦
            let shown = ap (λ y. y.0) (sym (get_active_code_answer s code db e)) ∙ inactive in
            absurd (ground arith)
      ] in
    (gone-none (record s { now = later }) code (run events db) e
      (CodeGone-later s.container_db_key hash s.now later (run events db) h
        (run_gone s.container_db_key hash s.now events db others gone))).1

-- What `consume_code` hands out is what `get_active_code` shows on the same database: a code of this
-- container, stored under the hash of the code that was asked for, whose expiry lies ahead.
pub consume_code-get_active_code :
    (s : Session) (code : String) {hash : String} (db : Database) (answer : Code)
    → token_hash s.crypto s.settings code ≡ ok hash
    → (Codes.consume_code s code db).0 ≡ ok (some answer)
    → ((Codes.get_active_code s code db).0 ≡ ok (some answer))
      × (answer.code_hash ≡ hash)
      × ((expires_at : ℕ) × (answer.expires_at ≡ some expires_at) × (s.now < expires_at))
unfolding row_to_code
consume_code-get_active_code s code {hash} db answer e h =
    let shown = rw (consume_code_answer s code db e) at h in
    elim (Option-cases (select_row (code_active s.container_db_key hash s.now) db.codes)) [
      | inl e' ↦ absurd (ground arith)
      | inr (row, e') ↦
          let active = select_row_sound (code_active s.container_db_key hash s.now) db.codes e' in
          (
            rw (get_active_code_answer s code db e) shown,
            unfold code_active in ground (arith, eq_iff row.code_hash hash),
            (row.expires_at, ground arith, unfold code_active in ground arith),
          )
    ]
