-- ===== src/Storage/CodeMap/Refined.antt =====
-- storage/pg/repository.py: the store keeps the promise of the map.
use mathlib.Core.Path.{fun_ext, ap₂}
use guillotina_oauth_server.Prelude.{
  ℕ, ◌≡◌, refl, ap, sym, ◌∙◌, subst, String, Option, none, some, List, [], ◌∷◌, ◌++◌, arith,
  map_option, inl, inr, Option-cases,
}
use guillotina_oauth_server.Exec.{Exec, Exn, ok, err, unique_violation, Result-cases}
use guillotina_oauth_server.Flow.Keys.{token_hash}
use guillotina_oauth_server.Sql.{select_row, insert_row}
use guillotina_oauth_server.Storage.Rows.{CodeRow, Code, Database, Session, row_to_code}
use guillotina_oauth_server.Storage.Repository.Codes.{
  code_key, code_row, insert_code, create_code, get_active_code, consume_code, delete_code,
}
use guillotina_oauth_server.Storage.Answers.{get_active_code_answer, consume_code_answer}
use guillotina_oauth_server.Storage.Operations.{perform}
use guillotina_oauth_server.Storage.Operations
use guillotina_oauth_server.Storage.PrimaryKeys.{IsWellFormed, perform-IsWellFormed}
use guillotina_oauth_server.Storage.CodeMap.{
  CodeMap, CodeCall, create, find, consume, delete, answer_call, answer_on_map, answer_create,
  answer_find, answer_consume, shown, with_code, codes_of, answers, hashed,
}
use guillotina_oauth_server.Storage.CodeMap.Statements.{
  active_is_in_time, codes_of-delete, codes_of-consume, codes_of-insert,
}

-- A call on the store and on the map of its container: the same answer, and the same map afterwards.
record Agrees (s : Session) (call : CodeCall) (db : Database) : Type 0 where
  answer : (answer_call s call db).0 ≡ (answer_on_map s call (codes_of s.container_db_key db)).0
  codes :
      codes_of s.container_db_key (answer_call s call db).1
      ≡ (answer_on_map s call (codes_of s.container_db_key db)).1
  well_formed : IsWellFormed (answer_call s call db).1

module _ (s : Session) (raw : String) (answer : String → Exec CodeMap (Option Code))
    (m : CodeMap) where
  hashed_ok :
      {hash : String}
      → token_hash s.crypto s.settings raw ≡ ok hash
      → hashed s raw answer m ≡ answer hash m
  unfolding hashed
  hashed_ok h = rw (h, hashed) refl

  hashed_err :
      {e : Exn} → token_hash s.crypto s.settings raw ≡ err e → hashed s raw answer m ≡ (err e, m)
  unfolding hashed
  hashed_err h = rw (h, hashed) refl

-- Where the hash cannot be had, both sides raise and stay as they are.
Agrees-unhashed :
    (s : Session) (call : CodeCall) (db : Database) (e : Exn)
    → IsWellFormed db
    → answer_call s call db ≡ (err e, db)
    → answer_on_map s call (codes_of s.container_db_key db)
      ≡ (err e, codes_of s.container_db_key db)
    → Agrees s call db
Agrees-unhashed s call db e v concrete abstracted = record {
  answer = ap (λ x. x.0) concrete ∙ sym (ap (λ x. x.0) abstracted);
  codes = ap (λ x. codes_of s.container_db_key x.1) concrete ∙ sym (ap (λ x. x.1) abstracted);
  well_formed = subst IsWellFormed (sym (ap (λ x. x.1) concrete)) v;
}

find-Agrees :
    (s : Session) (raw : String) (db : Database) → IsWellFormed db → Agrees s (find raw) db
unfolding answer_call answer_on_map
find-Agrees s raw db v =
    let m = codes_of s.container_db_key db in
    elim (Result-cases (token_hash s.crypto s.settings raw)) [
      | inr (e, h) ↦
          Agrees-unhashed s (find raw) db e v (unfold get_active_code in rw h refl)
            (hashed_err s raw (answer_find s.now) m h)
      | inl (hash, h) ↦
          let concrete = get_active_code_answer s raw db h in
          let abstracted = hashed_ok s raw (answer_find s.now) m h in
          record {
            answer =
                ap (λ x. x.0) concrete
                ∙ ap (λ r. ok (map_option row_to_code r))
                    (active_is_in_time s.container_db_key hash s.now db.codes v.codes)
                ∙ unfold answer_find in unfold codes_of in sym (ap (λ x. x.0) abstracted);
            codes =
                ap (λ x. codes_of s.container_db_key x.1) concrete
                ∙ unfold answer_find in sym (ap (λ x. x.1) abstracted);
            well_formed = subst IsWellFormed (sym (ap (λ x. x.1) concrete)) v;
          }
    ]

delete-Agrees :
    (s : Session) (hash : String) (db : Database) → IsWellFormed db → Agrees s (delete hash) db
unfolding answer_call answer_on_map codes_of delete_code
delete-Agrees s hash db v = record {
  answer = refl;
  codes = fun_ext (λ h. codes_of-delete s.container_db_key hash h db.codes);
  well_formed = unfold perform in perform-IsWellFormed s (Operations.delete_code hash) db v;
}

consume-Agrees :
    (s : Session) (raw : String) (db : Database) → IsWellFormed db → Agrees s (consume raw) db
unfolding answer_call answer_on_map
consume-Agrees s raw db v =
    let m = codes_of s.container_db_key db in
    elim (Result-cases (token_hash s.crypto s.settings raw)) [
      | inr (e, h) ↦
          Agrees-unhashed s (consume raw) db e v (unfold consume_code in rw h refl)
            (hashed_err s raw (answer_consume s.now) m h)
      | inl (hash, h) ↦
          let concrete = consume_code_answer s raw db h in
          let abstracted = hashed_ok s raw (answer_consume s.now) m h in
          record {
            answer =
                ap (λ x. x.0) concrete
                ∙ ap (λ r. ok (map_option row_to_code r))
                    (active_is_in_time s.container_db_key hash s.now db.codes v.codes)
                ∙ unfold answer_consume in unfold codes_of in sym (ap (λ x. x.0) abstracted);
            codes =
                ap (λ x. codes_of s.container_db_key x.1) concrete
                ∙ unfold codes_of in
                  fun_ext (λ k. codes_of-consume s.container_db_key hash k s.now db.codes v.codes)
                  ∙ unfold answer_consume in unfold codes_of in sym (ap (λ x. x.1) abstracted);
            well_formed =
                unfold perform in perform-IsWellFormed s (Operations.consume_code raw) db v;
          }
    ]

module _ (s : Session) (raw client_id user_id uri : String) (scope resource : List String)
    (challenge : Option String) (db : Database) where
  abbrev call : CodeCall
  call = create raw client_id user_id uri scope resource challenge

  abbrev row_of : String → CodeRow
  row_of hash = code_row s hash client_id user_id uri scope resource challenge

  create_taken :
      {hash : String} {r : CodeRow}
      → token_hash s.crypto s.settings raw ≡ ok hash
      → select_row (code_key s.container_db_key hash) db.codes ≡ some r
      → answer_call s call db ≡ (err unique_violation, db)
  unfolding answer_call create_code insert_code insert_row code_row
  create_taken h taken = ground (arith, h, taken)

  create_free :
      {hash : String}
      → token_hash s.crypto s.settings raw ≡ ok hash
      → select_row (code_key s.container_db_key hash) db.codes ≡ none
      → answer_call s call db
        ≡ (ok (some (shown (row_of hash))), record db { codes = db.codes ++ row_of hash ∷ [] })
  unfolding answer_call create_code insert_code insert_row code_row shown
  create_free h free = ground (arith, h, free)

  performed :
      (answer_call s call db).1
      ≡ perform s (Operations.create_code raw client_id user_id uri scope resource challenge) db
  unfolding answer_call perform
  performed =
      elim (Result-cases (create_code s raw client_id user_id uri scope resource challenge db).0) [
        | inl (code, e) ↦ ground (arith, e)
        | inr (_, e) ↦ ground (arith, e)
      ]

  create-Agrees : IsWellFormed db → Agrees s call db
  unfolding answer_on_map
  create-Agrees v =
      let m = codes_of s.container_db_key db in
      let answer : String → Exec CodeMap (Option Code) = λ hash. answer_create hash (row_of hash) in
      elim (Result-cases (token_hash s.crypto s.settings raw)) [
        | inr (e, h) ↦
            Agrees-unhashed s call db e v (unfold answer_call in unfold create_code in rw h refl)
              (hashed_err s raw answer m h)
        | inl (hash, h) ↦
            let abstracted = hashed_ok s raw answer m h in
            elim (Option-cases (select_row (code_key s.container_db_key hash) db.codes)) [
              | inr (r, taken) ↦
                  Agrees-unhashed s call db unique_violation v (create_taken h taken)
                    (abstracted ∙ unfold answer_create in unfold codes_of in rw taken refl)
              | inl free ↦
                  let concrete = create_free h free in
                  let on_map : answer hash m
                      ≡ (ok (some (shown (row_of hash))), with_code hash (row_of hash) m) =
                    unfold answer_create in unfold codes_of in rw free refl in
                  record {
                    answer = ap (λ x. x.0) concrete ∙ sym (ap (λ x. x.0) (abstracted ∙ on_map));
                    codes =
                        ap (λ x. codes_of s.container_db_key x.1) concrete
                        ∙ unfold codes_of in
                          unfold code_row in
                          fun_ext (λ k.
                            codes_of-insert s.container_db_key k (row_of hash) db.codes refl free)
                          ∙ sym (ap (λ x. x.1) (abstracted ∙ on_map));
                    well_formed = subst IsWellFormed (sym performed) (
                        perform-IsWellFormed s
                          (Operations.create_code raw client_id user_id uri scope resource
                            challenge)
                          db v);
                  }
            ]
      ]

call-Agrees : (s : Session) (call : CodeCall) (db : Database) → IsWellFormed db → Agrees s call db
call-Agrees s (create raw client_id user_id uri scope resource challenge) db v =
    create-Agrees s raw client_id user_id uri scope resource challenge db v
call-Agrees s (find raw) db v = find-Agrees s raw db v
call-Agrees s (consume raw) db v = consume-Agrees s raw db v
call-Agrees s (delete hash) db v = delete-Agrees s hash db v

-- The store refines the map: on well-formed tables, any calls about codes by a container, at any times, are
-- answered as the map of its codes answers them, errors included, whatever rows other containers have and in
-- whatever order rows are scanned.
pub answers-answer_call :
    (s : Session) (calls : List (ℕ × CodeCall)) (db : Database)
    → IsWellFormed db
    → answers answer_call s calls db
      ≡ answers answer_on_map s calls (codes_of s.container_db_key db)
unfolding answers
answers-answer_call s [] db v = refl
answers-answer_call s ((now, call) ∷ calls) db v =
    let agrees = call-Agrees (record s { now = now }) call db v in
    ap₂ (λ x xs. x ∷ xs) agrees.answer
      (answers-answer_call s calls _ agrees.well_formed
        ∙ ap (answers answer_on_map s calls) agrees.codes)
