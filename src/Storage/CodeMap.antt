-- ===== src/Storage/CodeMap.antt =====
-- storage/pg/repository.py: the codes of a container as a finite map from hashes to codes.
pub mod Statements
pub mod Refined
use guillotina_oauth_server.Prelude.{
  ℕ, String, Option, none, some, List, [], ◌∷◌, ◌==◌, ltb, if◌then◌else◌, is_some, map_option,
}
use guillotina_oauth_server.Exec.{Exec, Result, ok, err, unique_violation, ◌>>=◌, ◌>>◌, pure}
use guillotina_oauth_server.Flow.Keys.{token_hash}
use guillotina_oauth_server.Sql.{select_row}
use guillotina_oauth_server.Storage.Rows.{CodeRow, Code, Database, Session, row_to_code}
use guillotina_oauth_server.Storage.Repository.Codes.{
  code_key, code_row, create_code, get_active_code, consume_code, delete_code,
}

-- What a container promises about codes: a code is under its hash or it is not.
abbrev pub CodeMap : Type 0
CodeMap = String → Option CodeRow

unfoldable pub in_time : ℕ → Option CodeRow → Option CodeRow
in_time now none = none
in_time now (some row) = if ltb now row.expires_at then some row else none

unfoldable pub without : String → CodeMap → CodeMap
without hash m = λ h. if h == hash then none else m h

unfoldable pub with_code : String → CodeRow → CodeMap → CodeMap
with_code hash row m = λ h. if h == hash then some row else m h

-- The calls about codes
pub data CodeCall : Type 0 where
  create :
      (raw client_id user_id redirect_uri : String) (scope resource : List String)
      (challenge : Option String)
      → CodeCall
  find : String → CodeCall
  consume : String → CodeCall
  delete : String → CodeCall

-- The store answers a call
unfoldable pub answer_call : Session → CodeCall → Exec Database (Option Code)
answer_call s (create raw client_id user_id uri scope resource challenge) = do
  code ← create_code s raw client_id user_id uri scope resource challenge
  pure (some code)
answer_call s (find raw) = get_active_code s raw
answer_call s (consume raw) = consume_code s raw
answer_call s (delete hash) = delete_code s hash >> pure none

-- What the answer of `create_code` shows of a row
unfoldable pub shown : CodeRow → Code
shown row = record (row_to_code row) { expires_at = none; created_at = none }

-- The answer of the map to a call, once the hash is known
unfoldable pub answer_create : String → CodeRow → Exec CodeMap (Option Code)
unfolding with_code shown
answer_create hash row m =
    if is_some (m hash)
    then (err unique_violation, m)
    else (ok (some (shown row)), with_code hash row m)

unfoldable pub answer_find : ℕ → String → Exec CodeMap (Option Code)
unfolding in_time
answer_find now hash m = (ok (map_option row_to_code (in_time now (m hash))), m)

unfoldable pub answer_consume : ℕ → String → Exec CodeMap (Option Code)
unfolding in_time without
answer_consume now hash m = (
  ok (map_option row_to_code (in_time now (m hash))),
  if is_some (in_time now (m hash)) then without hash m else m,
)

unfoldable pub hashed :
    Session → String → (String → Exec CodeMap (Option Code)) → Exec CodeMap (Option Code)
hashed s raw answer m = elim (token_hash s.crypto s.settings raw) [
  | ok hash ↦ answer hash m
  | err e ↦ (err e, m)
]

-- The same call on the map
unfoldable pub answer_on_map : Session → CodeCall → Exec CodeMap (Option Code)
unfolding hashed answer_create answer_find answer_consume without
answer_on_map s (create raw client_id user_id uri scope resource challenge) =
    hashed s raw
      (λ hash. answer_create hash (code_row s hash client_id user_id uri scope resource challenge))
answer_on_map s (find raw) = hashed s raw (answer_find s.now)
answer_on_map s (consume raw) = hashed s raw (answer_consume s.now)
answer_on_map s (delete hash) = λ m. (ok none, without hash m)

-- The map of a container
unfoldable pub codes_of : String → Database → CodeMap
codes_of container db = λ hash. select_row (code_key container hash) db.codes

-- The answers to calls at times, one after the other
unfoldable pub answers :
    {S : Type 0}
    → (Session → CodeCall → Exec S (Option Code))
    → Session
    → List (ℕ × CodeCall)
    → S
    → List (Result (Option Code))
answers answer s [] state = []
answers answer s ((now, call) ∷ calls) state =
    let outcome = answer (record s { now = now }) call state in
    outcome.0 ∷ answers answer s calls outcome.1
