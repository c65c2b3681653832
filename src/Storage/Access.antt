-- ===== src/Storage/Access.antt =====
-- storage/access.py: the store of a container.
use guillotina_oauth_server.Prelude.{
  ◌≡◌, ap, sym, ◌∙◌, String, Bool, false, not, ◌&&◌, Option, none, some, List, ◌==◌, arith,
  if◌then◌else◌, concat, member, has_char, partition, partition-concat, one_char,
}
use guillotina_oauth_server.Exec.{Result, ok, err, runtime_error, http_precondition_failed}

-- What the task's variables hold: the transaction, if there is one, as the id of its database, if it knows
-- one, and whether its storage is PostgreSQL; the id of the task's database; and the enabled addons of the
-- registry, if there is a registry and it can be read.
pub record TaskVars : Type 0 where
  pub transaction : Option (Option String × Bool)
  pub database_id : Option String
  pub enabled_addons : Option (List String)

first_id : Option String → Option String → Option String
first_id none other = other
first_id (some id) other = if id == "" then other else some id

transaction_id : Option (Option String × Bool) → Option String
transaction_id none = none
transaction_id (some (id, is_postgres)) = id

key_of : String → Option String → Result String
key_of container_id none = err runtime_error
key_of container_id (some db_id) =
    if db_id == "" then err runtime_error else ok (concat db_id (concat "/" container_id))

-- The database of the transaction, or else the task's
unfoldable pub active_database_id : TaskVars → Option String
unfolding first_id transaction_id
active_database_id vars = first_id (transaction_id vars.transaction) vars.database_id

unfoldable pub oauth_container_db_key : TaskVars → String → Result String
unfolding key_of active_database_id
oauth_container_db_key vars container_id = key_of container_id (active_database_id vars)

has_oauth : Option (List String) → Bool
has_oauth none = false
has_oauth (some addons) = member "oauth" addons

unfoldable pub is_installed : TaskVars → Bool
unfolding has_oauth
is_installed vars = has_oauth vars.enabled_addons

uses_postgres : Option (Option String × Bool) → Bool
uses_postgres none = false
uses_postgres (some (id, is_postgres)) = is_postgres

-- The key of the store. HTTPPreconditionFailed carries a reason, and no OAuth error code.
unfoldable pub get_oauth_store : Bool → TaskVars → String → Result String
unfolding is_installed uses_postgres oauth_container_db_key
get_oauth_store require_installed vars container_id =
    if require_installed && not (is_installed vars)
    then err (http_precondition_failed "OAuth addon is not installed" none)
    else if uses_postgres vars.transaction
    then oauth_container_db_key vars container_id
    else err runtime_error

key_parts :
    (db_id container_id : String)
    → has_char b'/' db_id ≡ false
    → partition b'/' (concat db_id (String.◌∷◌ "/" container_id)) ≡ (db_id, some container_id)
key_parts db_id container_id h = partition-concat "/" db_id container_id h

key_is :
    (vars : TaskVars) (container_id db_id key : String)
    → active_database_id vars ≡ some db_id
    → oauth_container_db_key vars container_id ≡ ok key
    → concat db_id (String.◌∷◌ "/" container_id) ≡ key
unfolding oauth_container_db_key key_of
key_is vars container_id db_id key known h =
    ap (concat db_id) (sym (one_char "/" container_id)) ∙ ground (arith, known)

-- Two containers never share a store: where the ids of databases hold no "/", containers with the same key
-- are in the same database and have the same id.
pub oauth_container_db_key_unique :
    (vars vars' : TaskVars) (container_id container_id' db_id db_id' key : String)
    → active_database_id vars ≡ some db_id
    → active_database_id vars' ≡ some db_id'
    → has_char b'/' db_id ≡ false
    → has_char b'/' db_id' ≡ false
    → oauth_container_db_key vars container_id ≡ ok key
    → oauth_container_db_key vars' container_id' ≡ ok key
    → (db_id ≡ db_id') × (container_id ≡ container_id')
oauth_container_db_key_unique vars vars' container_id container_id' db_id db_id' key known known'
      plain plain' h h' =
    let same =
      key_is vars container_id db_id key known h
      ∙ sym (key_is vars' container_id' db_id' key known' h') in
    let parts =
      sym (key_parts db_id container_id plain)
      ∙ ap (partition b'/') same
      ∙ key_parts db_id' container_id' plain' in
    (ap (λ x. x.0) parts, ground (arith, parts))
