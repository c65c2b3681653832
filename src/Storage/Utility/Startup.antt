-- ===== src/Storage/Utility/Startup.antt =====
-- storage/utility.py: the settings, the schema at the start, and the life of the cleanup task.
use guillotina_oauth_server.Prelude.{
  ℕ, String, Bool, true, false, ◌&&◌, ◌||◌, Option, none, some, List, [], ◌∷◌, if◌then◌else◌, leb,
  any,
}
use guillotina_oauth_server.Exec.{Result, ok, err, runtime_error}
use guillotina_oauth_server.Storage.Rows.{Database}
use guillotina_oauth_server.Storage.Schema.Status.{
  Schema, SchemaStatus, empty, versioned, needs_migration, code_too_old, unversioned, partial,
  get_schema_status,
}
use guillotina_oauth_server.Storage.Schema.Install.{install_oauth_baseline}

-- OAUTH_STORAGE_DEFAULTS, each overridden by app_settings["oauth"] and then by the utility's settings.
pub record StorageSettings : Type 0 where
  pub cleanup_interval : ℕ
  pub cleanup_batch_size : ℕ

-- Settings where a key may be missing
pub record Overrides : Type 0 where
  pub cleanup_interval : Option ℕ
  pub cleanup_batch_size : Option ℕ

or_else : Option ℕ → ℕ → ℕ
or_else none n = n
or_else (some m) n = m

-- No utility, or one with no settings, overrides nothing.
unfoldable pub get_oauth_storage_settings : Overrides → Option Overrides → StorageSettings
unfolding or_else
get_oauth_storage_settings oauth none = record {
  cleanup_interval = or_else oauth.cleanup_interval 900;
  cleanup_batch_size = or_else oauth.cleanup_batch_size 5000;
}
get_oauth_storage_settings oauth (some utility) = record {
  cleanup_interval = or_else utility.cleanup_interval (or_else oauth.cleanup_interval 900);
  cleanup_batch_size = or_else utility.cleanup_batch_size (or_else oauth.cleanup_batch_size 5000);
}

-- What Guillotina's root holds under a name: a database or something else, in PostgreSQL or not. Its pool
-- has an id, and behind it are the schema and the rows.
pub record Entry : Type 0 where
  pub id : String
  pub is_database : Bool
  pub is_postgres : Bool
  pub pool_id : ℕ
  pub schema : Schema
  pub rows : Database

unfoldable pub is_served : Entry → Bool
is_served entry = entry.is_database && entry.is_postgres

-- The answers of `pg_try_advisory_lock` during an installation: at once, and in the rounds of the wait.
pub record Locks : Type 0 where
  pub at_once : Bool
  pub rounds : List (Schema × Bool)

-- `_ddl_initialized` is a set of the ids of pools.
unfoldable pub is_known : ℕ → List ℕ → Bool
is_known pool known = any (λ p. leb p pool && leb pool p) known

unfoldable pub add_known : ℕ → List ℕ → List ℕ
unfolding is_known
add_known pool known = if is_known pool known then known else pool ∷ known

-- A status, the ids of the pools that are known, and the schema
abbrev pub Ensured : Type 0
Ensured = Result SchemaStatus × List ℕ × Schema

module _ (strict : Bool) (locks : Locks) (pool : ℕ) (known : List ℕ) where
  -- What follows the installation: its status is not looked at.
  unfoldable pub installed : Result SchemaStatus × Schema → Ensured
  unfolding add_known
  installed (ok status, schema) = (ok versioned, add_known pool known, schema)
  installed (err e, schema) = (err e, known, schema)

  -- A schema that is not fit for use: an error where `schema_strict` is set.
  unfoldable pub unfit : SchemaStatus → Schema → Ensured
  unfit status schema = (if strict then err runtime_error else ok status, known, schema)

  unfoldable pub ensure_status : SchemaStatus → Schema → Ensured
  unfolding installed unfit add_known
  ensure_status empty schema = installed (install_oauth_baseline locks.at_once locks.rounds schema)
  ensure_status versioned schema = (ok versioned, add_known pool known, schema)
  ensure_status unversioned schema = unfit unversioned schema
  ensure_status partial schema = unfit partial schema
  ensure_status needs_migration schema = unfit needs_migration schema
  ensure_status code_too_old schema = (err runtime_error, known, schema)

  unfoldable pub ensure_oauth_schema : Schema → Ensured
  unfolding ensure_status is_known
  ensure_oauth_schema schema =
      if is_known pool known
      then (ok versioned, known, schema)
      else ensure_status (get_schema_status schema) schema

-- `_closing`, and whether there is a task
pub record Task : Type 0 where
  pub closing : Bool
  pub running : Bool

unfoldable pub is_versioned : SchemaStatus → Bool
is_versioned versioned = true
is_versioned empty = false
is_versioned needs_migration = false
is_versioned code_too_old = false
is_versioned unversioned = false
is_versioned partial = false

-- What the loop of `initialize` has come to: whether a schema is fit for use, the known pools, and the
-- root as it is left. An exception ends the loop.
pub record Started : Type 0 where
  pub initialized : Bool
  pub known : List ℕ
  pub entries : List Entry

or_initialized : Bool → Result Started → Result Started
or_initialized now (ok s) = ok (record s { initialized = now || s.initialized })
or_initialized now (err e) = err e

with_entry : Entry → Result Started → Result Started
with_entry entry (ok s) = ok (record s { entries = entry ∷ s.entries })
with_entry entry (err e) = err e

-- `locks` are those of the entry.
after_ensured : Entry → Ensured → (List ℕ → Result Started) → Result Started
unfolding or_initialized with_entry is_versioned
after_ensured entry (err e, known, schema) rest = err e
after_ensured entry (ok status, known, schema) rest =
    or_initialized (is_versioned status)
      (with_entry (record entry { schema = schema }) (rest known))

unfoldable pub start_entries : Bool → (Entry → Locks) → List Entry → List ℕ → Result Started
unfolding after_ensured with_entry is_served
start_entries strict locks [] known =
    ok (record { initialized = false; known = known; entries = [] })
start_entries strict locks (entry ∷ entries) known =
    if is_served entry
    then after_ensured entry
        (ensure_oauth_schema strict (locks entry) entry.pool_id known entry.schema)
        (start_entries strict locks entries)
    else with_entry entry (start_entries strict locks entries known)

-- The end of `initialize`: the task is created if a schema is fit for use.
unfoldable pub start_task : Bool → Task → Task
start_task initialized task =
    if initialized then record { closing = false; running = true } else task

unfoldable pub finalize : Task → Task
finalize task = record { closing = true; running = false }
