-- ===== src/Storage/Schema/Status.antt =====
-- storage/pg/schema_ops.py: the status of the schema, read and set.
use Prim.Native.Nat.{compare, Ordering}
use guillotina_oauth_server.Prelude.{
  ℕ, suc, String, ◌≡◌, Bool, true, Option, none, some, List, [], ◌∷◌, leb, if◌then◌else◌, length,
  member, arith,
}

-- What information_schema and oauth_schema_meta show: the names of the tables beside oauth_schema_meta,
-- whether that one exists, and the version of its row, if there is one.
pub record Schema : Type 0 where
  pub tables : List String
  pub meta_exists : Bool
  pub version : Option ℕ

pub data SchemaStatus : Type 0 where
  empty : SchemaStatus
  versioned : SchemaStatus
  needs_migration : SchemaStatus
  code_too_old : SchemaStatus
  unversioned : SchemaStatus
  partial : SchemaStatus

abbrev pub oauth_schema_version : ℕ
oauth_schema_version = 1

abbrev pub oauth_table_names : List String
oauth_table_names =
    "oauth_clients" ∷ "oauth_authorization_codes" ∷ "oauth_refresh_tokens" ∷ "oauth_consents" ∷ []

-- How many of the names are tables.
unfoldable pub count_tables : List String → List String → ℕ
count_tables [] tables = 0
count_tables (name ∷ names) tables =
    let rest = count_tables names tables in if member name tables then suc rest else rest

unfoldable pub any_tables : Schema → ℕ
unfolding count_tables
any_tables schema = count_tables oauth_table_names schema.tables

unfoldable pub all_tables : Schema → Bool
unfolding any_tables
all_tables schema = leb (length oauth_table_names) (any_tables schema)

version_status : Option ℕ → SchemaStatus
version_status none = partial
version_status (some version) = elim (compare version oauth_schema_version) [
  | Ordering.eq ↦ versioned
  | Ordering.lt ↦ needs_migration
  | Ordering.gt ↦ code_too_old
]

unfoldable pub get_schema_status : Schema → SchemaStatus
unfolding version_status all_tables
get_schema_status schema =
    if schema.meta_exists
    then (if all_tables schema then version_status schema.version else partial)
    else if leb (any_tables schema) 0
    then empty
    else if all_tables schema
    then unversioned
    else partial

-- INSERT … ON CONFLICT DO UPDATE
unfoldable pub set_oauth_schema_version : ℕ → Schema → Schema
set_oauth_schema_version version schema = record schema { version = some version }

-- CREATE TABLE IF NOT EXISTS oauth_schema_meta, and the version
unfoldable pub mark_existing_schema_as_v1 : Schema → Schema
unfolding set_oauth_schema_version
mark_existing_schema_as_v1 schema =
    set_oauth_schema_version 1 (record schema { meta_exists = true })

-- Marking a schema that has all tables and no version turns it into the version of the code.
pub get_schema_status-mark_existing_schema_as_v1 :
    (schema : Schema)
    → get_schema_status schema ≡ unversioned
    → get_schema_status (mark_existing_schema_as_v1 schema) ≡ versioned
unfolding get_schema_status mark_existing_schema_as_v1
get_schema_status-mark_existing_schema_as_v1 schema h = ground arith
