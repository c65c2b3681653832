-- ===== src/Commands/Migrate.antt =====
-- commands/migrate.py: what `oauth-migrate` does to one database.
use guillotina_oauth_server.Prelude.{
  ℕ, zero, suc, String, ◌≡◌, refl, ap, ◌∙◌, Bool, true, false, Option, none, some, List, [], ◌-◌,
  if◌then◌else◌, Dict, arith,
}
use guillotina_oauth_server.Exec.{Exec, Result, ok, err}
use guillotina_oauth_server.Storage.Schema.Status.{
  Schema, SchemaStatus, empty, versioned, needs_migration, code_too_old, unversioned, partial,
  oauth_schema_version, get_schema_status, set_oauth_schema_version, mark_existing_schema_as_v1,
  get_schema_status-mark_existing_schema_as_v1,
}
use guillotina_oauth_server.Storage.Schema.Columns.{validate_unversioned_baseline}
use guillotina_oauth_server.Storage.Schema.Install.{
  install_oauth_baseline, install_oauth_baseline_lem, install_locked,
}
use guillotina_oauth_server.Storage.Schema.Migrations.{
  SchemaDriver, done, MigrationResult, run_oauth_migrations, migrate_from,
}

-- What the command logs for a database.
pub data Report : Type 0 where
  in_progress : Report
  baseline : Report
  incompatible : List String → Report
  marked : Report
  corrupt : Report
  current : Report
  too_new : Option ℕ → Report
  migrated : List MigrationResult → Report
  nothing : Report

-- OAUTH_MIGRATIONS is empty.
abbrev pub oauth_migrations : ℕ → Option (List String)
oauth_migrations version = none

-- The statements of a migration, of which there are none, would leave the tables of the schema alone.
abbrev pub schema_driver : SchemaDriver Schema
schema_driver = record {
  execute = λ sql schema. done schema;
  set_version = λ version schema. done (set_oauth_schema_version version schema);
  get_version = λ schema. schema.version;
}

report_results : Result (List MigrationResult) × Schema → Result Report × Schema
report_results (ok results, schema) = (ok (migrated results), schema)
report_results (err e, schema) = (err e, schema)

module _ (dry_run : Bool) (columns : String → Dict String) where
  -- `_run_forward_migrations`, where there is a version
  run_forward_migrations : Option ℕ → Exec Schema Report
  unfolding report_results
  run_forward_migrations none schema = (ok nothing, schema)
  run_forward_migrations (some version) schema = report_results (
      run_oauth_migrations schema_driver oauth_migrations dry_run version oauth_schema_version
        schema)

  adopt : Bool × List String → Exec Schema Report
  adopt (false, messages) schema = (ok (incompatible messages), schema)
  adopt (true, messages) schema =
      (ok marked, if dry_run then schema else mark_existing_schema_as_v1 schema)

  -- The branch of each status, with the lock held. The lock is the session's, so the installation gets it too.
  unfoldable pub migrate_status : SchemaStatus → Exec Schema Report
  unfolding run_forward_migrations adopt
  migrate_status empty schema =
      (ok baseline, if dry_run then schema else (install_oauth_baseline true [] schema).1)
  migrate_status unversioned schema = adopt (validate_unversioned_baseline columns) schema
  migrate_status partial schema = (ok corrupt, schema)
  migrate_status versioned schema = (ok current, schema)
  migrate_status code_too_old schema = (ok (too_new schema.version), schema)
  migrate_status needs_migration schema = run_forward_migrations schema.version schema

  -- The body of the loop of `_migrate`, where `locked` is the answer of `pg_try_advisory_lock`.
  unfoldable pub migrate_database : Bool → Exec Schema Report
  unfolding migrate_status
  migrate_database false schema = (ok in_progress, schema)
  migrate_database true schema = migrate_status (get_schema_status schema) schema

report_results_state :
    (outcome : Result (List MigrationResult) × Schema) → (report_results outcome).1 ≡ outcome.1
unfolding report_results
report_results_state (ok results, schema) = refl
report_results_state (err e, schema) = refl

-- With no migration there is none to go through.
none_registered :
    (dry_run : Bool) (n version : ℕ) (schema : Schema)
    → (migrate_from schema_driver oauth_migrations dry_run n version schema).1 ≡ schema
unfolding migrate_from
none_registered dry_run zero version schema = refl
none_registered dry_run (suc n) version schema = refl

forward_state :
    (dry_run : Bool) (columns : String → Dict String) (version : Option ℕ) (schema : Schema)
    → (run_forward_migrations dry_run columns version schema).1 ≡ schema
unfolding run_forward_migrations run_oauth_migrations
forward_state dry_run columns none schema = refl
forward_state dry_run columns (some version) schema =
    report_results_state (
      run_oauth_migrations schema_driver oauth_migrations dry_run version oauth_schema_version
        schema)
    ∙ none_registered dry_run (oauth_schema_version - version) version schema

adopt-dry_run :
    (columns : String → Dict String) (verdict : Bool × List String) (schema : Schema)
    → (adopt true columns verdict schema).1 ≡ schema
unfolding adopt
adopt-dry_run columns (true, messages) schema = refl
adopt-dry_run columns (false, messages) schema = refl

migrate_status-dry_run :
    (columns : String → Dict String) (status : SchemaStatus) (schema : Schema)
    → (migrate_status true columns status schema).1 ≡ schema
unfolding migrate_status
migrate_status-dry_run columns empty schema = refl
migrate_status-dry_run columns unversioned schema =
    adopt-dry_run columns (validate_unversioned_baseline columns) schema
migrate_status-dry_run columns partial schema = refl
migrate_status-dry_run columns versioned schema = refl
migrate_status-dry_run columns code_too_old schema = refl
migrate_status-dry_run columns needs_migration schema =
    forward_state true columns schema.version schema

-- A dry run of the command leaves every schema as it is.
pub migrate_database-dry_run :
    (columns : String → Dict String) (locked : Bool) (schema : Schema)
    → (migrate_database true columns locked schema).1 ≡ schema
unfolding migrate_database
migrate_database-dry_run columns false schema = refl
migrate_database-dry_run columns true schema =
    migrate_status-dry_run columns (get_schema_status schema) schema

-- The status that the command brings a schema to, by the status that it finds.
abbrev pub settled : (String → Dict String) → SchemaStatus → SchemaStatus
settled columns empty = versioned
settled columns unversioned =
    if (validate_unversioned_baseline columns).0 then versioned else unversioned
settled columns partial = partial
settled columns versioned = versioned
settled columns code_too_old = code_too_old
settled columns needs_migration = needs_migration

adopt_status :
    (columns : String → Dict String) (verdict : Bool × List String) (schema : Schema)
    → get_schema_status schema ≡ unversioned
    → get_schema_status (adopt false columns verdict schema).1
      ≡ (if verdict.0 then versioned else unversioned)
unfolding adopt
adopt_status columns (true, messages) schema e =
    get_schema_status-mark_existing_schema_as_v1 schema e
adopt_status columns (false, messages) schema e = e

installed :
    (schema : Schema)
    → get_schema_status schema ≡ empty
    → (install_oauth_baseline true [] schema).0 ≡ ok versioned
unfolding install_oauth_baseline install_locked
installed schema e = ground (arith, e)

migrate_status_settles :
    (columns : String → Dict String) (status : SchemaStatus) (schema : Schema)
    → get_schema_status schema ≡ status
    → get_schema_status (migrate_status false columns status schema).1 ≡ settled columns status
unfolding migrate_status
migrate_status_settles columns empty schema e =
    install_oauth_baseline_lem true [] schema versioned (installed schema e)
migrate_status_settles columns unversioned schema e =
    adopt_status columns (validate_unversioned_baseline columns) schema e
migrate_status_settles columns partial schema e = e
migrate_status_settles columns versioned schema e = e
migrate_status_settles columns code_too_old schema e = e
migrate_status_settles columns needs_migration schema e =
    ap get_schema_status (forward_state false columns schema.version schema) ∙ e

-- A run of the command that holds the lock brings an absent schema, and one without a version whose columns
-- are those of the baseline, to the version of the code. It leaves a schema of any other status in its
-- status, also one that needs a migration, of which none is registered.
pub migrate_database_settles :
    (columns : String → Dict String) (schema : Schema)
    → get_schema_status (migrate_database false columns true schema).1
      ≡ settled columns (get_schema_status schema)
unfolding migrate_database
migrate_database_settles columns schema =
    migrate_status_settles columns (get_schema_status schema) schema refl
