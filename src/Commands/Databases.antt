-- ===== src/Commands/Databases.antt =====
-- commands/migrate.py: the loop of `oauth-migrate` over the databases, and --show-version.
use guillotina_oauth_server.Prelude.{
  ◌⊎◌, ℕ, ◌≡◌, refl, ap, String, Bool, true, ◌&&◌, ◌||◌, Option, none, some, List, [], ◌∷◌, ◌==◌,
  arith, if◌then◌else◌, Dict, inl, inr, Bool-cases,
}
use guillotina_oauth_server.Exec.{Result, ok, err, undefined_table}
use guillotina_oauth_server.Storage.Schema.Status.{
  Schema, SchemaStatus, empty, unversioned, get_schema_status,
}
use guillotina_oauth_server.Storage.Utility.Startup.{Entry}
use guillotina_oauth_server.Commands.Migrate.{
  Report, migrate_database, settled, migrate_database-dry_run,
}

-- The command line: `--database`, `--dry-run` and `--show-version`.
pub record Arguments : Type 0 where
  pub database : Option String
  pub dry_run : Bool
  pub show_version : Bool

name_fits : Option String → String → Bool
name_fits none id = true
name_fits (some name) id = if name == "" then true else id == name

-- Whether `_iter_pg_databases` yields the entry.
unfoldable pub is_selected : Option String → Entry → Bool
unfolding name_fits
is_selected name entry = entry.is_database && name_fits name entry.id && entry.is_postgres

-- What is logged, database by database, and the root that is left.
abbrev pub Outcome : Type 0 → Type 0
Outcome A = Result (List (String × A)) × List Entry

add_report : {A : Type 0} → String → A → Outcome A → Outcome A
add_report id report (ok reports, entries) = (ok ((id, report) ∷ reports), entries)
add_report id report (err e, entries) = (err e, entries)

keep : {A : Type 0} → Entry → Outcome A → Outcome A
keep entry (reports, entries) = (reports, entry ∷ entries)

-- What follows the work on a database: an exception ends the loop, and leaves the databases after it.
after_database : {A : Type 0} → Entry → Result A × Schema → List Entry → Outcome A → Outcome A
unfolding add_report keep
after_database entry (ok report, schema) others rest =
    keep (record entry { schema = schema }) (add_report entry.id report rest)
after_database entry (err e, schema) others rest =
    (err e, record entry { schema = schema } ∷ others)

-- `columns` are those of each database, and `locked` is the answer of `pg_try_advisory_lock` there.
module _ (dry_run : Bool) (name : Option String) (columns : Entry → String → Dict String)
    (locked : Entry → Bool) where
  -- `_migrate`
  unfoldable pub migrate : List Entry → Outcome Report
  unfolding after_database keep
  migrate [] = (ok [], [])
  migrate (entry ∷ entries) =
      let rest = migrate entries in
      if is_selected name entry
      then after_database entry
          (migrate_database dry_run (columns entry) (locked entry) entry.schema) entries rest
      else keep entry rest

-- `get_oauth_schema_version`: the query needs the table.
unfoldable pub get_oauth_schema_version : Schema → Result (Option ℕ)
get_oauth_schema_version schema =
    if schema.meta_exists then ok schema.version else err undefined_table

shown_version : SchemaStatus → Schema → Result (Option ℕ × SchemaStatus)
unfolding get_oauth_schema_version
shown_version empty schema = ok (none, empty)
shown_version unversioned schema = ok (none, unversioned)
shown_version status schema = elim (get_oauth_schema_version schema) [
  | ok version ↦ ok (version, status)
  | err e ↦ err e
]

-- `_show_versions`
unfoldable pub show_versions : Option String → List Entry → Outcome (Option ℕ × SchemaStatus)
unfolding after_database keep shown_version
show_versions name [] = (ok [], [])
show_versions name (entry ∷ entries) =
    let rest = show_versions name entries in
    if is_selected name entry
    then after_database entry
        (shown_version (get_schema_status entry.schema) entry.schema, entry.schema) entries rest
    else keep entry rest

-- The root that `run` leaves.
unfoldable pub run :
    Arguments → (Entry → String → Dict String) → (Entry → Bool) → List Entry → List Entry
unfolding migrate show_versions
run arguments columns locked entries =
    if arguments.show_version
    then (show_versions arguments.database entries).1
    else (migrate arguments.dry_run arguments.database columns locked entries).1

after_database_unchanged :
    {A : Type 0} (entry : Entry) (r : Result A × Schema) (others : List Entry) (rest : Outcome A)
    → r.1 ≡ entry.schema
    → rest.1 ≡ others
    → (after_database entry r others rest).1 ≡ entry ∷ others
unfolding after_database keep add_report
after_database_unchanged entry (ok report, schema) others (ok reports, entries) same kept =
    rw same (ap (λ es. entry ∷ es) kept)
after_database_unchanged entry (ok report, schema) others (err e, entries) same kept =
    rw same (ap (λ es. entry ∷ es) kept)
after_database_unchanged entry (err e, schema) others rest same kept = rw same refl

keep_unchanged :
    {A : Type 0} (entry : Entry) (others : List Entry) (rest : Outcome A)
    → rest.1 ≡ others
    → (keep entry rest).1 ≡ entry ∷ others
unfolding keep
keep_unchanged entry others (reports, entries) kept = ap (λ es. entry ∷ es) kept

migrate_dry :
    (name : Option String) (columns : Entry → String → Dict String) (locked : Entry → Bool)
    (entries : List Entry)
    → (migrate true name columns locked entries).1 ≡ entries
unfolding migrate
migrate_dry name columns locked [] = refl
migrate_dry name columns locked (entry ∷ entries) = elim (Bool-cases (is_selected name entry)) [
  | inl e ↦ rw e (
      after_database_unchanged entry
        (migrate_database true (columns entry) (locked entry) entry.schema) entries
        (migrate true name columns locked entries)
        (migrate_database-dry_run (columns entry) (locked entry) entry.schema)
        (migrate_dry name columns locked entries))
  | inr e ↦ rw e (
      keep_unchanged entry entries (migrate true name columns locked entries)
        (migrate_dry name columns locked entries))
]

show_versions_entries :
    (name : Option String) (entries : List Entry) → (show_versions name entries).1 ≡ entries
unfolding show_versions
show_versions_entries name [] = refl
show_versions_entries name (entry ∷ entries) = elim (Bool-cases (is_selected name entry)) [
  | inl e ↦ rw e (
      after_database_unchanged entry
        (shown_version (get_schema_status entry.schema) entry.schema, entry.schema) entries
        (show_versions name entries) refl (show_versions_entries name entries))
  | inr e ↦ rw e (
      keep_unchanged entry entries (show_versions name entries)
        (show_versions_entries name entries))
]

-- With --show-version or with --dry-run, the command leaves every database as it is, whatever else the command
-- line says and whichever locks are free.
pub run_unchanged :
    (arguments : Arguments) (columns : Entry → String → Dict String) (locked : Entry → Bool)
    (entries : List Entry)
    → (arguments.show_version || arguments.dry_run) ≡ true
    → run arguments columns locked entries ≡ entries
unfolding run
run_unchanged arguments columns locked entries h = elim (Bool-cases arguments.show_version) [
  | inl e ↦ rw e (show_versions_entries arguments.database entries)
  | inr e ↦
      let dry : arguments.dry_run ≡ true = ground arith in
      rw e (rw dry (migrate_dry arguments.database columns locked entries))
]

-- A PostgreSQL database that the command line names, or any where it names none
pub record IsNamed (name : Option String) (entry : Entry) : Type 0 where
  pub database : entry.is_database ≡ true
  pub postgres : entry.is_postgres ≡ true
  pub named : (name ≡ none) ⊎ (name ≡ some "") ⊎ (name ≡ some entry.id)

-- What a run does to one entry: of one that is named only the schema changes, to the status that is settled,
-- and any other stays.
abbrev pub SettledEntry : Option String → (Entry → String → Dict String) → Entry → Entry → Type 0
SettledEntry name columns before after =
    (IsNamed name before
      → (get_schema_status after.schema
          ≡ settled (columns before) (get_schema_status before.schema))
        × (after ≡ record before { schema = after.schema }))
    × (¬ IsNamed name before → after ≡ before)

-- The same of each entry, in order.
pub data SettledAll (name : Option String) (columns : Entry → String → Dict String)
    : List Entry → List Entry → Type 0 where
  none_left : SettledAll name columns [] []
  next :
      {before after : Entry} {befores afters : List Entry}
      → SettledEntry name columns before after
      → SettledAll name columns befores afters
      → SettledAll name columns (before ∷ befores) (after ∷ afters)
