-- ===== src/Storage/Schema/Install.antt =====
-- storage/pg/schema_ops.py: `install_oauth_baseline`.
use guillotina_oauth_server.Prelude.{
  String, ◌≡◌, refl, Bool, true, false, List, [], ◌∷◌, ◌++◌, if◌then◌else◌, length, member, arith,
  eq_refl, all, ◌||◌, ◌&&◌, ◌==◌, Bool-cases, inl, inr,
}
use guillotina_oauth_server.Exec.{Result, ok, err, runtime_error}
use guillotina_oauth_server.Storage.Schema.Status.{
  Schema, SchemaStatus, empty, versioned, needs_migration, code_too_old, unversioned, partial,
  oauth_schema_version, oauth_table_names, count_tables, any_tables, all_tables, get_schema_status,
  set_oauth_schema_version,
}

-- CREATE TABLE IF NOT EXISTS, for each name
unfoldable pub create_tables : List String → List String → List String
create_tables [] tables = tables
create_tables (name ∷ names) tables =
    create_tables names (if member name tables then tables else tables ++ name ∷ [])

-- The DDL and the version, in one transaction
unfoldable pub run_baseline : Schema → Schema
unfolding create_tables
run_baseline schema =
    set_oauth_schema_version oauth_schema_version
      (record schema { tables = create_tables oauth_table_names schema.tables; meta_exists = true })

-- What follows once the lock is held
unfoldable pub install_locked : Schema → SchemaStatus × Schema
unfolding run_baseline
install_locked schema = elim (get_schema_status schema) [
  | empty ↦ (versioned, run_baseline schema)
  | versioned ↦ (versioned, schema)
  | needs_migration ↦ (needs_migration, schema)
  | code_too_old ↦ (code_too_old, schema)
  | unversioned ↦ (unversioned, schema)
  | partial ↦ (partial, schema)
]

-- The end of a round of the wait: another process has installed a schema, or the lock is taken up.
unfoldable pub is_installed : SchemaStatus → Bool
is_installed versioned = true
is_installed needs_migration = true
is_installed empty = false
is_installed code_too_old = false
is_installed unversioned = false
is_installed partial = false

-- The rounds of the wait: for each, the schema that other processes have left by then, and whether
-- `pg_try_advisory_lock` succeeds. There are thirty at most.
unfoldable pub wait_for_lock : List (Schema × Bool) → Schema → Result SchemaStatus × Schema
unfolding is_installed install_locked
wait_for_lock [] schema = (err runtime_error, schema)
wait_for_lock ((seen, acquired) ∷ rounds) schema =
    let rest = wait_for_lock rounds seen in
    let (status, installed) = install_locked seen in
    if is_installed (get_schema_status seen)
    then (ok (get_schema_status seen), seen)
    else if acquired
    then (ok status, installed)
    else rest

unfoldable pub install_oauth_baseline :
    Bool → List (Schema × Bool) → Schema → Result SchemaStatus × Schema
unfolding wait_for_lock
install_oauth_baseline true rounds schema =
    let (status, installed) = install_locked schema in (ok status, installed)
install_oauth_baseline false rounds schema = wait_for_lock rounds schema

member-append :
    (tables : List String) (n name : String)
    → member name (tables ++ n ∷ []) ≡ (member name tables || n == name)
member-append [] n name = ground arith
member-append (t ∷ tables) n name = ground (arith, member-append tables n name)

member-create_tables :
    (names tables : List String) (name : String)
    → member name tables ≡ true
    → member name (create_tables names tables) ≡ true
unfolding create_tables
member-create_tables [] tables name h = h
member-create_tables (n ∷ names) tables name h = elim (Bool-cases (member n tables)) [
  | inl e ↦ rw e (member-create_tables names tables name h)
  | inr e ↦ rw e (
      member-create_tables names (tables ++ n ∷ []) name
        (ground (arith, member-append tables n name)))
]

both : {a b : Bool} → a ≡ true → b ≡ true → (a && b) ≡ true
both h h' = ground arith

all_created :
    (names tables : List String) → all (λ n. member n (create_tables names tables)) names ≡ true
unfolding create_tables
all_created [] tables = refl
all_created (n ∷ names) tables =
    let tables' = if member n tables then tables else tables ++ n ∷ [] in
    let there : member n tables' ≡ true = ground (arith, member-append tables n n, eq_refl n) in
    both (member-create_tables names tables' n there) (all_created names tables')

count_tables-all :
    (names tables : List String)
    → all (λ n. member n tables) names ≡ true
    → count_tables names tables ≡ length names
unfolding count_tables
count_tables-all [] tables h = refl
count_tables-all (n ∷ names) tables h = ground (arith, count_tables-all names tables)

get_schema_status-run_baseline :
    (schema : Schema) → get_schema_status (run_baseline schema) ≡ versioned
unfolding get_schema_status run_baseline set_oauth_schema_version any_tables all_tables
get_schema_status-run_baseline schema =
    rw
      (count_tables-all oauth_table_names (create_tables oauth_table_names schema.tables)
        (all_created oauth_table_names schema.tables))
      refl

install_locked_status :
    (schema : Schema) → get_schema_status (install_locked schema).1 ≡ (install_locked schema).0
unfolding install_locked
install_locked_status schema = ground (arith, get_schema_status-run_baseline schema)

wait_for_lock_status :
    (rounds : List (Schema × Bool)) (schema : Schema) (status : SchemaStatus)
    → (wait_for_lock rounds schema).0 ≡ ok status
    → get_schema_status (wait_for_lock rounds schema).1 ≡ status
unfolding wait_for_lock
wait_for_lock_status [] schema status h = absurd (ground arith)
wait_for_lock_status ((seen, acquired) ∷ rounds) schema status h =
    ground (arith, install_locked_status seen, wait_for_lock_status rounds seen status)

-- An installation that returns reports the status of the schema that it leaves, whether it holds the lock at
-- once, gets it after some rounds of waiting, or finds that another process has installed a schema.
pub install_oauth_baseline_lem :
    (locked : Bool) (rounds : List (Schema × Bool)) (schema : Schema) (status : SchemaStatus)
    → (install_oauth_baseline locked rounds schema).0 ≡ ok status
    → get_schema_status (install_oauth_baseline locked rounds schema).1 ≡ status
unfolding install_oauth_baseline
install_oauth_baseline_lem true rounds schema status h =
    ground (arith, install_locked_status schema)
install_oauth_baseline_lem false rounds schema status h =
    wait_for_lock_status rounds schema status h
