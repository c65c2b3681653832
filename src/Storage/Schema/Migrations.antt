-- ===== src/Storage/Schema/Migrations.antt =====
-- storage/pg/schema_ops.py: `run_oauth_migrations`.
use guillotina_oauth_server.Prelude.{
  ℕ, zero, suc, ◌+◌, ◌-◌, String, ◌≡◌, refl, ap, sym, ◌∙◌, Bool, true, false, Option, none, some,
  List, [], ◌∷◌, if◌then◌else◌, length, arith, ◌⊎◌, inl, inr, Option-cases,
}
use guillotina_oauth_server.Exec.{Exec, Result, ok, err, runtime_error}

-- A statement either goes through, or fails with a message.
pub data Outcome (D : Type 0) : Type 0 where
  done : D → Outcome D
  failed : String → Outcome D

Outcome-cases :
    {D : Type 0} (outcome : Outcome D)
    → ((db : D) × (outcome ≡ done db)) ⊎ ((message : String) × (outcome ≡ failed message))
Outcome-cases (done db) = inl (db, refl)
Outcome-cases (failed message) = inr (message, refl)

-- What a migration needs of the database: its statements, and the row of oauth_schema_meta.
pub record SchemaDriver (D : Type 0) : Type 0 where
  pub execute : String → D → Outcome D
  pub set_version : ℕ → D → Outcome D
  pub get_version : D → Option ℕ

pub record MigrationResult : Type 0 where
  pub from_version : ℕ
  pub to_version : ℕ
  pub statement_count : ℕ
  pub success : Bool
  pub error_message : Option String

module _ {D : Type 0} (driver : SchemaDriver D) (migrations : ℕ → Option (List String))
    (dry_run : Bool) where
  unfoldable pub execute_all : List String → D → Outcome D
  execute_all [] db = done db
  execute_all (sql ∷ statements) db = elim (driver.execute sql db) [
    | done db' ↦ execute_all statements db'
    | failed message ↦ failed message
  ]

  -- One migration in its transaction: the database after COMMIT, or after the ROLLBACK of a dry run.
  unfoldable pub attempt : ℕ → List String → D → Outcome D
  unfolding execute_all
  attempt v statements db = elim (execute_all statements db) [
    | failed message ↦ failed message
    | done db' ↦ if dry_run then done db else driver.set_version v db'
  ]

  unfoldable pub migration_result : ℕ → List String → Bool → Option String → MigrationResult
  migration_result v statements success error_message = record {
    from_version = v;
    to_version = suc v;
    statement_count = length statements;
    success = success;
    error_message = error_message;
  }

  add_result :
      MigrationResult → Result (List MigrationResult) × D → Result (List MigrationResult) × D
  add_result result (ok results, db) = (ok (result ∷ results), db)
  add_result result (err e, db) = (err e, db)

  -- The loop: `n` more migrations, the next one from version `v`.
  unfoldable pub migrate_from : ℕ → ℕ → Exec D (List MigrationResult)
  unfolding attempt migration_result add_result
  migrate_from zero v db = (ok [], db)
  migrate_from (suc n) v db = elim (migrations (suc v)) [
    | none ↦ (err runtime_error, db)
    | some statements ↦ elim (attempt (suc v) statements db) [
      | failed message ↦ (ok (migration_result v statements false (some message) ∷ []), db)
      | done db' ↦ add_result (migration_result v statements true none) (migrate_from n (suc v) db')
    ]
  ]

  unfoldable pub run_oauth_migrations : ℕ → ℕ → Exec D (List MigrationResult)
  unfolding migrate_from
  run_oauth_migrations from_version to_version db =
      migrate_from (to_version - from_version) from_version db

-- The migrations that went through.
unfoldable pub count_successes : List MigrationResult → ℕ
count_successes [] = 0
count_successes (result ∷ results) =
    let rest = count_successes results in if result.success then suc rest else rest

module _ {D : Type 0} (driver : SchemaDriver D) (migrations : ℕ → Option (List String)) where
  add_result_state :
      (dry_run : Bool) (result : MigrationResult) (outcome : Result (List MigrationResult) × D)
      → (add_result driver migrations dry_run result outcome).1 ≡ outcome.1
  unfolding add_result
  add_result_state dry_run result (ok results, db) = refl
  add_result_state dry_run result (err e, db) = refl

  attempt-dry_run :
      (v : ℕ) (statements : List String) (db db' : D)
      → attempt driver migrations true v statements db ≡ done db'
      → db' ≡ db
  unfolding attempt
  attempt-dry_run v statements db db' h = ground arith

  migrate_from-dry_run : (n v : ℕ) (db : D) → (migrate_from driver migrations true n v db).1 ≡ db
  unfolding migrate_from
  migrate_from-dry_run zero v db = refl
  migrate_from-dry_run (suc n) v db = elim (Option-cases (migrations (suc v))) [
    | inl e ↦ ground (arith, e)
    | inr (statements, e) ↦
        elim (Outcome-cases (attempt driver migrations true (suc v) statements db)) [
          | inl (db', e') ↦ ground (
            arith,
            add_result_state true (migration_result driver migrations true v statements true none)
                (migrate_from driver migrations true n (suc v) db'),
            migrate_from-dry_run n (suc v) db',
            attempt-dry_run (suc v) statements db db' e',
          )
          | inr (message, e') ↦ ground arith
        ]
  ]

  -- A dry run leaves the database as it was, whether migrations fail, are missing or go through.
  pub run_oauth_migrations-dry_run :
      (from_version to_version : ℕ) (db : D)
      → (run_oauth_migrations driver migrations true from_version to_version db).1 ≡ db
  unfolding run_oauth_migrations
  run_oauth_migrations-dry_run from_version to_version db =
      migrate_from-dry_run (to_version - from_version) from_version db

  attempt_version :
      (v : ℕ) (statements : List String) (db db' : D)
      → ((w : ℕ) (d d' : D) → driver.set_version w d ≡ done d' → driver.get_version d' ≡ some w)
      → attempt driver migrations false v statements db ≡ done db'
      → driver.get_version db' ≡ some v
  unfolding attempt
  attempt_version v statements db db' sets h =
      elim (Outcome-cases (execute_all driver migrations false statements db)) [
        | inl (changed, e) ↦ sets v changed db' (ground arith)
        | inr (_, e) ↦ absurd (ground arith)
      ]

  add_result_ok :
      (v : ℕ) (statements : List String) (outcome : Result (List MigrationResult) × D)
      (results : List MigrationResult)
      → (add_result driver migrations false
          (migration_result driver migrations false v statements true none)
          outcome).0
        ≡ ok results
      → (rest : List MigrationResult) × (outcome.0 ≡ ok rest)
        × (count_successes results ≡ suc (count_successes rest))
  unfolding add_result count_successes migration_result
  add_result_ok v statements (ok rest, db) results h = (rest, refl, ground arith)
  add_result_ok v statements (err e, db) results h = absurd (ground arith)

  migrate_from_version :
      (n v : ℕ) (db : D) (results : List MigrationResult)
      → ((w : ℕ) (d d' : D) → driver.set_version w d ≡ done d' → driver.get_version d' ≡ some w)
      → driver.get_version db ≡ some v
      → (migrate_from driver migrations false n v db).0 ≡ ok results
      → driver.get_version (migrate_from driver migrations false n v db).1
        ≡ some (v + count_successes results)
  unfolding migrate_from count_successes migration_result
  migrate_from_version zero v db results sets start h = ground arith
  migrate_from_version (suc n) v db results sets start h =
      elim (Option-cases (migrations (suc v))) [
        | inl e ↦ absurd (ground arith)
        | inr (statements, e) ↦
            elim (Outcome-cases (attempt driver migrations false (suc v) statements db)) [
              | inr (message, e') ↦
                  let step : migrate_from driver migrations false (suc n) v db ≡ (
                    ok (
                        migration_result driver migrations false v statements false (some message)
                        ∷ []),
                    db,
                  ) =
                    ground arith in
                  ground (arith, step)
              | inl (db', e') ↦
                  let result = migration_result driver migrations false v statements true none in
                  let step : migrate_from driver migrations false (suc n) v db
                      ≡ add_result driver migrations false result
                          (migrate_from driver migrations false n (suc v) db') =
                    ground arith in
                  let (rest, e'', counted) =
                    add_result_ok v statements (migrate_from driver migrations false n (suc v) db')
                      results (ap (λ x. x.0) (sym step) ∙ h) in
                  let later =
                    migrate_from_version n (suc v) db' rest sets
                      (attempt_version (suc v) statements db db' sets e') e'' in
                  ap (λ x. driver.get_version x.1) step
                  ∙ ap driver.get_version (
                      add_result_state false result
                        (migrate_from driver migrations false n (suc v) db'))
                  ∙ later
                  ∙ ap some (omega (arith, counted))
            ]
      ]

  -- Where a version that is set is read back, and the version at the start is `from_version`: if the run
  -- returns its results, the version at the end is the one at the start and as many more as migrations
  -- went through. A migration that fails leaves the version of the last that went through.
  pub run_oauth_migrations_version :
      (from_version to_version : ℕ) (db : D) (results : List MigrationResult)
      → ((v : ℕ) (d d' : D) → driver.set_version v d ≡ done d' → driver.get_version d' ≡ some v)
      → driver.get_version db ≡ some from_version
      → (run_oauth_migrations driver migrations false from_version to_version db).0 ≡ ok results
      → driver.get_version
          (run_oauth_migrations driver migrations false from_version to_version db).1
        ≡ some (from_version + count_successes results)
  unfolding run_oauth_migrations
  run_oauth_migrations_version from_version to_version db results sets start h =
      migrate_from_version (to_version - from_version) from_version db results sets start h
