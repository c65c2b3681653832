-- ===== src/Tests/Schemas.antt =====
-- The theorems on the schema at concrete inputs.
use guillotina_oauth_server.Prelude.{
  ℕ, zero, suc, arith, ◌+◌, ◌==◌, String, ◌≡◌, refl, false, true, Option, none, some, List, [], ◌∷◌,
  if◌then◌else◌,
}
use guillotina_oauth_server.Storage.Schema.Migrations.{
  SchemaDriver, done, failed, MigrationResult, run_oauth_migrations, migrate_from, attempt,
  execute_all, migration_result, count_successes, run_oauth_migrations_version,
}

-- Statements that leave the version alone, one of which fails
abbrev driver : SchemaDriver (Option ℕ)
driver = record {
  execute = λ sql version. if sql == "bad" then failed "syntax error" else done version;
  set_version = λ version old. done (some version);
  get_version = λ version. version;
}

abbrev migrations : ℕ → Option (List String)
migrations zero = none
migrations (suc zero) = none
migrations (suc (suc zero)) = some ("good" ∷ [])
migrations (suc (suc (suc n))) = some ("good" ∷ "bad" ∷ [])

abbrev results : List MigrationResult
results =
    record {
      from_version = 1;
      to_version = 2;
      statement_count = 1;
      success = true;
      error_message = none;
    }
    ∷ record {
      from_version = 2;
      to_version = 3;
      statement_count = 2;
      success = false;
      error_message = some "syntax error";
    }
    ∷ []

done_injective :
    (v : ℕ) (d d' : Option ℕ) → driver.set_version v d ≡ done d' → driver.get_version d' ≡ some v
done_injective v d d' h = ground arith

run_oauth_migrations_version_example :
    driver.get_version (run_oauth_migrations driver migrations false 1 4 (some 1)).1
    ≡ some (1 + count_successes results)
unfolding run_oauth_migrations migrate_from attempt execute_all migration_result
run_oauth_migrations_version_example =
    run_oauth_migrations_version driver migrations 1 4 (some 1) results done_injective refl refl
