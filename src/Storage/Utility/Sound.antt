-- ===== src/Storage/Utility/Sound.antt =====
-- storage/utility.py: what the status that `ensure_oauth_schema` returns says of the schema.
use guillotina_oauth_server.Prelude.{ℕ, ◌≡◌, refl, Bool, true, List, arith, inl, inr, Bool-cases}
use guillotina_oauth_server.Exec.{ok}
use guillotina_oauth_server.Storage.Schema.Status.{
  Schema, SchemaStatus, empty, versioned, needs_migration, code_too_old, unversioned, partial,
  get_schema_status,
}
use guillotina_oauth_server.Storage.Schema.Install.{
  install_oauth_baseline, install_oauth_baseline_lem, install_locked,
}
use guillotina_oauth_server.Storage.Utility.Startup.{
  Locks, is_known, installed, unfit, ensure_status, ensure_oauth_schema,
}

-- What a status that is returned says: it is the status of the schema that is left, and with
-- `schema_strict` it is that the schema is fit for use.
abbrev pub Tells : Bool → SchemaStatus → Schema → Type 0
Tells strict status schema =
    (get_schema_status schema ≡ status) × (strict ≡ true → status ≡ versioned)

install_empty :
    (rounds : List (Schema × Bool)) (schema : Schema)
    → get_schema_status schema ≡ empty
    → (install_oauth_baseline true rounds schema).0 ≡ ok versioned
unfolding install_oauth_baseline install_locked
install_empty rounds schema is_empty = ground (arith, is_empty)

module _ (strict : Bool) (locks : Locks) (pool : ℕ) (known : List ℕ) where
  -- An empty schema, with the lock at once, is installed.
  installed-Tells :
      (schema : Schema) (status : SchemaStatus)
      → locks.at_once ≡ true
      → get_schema_status schema ≡ empty
      → (installed strict locks pool known
          (install_oauth_baseline locks.at_once locks.rounds schema)).0
        ≡ ok status
      → Tells strict status
          (installed strict locks pool known
            (install_oauth_baseline locks.at_once locks.rounds schema)).2
  unfolding installed
  installed-Tells schema status at_once is_empty h =
      let returned : (install_oauth_baseline locks.at_once locks.rounds schema).0 ≡ ok versioned =
        rw at_once (install_empty locks.rounds schema is_empty) in
      let left = install_oauth_baseline_lem locks.at_once locks.rounds schema versioned returned in
      (ground (arith, returned, left), λ _. ground (arith, returned))

  unfit-Tells :
      (found : SchemaStatus) (schema : Schema) (status : SchemaStatus)
      → get_schema_status schema ≡ found
      → (unfit strict locks pool known found schema).0 ≡ ok status
      → Tells strict status (unfit strict locks pool known found schema).2
  unfolding unfit
  unfit-Tells found schema status e h = elim (Bool-cases strict) [
    | inl is_strict ↦ absurd (ground arith)
    | inr lax ↦ (ground arith, λ is_strict. absurd (ground arith))
  ]

  ensure_status-Tells :
      (found : SchemaStatus) (schema : Schema) (status : SchemaStatus)
      → locks.at_once ≡ true
      → get_schema_status schema ≡ found
      → (ensure_status strict locks pool known found schema).0 ≡ ok status
      → Tells strict status (ensure_status strict locks pool known found schema).2
  unfolding ensure_status
  ensure_status-Tells empty schema status at_once e h = installed-Tells schema status at_once e h
  ensure_status-Tells versioned schema status at_once e h = (ground arith, λ _. ground arith)
  ensure_status-Tells unversioned schema status at_once e h =
      unfit-Tells unversioned schema status e h
  ensure_status-Tells partial schema status at_once e h = unfit-Tells partial schema status e h
  ensure_status-Tells needs_migration schema status at_once e h =
      unfit-Tells needs_migration schema status e h
  ensure_status-Tells code_too_old schema status at_once e h = absurd (ground arith)

  -- The status that `ensure_oauth_schema` returns is the status of the schema that it leaves, and with
  -- `schema_strict` it is that the schema is fit for use: given that a pool which counts as initialized has
  -- such a schema, and that an installation gets the lock at once.
  pub ensure_oauth_schema-Tells :
      (schema : Schema) (status : SchemaStatus)
      → locks.at_once ≡ true
      → (is_known pool known ≡ true → get_schema_status schema ≡ versioned)
      → (ensure_oauth_schema strict locks pool known schema).0 ≡ ok status
      → Tells strict status (ensure_oauth_schema strict locks pool known schema).2
  unfolding ensure_oauth_schema
  ensure_oauth_schema-Tells schema status at_once cached h =
      elim (Bool-cases (is_known pool known)) [
        | inl e ↦ let fit = cached e in (ground (arith, fit), λ _. ground arith)
        | inr e ↦
            rw e (
              ensure_status-Tells (get_schema_status schema) schema status at_once refl (rw e at h))
      ]
