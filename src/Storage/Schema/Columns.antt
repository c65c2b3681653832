-- ===== src/Storage/Schema/Columns.antt =====
-- storage/pg/schema_ops.py: `validate_unversioned_baseline`, and the columns of storage/pg/schema.py.
use guillotina_oauth_server.Prelude.{
  String, Bool, true, false, ◌&&◌, Option, none, some, List, [], ◌∷◌, ◌++◌, ◌==◌, if◌then◌else◌,
  Dict, get, concat, is_some,
}
use guillotina_oauth_server.Storage.Schema.Status.{oauth_table_names}

abbrev timestamp : String
timestamp = "timestamp with time zone"

-- OAUTH_BASELINE_COLUMNS
abbrev pub oauth_baseline_columns : Dict (Dict String)
oauth_baseline_columns =
    (
      "oauth_clients",
      ("container_db_key", "text")
          ∷ ("client_id", "text")
          ∷ ("client_name", "text")
          ∷ ("redirect_uris", "jsonb")
          ∷ ("grant_types", "jsonb")
          ∷ ("response_types", "jsonb")
          ∷ ("scope", "text")
          ∷ ("created_at", timestamp)
          ∷ ("updated_at", timestamp)
          ∷ [],
    )
    ∷ (
      "oauth_authorization_codes",
      ("container_db_key", "text")
          ∷ ("code_hash", "text")
          ∷ ("client_id", "text")
          ∷ ("user_id", "text")
          ∷ ("redirect_uri", "text")
          ∷ ("scope", "jsonb")
          ∷ ("resource", "jsonb")
          ∷ ("code_challenge", "text")
          ∷ ("expires_at", timestamp)
          ∷ ("created_at", timestamp)
          ∷ [],
    )
    ∷ (
      "oauth_refresh_tokens",
      ("container_db_key", "text")
          ∷ ("token_hash", "text")
          ∷ ("client_id", "text")
          ∷ ("user_id", "text")
          ∷ ("scope", "jsonb")
          ∷ ("resource", "jsonb")
          ∷ ("expires_at", timestamp)
          ∷ ("rotated_from", "text")
          ∷ ("auth_code_hash", "text")
          ∷ ("revoked_at", timestamp)
          ∷ ("replaced_by", "text")
          ∷ ("created_at", timestamp)
          ∷ ("last_used_at", timestamp)
          ∷ [],
    )
    ∷ (
      "oauth_consents",
      ("container_db_key", "text")
          ∷ ("consent_key", "text")
          ∷ ("user_id", "text")
          ∷ ("client_id", "text")
          ∷ ("scope", "jsonb")
          ∷ ("resource", "jsonb")
          ∷ ("granted_at", timestamp)
          ∷ ("expires_at", timestamp)
          ∷ [],
    )
    ∷ []

columns_or_empty : Option (Dict String) → Dict String
columns_or_empty none = []
columns_or_empty (some columns) = columns

-- The messages on the expected columns that are missing or of another type
unfoldable pub wrong_columns : String → Dict String → Dict String → List String
wrong_columns table actual [] = []
wrong_columns table actual ((col, expected_type) ∷ expected) =
    let rest = wrong_columns table actual expected in
    elim (get actual col) [
      | none ↦
          concat table (
            concat ": missing column '"
              (concat col (concat "' (expected " (concat expected_type ")"))))
          ∷ rest
      | some actual_type ↦
          if actual_type == expected_type
          then rest
          else concat table (
              concat ": column '" (
                concat col (
                  concat "' type '"
                    (concat actual_type (concat "' != expected '" (concat expected_type "'"))))))
            ∷ rest
    ]

-- The messages on the columns that are not expected
unfoldable pub unexpected_columns : String → Dict String → Dict String → List String
unexpected_columns table expected [] = []
unexpected_columns table expected ((col, actual_type) ∷ actual) =
    let rest = unexpected_columns table expected actual in
    if is_some (get expected col)
    then rest
    else concat table
        (concat ": unexpected column '" (concat col (concat "' (type " (concat actual_type ")"))))
      ∷ rest

missing_table : String → Dict String → List String
missing_table table [] = concat table ": table does not exist in public schema" ∷ []
missing_table table (column ∷ columns) = []

is_empty : List String → Bool
is_empty [] = true
is_empty (message ∷ messages) = false

-- The loop over the tables. `columns` are the columns of each table in the public schema.
unfoldable pub validate_tables : (String → Dict String) → List String → Bool × List String
unfolding wrong_columns unexpected_columns missing_table is_empty columns_or_empty
validate_tables columns [] = (true, [])
validate_tables columns (table ∷ tables) =
    let expected = columns_or_empty (get oauth_baseline_columns table) in
    let wrong = wrong_columns table (columns table) expected in
    let missing = missing_table table (columns table) in
    let (compatible, messages) = validate_tables columns tables in
    (
      is_empty wrong && is_empty missing && compatible,
      wrong ++ (unexpected_columns table expected (columns table) ++ (missing ++ messages)),
    )

unfoldable pub validate_unversioned_baseline : (String → Dict String) → Bool × List String
unfolding validate_tables
validate_unversioned_baseline columns = validate_tables columns oauth_table_names
