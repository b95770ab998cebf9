-- ===== src/Ddl/Create.antt =====
-- app/services/ddl.py: the statements that create the four tables of an entity.
use Prim.Native.String
use open_mdm.Base.{
  ℕ, String, Bool, true, false, ◌&&◌, Option, none, some, List, [], ◌∷◌, ◌++◌, is_empty,
  if◌then◌else◌,
}
use open_mdm.Base.Int.{pos}
use open_mdm.Base.Results.{Result, ok, ◌>>=◌}
use open_mdm.Ddl.{
  Tier, ColumnDef, DefaultSql, verbatim, literal, ColumnSql, Statement, create_table, create_index,
  no_match_key, no_business_key, DdlPlan, DdlError, checked, sql_type, default_clause,
  columns_from_entity, Warning,
}
use open_mdm.Identifiers.{validate_ident}
use open_mdm.Identifiers.Types.{PgType, bare, of_length}
use open_mdm.Models.{Entity, match_keys, business_key}
use open_mdm.Python.{Python}

infixl 65 ◌<>◌
abbrev ◌<>◌ : String → String → String
a <> b = String.◌++◌ a b

-- A column that every table of a tier has.
abbrev system : String → PgType → Bool → Option DefaultSql → Option String → ColumnSql
system name type not_null default check = record {
  name = name;
  type = type;
  not_null = not_null;
  default = default;
  check = check;
}

abbrev nullable : String → PgType → ColumnSql
nullable name type = system name type false none none

abbrev required : String → PgType → ColumnSql
required name type = system name type true none none

abbrev defaulted : String → PgType → String → ColumnSql
defaulted name type sql = system name type true (some (verbatim sql)) none

abbrev varchar : ℕ → PgType
varchar n = of_length "varchar" (pos n)

abbrev pub landing_columns : List ColumnSql
landing_columns =
    system "mdm_landing_id" (bare "bigserial") false none (some "PRIMARY KEY")
    ∷ system "mdm_operation" (varchar 10) true none
        (some "mdm_operation IN ('INSERT','UPDATE','DELETE','UPSERT')")
    ∷ required "mdm_payload" (bare "jsonb")
    ∷ nullable "mdm_target_id" (varchar 64)
    ∷ nullable "mdm_source_system" (varchar 100)
    ∷ nullable "mdm_batch_id" (bare "uuid")
    ∷ nullable "mdm_idempotency_key" (varchar 255)
    ∷ nullable "mdm_submitted_by" (varchar 255)
    ∷ defaulted "mdm_received_at" (bare "timestamptz") "now()"
    ∷ system "mdm_status" (varchar 20) true (some (literal "pending"))
        (some "mdm_status IN ('pending','promoted','rejected','error')")
    ∷ nullable "mdm_errors" (bare "jsonb")
    ∷ nullable "mdm_processed_at" (bare "timestamptz")
    ∷ []

abbrev pub staging_columns : List ColumnSql
staging_columns =
    system "mdm_staging_id" (bare "bigserial") false none (some "PRIMARY KEY")
    ∷ nullable "mdm_landing_id" (bare "bigint")
    ∷ required "mdm_operation" (varchar 10)
    ∷ nullable "mdm_target_id" (varchar 64)
    ∷ nullable "mdm_match_key" (bare "text")
    ∷ nullable "mdm_source_system" (varchar 100)
    ∷ nullable "mdm_batch_id" (bare "uuid")
    ∷ system "mdm_status" (varchar 20) true (some (literal "pending_review")) (
        some
          "mdm_status IN ('pending_review','changes_requested','approved','rejected','applied','error')")
    ∷ defaulted "mdm_errors" (bare "jsonb") "'[]'::jsonb"
    ∷ defaulted "mdm_is_valid" (bare "boolean") "false"
    ∷ nullable "mdm_change_type" (varchar 20)
    ∷ nullable "mdm_submitted_by" (varchar 255)
    ∷ defaulted "mdm_submitted_at" (bare "timestamptz") "now()"
    ∷ nullable "mdm_edited_by" (varchar 255)
    ∷ nullable "mdm_edited_at" (bare "timestamptz")
    ∷ nullable "mdm_reviewed_by" (varchar 255)
    ∷ nullable "mdm_reviewed_at" (bare "timestamptz")
    ∷ nullable "mdm_review_note" (bare "text")
    ∷ defaulted "mdm_supplied_fields" (bare "jsonb") "'[]'::jsonb"
    ∷ []

abbrev pub live_columns : List ColumnSql
live_columns =
    system "mdm_id" (bare "uuid") false (some (verbatim "gen_random_uuid()")) (some "PRIMARY KEY")
    ∷ defaulted "mdm_version" (bare "integer") "1"
    ∷ nullable "mdm_source_system" (varchar 100)
    ∷ defaulted "mdm_is_deleted" (bare "boolean") "false"
    ∷ nullable "mdm_deleted_at" (bare "timestamptz")
    ∷ defaulted "mdm_created_at" (bare "timestamptz") "now()"
    ∷ nullable "mdm_created_by" (varchar 255)
    ∷ defaulted "mdm_updated_at" (bare "timestamptz") "now()"
    ∷ nullable "mdm_updated_by" (varchar 255)
    ∷ nullable "mdm_approved_by" (varchar 255)
    ∷ nullable "mdm_staging_id" (bare "bigint")
    ∷ []

abbrev pub history_columns : List ColumnSql
history_columns =
    system "mdm_history_id" (bare "bigserial") false none (some "PRIMARY KEY")
    ∷ required "mdm_id" (bare "uuid")
    ∷ required "mdm_version" (bare "integer")
    ∷ required "mdm_change_type" (varchar 20)
    ∷ required "mdm_valid_from" (bare "timestamptz")
    ∷ defaulted "mdm_valid_to" (bare "timestamptz") "now()"
    ∷ nullable "mdm_changed_by" (varchar 255)
    ∷ nullable "mdm_source_system" (varchar 100)
    ∷ defaulted "mdm_is_deleted" (bare "boolean") "false"
    ∷ nullable "mdm_staging_id" (bare "bigint")
    ∷ []

-- `_business_column_sql(col, enforce_not_null=...)`
unfoldable pub business_column_sql : Python → Bool → ColumnDef → Result DdlError ColumnSql
unfolding default_clause
business_column_sql py enforce_not_null col = do
  type ← checked (sql_type py col)
  default ← default_clause py col
  ok (record {
    name = col.name;
    type = type;
    not_null = enforce_not_null && col.required;
    default = default;
    check = none;
  })

unfoldable pub business_columns : Python → Bool → List ColumnDef → Result DdlError (List ColumnSql)
unfolding business_column_sql
business_columns py nn [] = ok []
business_columns py nn (col ∷ cols) = do
  c ← business_column_sql py nn col
  rest ← business_columns py nn cols
  ok (c ∷ rest)

abbrev index : Tier → String → String → List String → Statement
index tier entity name columns =
    create_index tier entity
      (record { name = name; unique = false; columns = columns; filter = none })

unfoldable pub build_landing_ddl : String → List Statement
build_landing_ddl n =
    create_table Tier.landing n landing_columns
    ∷ index Tier.landing n ("ix_" <> n <> "_landing_status") ("mdm_status" ∷ "mdm_received_at" ∷ [])
    ∷ index Tier.landing n ("ix_" <> n <> "_landing_batch") ("mdm_batch_id" ∷ [])
    ∷ create_index Tier.landing n (record {
      name = "uq_" <> n <> "_landing_idem";
      unique = true;
      columns = "mdm_idempotency_key" ∷ [];
      filter = some "mdm_idempotency_key IS NOT NULL";
    })
    ∷ []

unfoldable pub build_staging_ddl :
    Python → String → List ColumnDef → Result DdlError (List Statement)
unfolding business_columns
build_staging_ddl py n cols = do
  body ← business_columns py false cols
  ok (
      create_table Tier.staging n (staging_columns ++ body)
      ∷ index Tier.staging n ("ix_" <> n <> "_staging_status")
          ("mdm_status" ∷ "mdm_submitted_at" ∷ [])
      ∷ index Tier.staging n ("ix_" <> n <> "_staging_match") ("mdm_match_key" ∷ [])
      ∷ [])

-- The indexes of the business columns on the live table; a partial unique index leaves out the
-- rows that are soft-deleted.
unfoldable pub column_indexes : String → List ColumnDef → List Statement
column_indexes n [] = []
column_indexes n (col ∷ cols) =
    let rest = column_indexes n cols in
    if col.unique
    then create_index Tier.live n (record {
      name = "uq_" <> n <> "_" <> col.name;
      unique = true;
      columns = col.name ∷ [];
      filter = some "mdm_is_deleted = false";
    })
      ∷ rest
    else if col.indexed
    then index Tier.live n ("ix_" <> n <> "_" <> col.name) (col.name ∷ []) ∷ rest
    else rest

unfoldable pub build_live_ddl : Python → String → List ColumnDef → Result DdlError (List Statement)
unfolding business_columns column_indexes
build_live_ddl py n cols = do
  body ← business_columns py true cols
  ok (
      create_table Tier.live n (live_columns ++ body) ∷ column_indexes n cols
      ++ index Tier.live n ("ix_" <> n <> "_live_active") ("mdm_is_deleted" ∷ "mdm_updated_at" ∷ [])
        ∷ [])

unfoldable pub build_history_ddl :
    Python → String → List ColumnDef → Result DdlError (List Statement)
unfolding business_columns
build_history_ddl py n cols = do
  body ← business_columns py false cols
  ok (
      create_table Tier.history n (history_columns ++ body)
      ∷ index Tier.history n ("ix_" <> n <> "_hist_record") ("mdm_id" ∷ "mdm_version DESC" ∷ [])
      ∷ [])

unfoldable pub builder : Python → Tier → String → List ColumnDef → Result DdlError (List Statement)
unfolding build_landing_ddl build_staging_ddl build_live_ddl build_history_ddl
builder py Tier.landing n cols = ok (build_landing_ddl n)
builder py Tier.staging n cols = build_staging_ddl py n cols
builder py Tier.live n cols = build_live_ddl py n cols
builder py Tier.history n cols = build_history_ddl py n cols

abbrev pub key_warnings : Entity → List Warning
key_warnings entity =
    (if is_empty (match_keys entity) then no_match_key ∷ [] else [])
    ++ (if is_empty (business_key entity) then no_business_key ∷ [] else [])

unfoldable pub build_create_plan : Python → Entity → Result DdlError DdlPlan
unfolding builder
build_create_plan py entity = do
  n ← checked (validate_ident py entity.name)
  cols ← checked (columns_from_entity py entity)
  landing ← builder py Tier.landing n cols
  staging ← builder py Tier.staging n cols
  live ← builder py Tier.live n cols
  history ← builder py Tier.history n cols
  ok (record {
    statements = landing ++ staging ++ live ++ history;
    warnings = key_warnings entity;
    destructive = [];
  })
