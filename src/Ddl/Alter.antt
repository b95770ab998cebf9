-- ===== src/Ddl/Alter.antt =====
-- app/services/ddl.py: the plan that brings deployed tables in line with the model, and the plan
-- that drops them.
pub mod Types
pub mod Shape
pub mod Additive
pub mod Safety
use open_mdm.Base.{
  String, Bool, true, false, not, ◌&&◌, ◌||◌, Option, none, some, List, [], ◌∷◌, ◌++◌, Dict, lookup,
  has_key, any, ◌==◌, if◌then◌else◌,
}
use open_mdm.Base.Int.{ℤ, eq_int, nonzero, or_zero}
use open_mdm.Base.Results.{Result, ok, err, ◌>>=◌}
use open_mdm.Base.Text.{is_empty_text}
use open_mdm.Ddl.{
  Tier, ColumnDef, ColumnSql, Statement, add_column, alter_type, drop_table, added_nullable,
  narrowed, removed, dropped, DdlPlan, DdlError, checked, joined, plan_of, sql_type, default_clause,
  columns_from_entity, DefaultSql,
}
use open_mdm.Ddl.Catalog.{ColumnMeta, Columns, Catalog, table_of}
use open_mdm.Ddl.Create.{builder, column_indexes}
use open_mdm.Identifiers.{validate_ident}
use open_mdm.Identifiers.Types.{PgType, bare, of_length, numeric, is_safe_widening}
use open_mdm.Models.{Entity}
use open_mdm.Python.{Python}
use text.Mathlib.Text.{starts_with}

abbrev pub pg_to_logical : Dict String
pg_to_logical =
    ("character varying", "string")
    ∷ ("text", "text")
    ∷ ("integer", "integer")
    ∷ ("bigint", "bigint")
    ∷ ("numeric", "decimal")
    ∷ ("double precision", "float")
    ∷ ("boolean", "boolean")
    ∷ ("date", "date")
    ∷ ("timestamp with time zone", "timestamp")
    ∷ ("uuid", "uuid")
    ∷ ("jsonb", "json")
    ∷ []

abbrev pub logical_from_pg : ColumnMeta → Option String
logical_from_pg meta = lookup meta.data_type pg_to_logical

-- `_render_pg(meta)`, by the parts of the rendered text.
render_varchar : Option ℤ → PgType
render_varchar none = bare "varchar"
render_varchar (some n) = of_length "varchar" n

render_name : String → PgType
render_name dt = if dt == "timestamp with time zone" then bare "timestamptz" else bare dt

render_other : ColumnMeta → Option ℤ → PgType
unfolding render_name
render_other meta none = render_name meta.data_type
render_other meta (some p) =
    if meta.data_type == "numeric"
    then numeric p (or_zero meta.scale)
    else render_name meta.data_type

unfoldable pub render_pg : ColumnMeta → PgType
unfolding render_varchar render_other
render_pg meta =
    if meta.data_type == "character varying"
    then render_varchar (nonzero meta.length)
    else render_other meta (nonzero meta.precision)

-- Equality of the rendered texts.
abbrev pub same_type : PgType → PgType → Bool
same_type (bare a) (bare b) = a == b
same_type (of_length a m) (of_length b n) = a == b && eq_int m n
same_type (numeric p s) (numeric q t) = eq_int p q && eq_int s t
same_type _ _ = false

abbrev pub empty_plan : DdlPlan
empty_plan = plan_of []

abbrev pub is_live : Tier → Bool
is_live Tier.live = true
is_live _ = false

-- A required column of the live table gets NOT NULL only with a default.
abbrev added_column : ColumnDef → Bool → PgType → Option DefaultSql → ColumnSql
added_column col not_null type default = record {
  name = col.name;
  type = type;
  not_null = not_null;
  default = default;
  check = none;
}

abbrev pub adding : Tier → String → ColumnDef → PgType → Option DefaultSql → DdlPlan
adding tier n col type none = record {
  statements = add_column tier n (added_column col false type none) ∷ [];
  warnings = if is_live tier && col.required then added_nullable tier n col.name ∷ [] else [];
  destructive = [];
}
adding tier n col type (some default) =
    plan_of
      (add_column tier n (added_column col (is_live tier && col.required) type (some default)) ∷ [])

unfoldable pub add_missing : Python → Tier → String → ColumnDef → Result DdlError DdlPlan
unfolding default_clause
add_missing py tier n col = do
  type ← checked (sql_type py col)
  default ← default_clause py col
  ok (adding tier n col type default)

unfoldable pub additions :
    Python → Tier → String → Columns → List ColumnDef → Result DdlError DdlPlan
unfolding add_missing
additions py tier n existing [] = ok empty_plan
additions py tier n existing (col ∷ cols) = do
  here ← if has_key col.name existing then ok empty_plan else add_missing py tier n col
  rest ← additions py tier n existing cols
  ok (joined here rest)

-- A change of type is a statement where it is a safe widening, and is only reported otherwise.
abbrev pub classified : Tier → String → ColumnDef → ColumnMeta → PgType → Bool → DdlPlan
classified tier n col cur desired safe =
    if same_type desired (render_pg cur)
    then empty_plan
    else if safe
    then plan_of (alter_type tier n col.name desired ∷ [])
    else record {
      statements = [];
      warnings = [];
      destructive = narrowed tier n col.name (render_pg cur) desired ∷ [];
    }

unfoldable pub change_of : Python → Tier → String → ColumnDef → ColumnMeta → Result DdlError DdlPlan
change_of py tier n col cur = elim (logical_from_pg cur) [
  | none ↦ ok empty_plan
  | some old ↦ do
    desired ← checked (sql_type py col)
    ok (
        classified tier n col cur desired
          (is_safe_widening py old cur.length col.data_type col.length))
]

unfoldable pub type_change : Python → Tier → String → Columns → ColumnDef → Result DdlError DdlPlan
unfolding change_of
type_change py tier n existing col = elim (lookup col.name existing) [
  | none ↦ ok empty_plan
  | some cur ↦ change_of py tier n col cur
]

unfoldable pub type_changes :
    Python → Tier → String → Columns → List ColumnDef → Result DdlError DdlPlan
unfolding type_change
type_changes py tier n existing [] = ok empty_plan
type_changes py tier n existing (col ∷ cols) = do
  here ← type_change py tier n existing col
  rest ← type_changes py tier n existing cols
  ok (joined here rest)

-- A column of the platform, or one of the model.
abbrev pub expected : List ColumnDef → String → Bool
expected cols c = starts_with c "mdm_" || any (λ col. col.name == c) cols

unfoldable pub removals : Tier → String → List ColumnDef → Columns → DdlPlan
removals tier n cols [] = empty_plan
removals tier n cols ((c, m) ∷ existing) =
    let rest = removals tier n cols existing in
    if expected cols c
    then rest
    else joined (record { statements = []; warnings = []; destructive = removed tier n c ∷ [] })
        rest

unfoldable pub migration :
    Python → Tier → String → List ColumnDef → Columns → Result DdlError DdlPlan
unfolding additions type_changes removals
migration py tier n cols existing = do
  added ← additions py tier n existing cols
  changed ← type_changes py tier n existing cols
  ok (
      joined added (
        joined changed (
          joined (removals tier n cols existing)
            (plan_of (if is_live tier then column_indexes n cols else [])))))

-- One round of the loop over the tiers; a landing table that exists stays as it is.
abbrev pub migrate_existing :
    Python → Tier → String → List ColumnDef → Columns → Result DdlError DdlPlan
migrate_existing py Tier.landing n cols existing = ok empty_plan
migrate_existing py tier n cols existing = migration py tier n cols existing

unfoldable pub tier_plan :
    Python → Catalog → String → List ColumnDef → Tier → Result DdlError DdlPlan
unfolding migration builder
tier_plan py db n cols tier = elim (table_of db tier n) [
  | none ↦ builder py tier n cols >>= λ statements. ok (plan_of statements)
  | some existing ↦ migrate_existing py tier n cols existing
]

unfoldable pub plan_tiers : Python → Catalog → String → List ColumnDef → Result DdlError DdlPlan
unfolding tier_plan
plan_tiers py db n cols = do
  landing ← tier_plan py db n cols Tier.landing
  staging ← tier_plan py db n cols Tier.staging
  live ← tier_plan py db n cols Tier.live
  history ← tier_plan py db n cols Tier.history
  ok (joined landing (joined staging (joined live history)))

unfoldable pub build_alter_plan : Python → Catalog → Entity → Result DdlError DdlPlan
unfolding plan_tiers
build_alter_plan py db entity = do
  n ← checked (validate_ident py entity.name)
  cols ← checked (columns_from_entity py entity)
  plan_tiers py db n cols

abbrev drop_one : Bool → String → Tier → DdlPlan
drop_one cascade n tier = record {
  statements = drop_table tier n cascade ∷ [];
  warnings = [];
  destructive = dropped tier n ∷ [];
}

unfoldable pub build_drop_plan : Python → String → Bool → Result DdlError DdlPlan
build_drop_plan py entity_name cascade = do
  n ← checked (validate_ident py entity_name)
  ok (
      joined (drop_one cascade n Tier.history) (
        joined (drop_one cascade n Tier.live)
          (joined (drop_one cascade n Tier.staging) (drop_one cascade n Tier.landing))))
