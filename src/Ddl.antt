-- ===== src/Ddl.antt =====
-- app/services/ddl.py: the columns of an entity, DDL statements as data, and plans of them. A
-- statement stands by its parts; the schemas of the four tiers are taken to differ, as they do by
-- default. `to_dict` and the text of a plan are left out.
pub mod Create
pub mod Catalog
pub mod Alter
pub mod Deployed
use open_mdm.Base.{
  ℕ, String, Bool, true, false, not, ◌||◌, Option, none, some, List, [], ◌∷◌, ◌++◌, leb, is_empty,
  member, ◌==◌, if◌then◌else◌,
}
use open_mdm.Base.Int.{ℤ}
use open_mdm.Base.Results.{Result, ok, err, ◌>>=◌, raise_if, ◌>>◌}
use open_mdm.Base.Text.{is_empty_text, strip}
use open_mdm.Identifiers.{IdentifierError, no_attributes, bad_default, validate_column_name}
use open_mdm.Identifiers.Types.{PgType, pg_type}
use open_mdm.Models.{Attribute, Entity}
use open_mdm.Python.{Python}
use open_mdm.Python.Str.{lower}

pub data Tier : Type 0 where
  landing staging live history : Tier

pub record ColumnDef : Type 0 where
  pub name : String
  pub data_type : String
  pub length : Option ℤ
  pub precision : Option ℤ
  pub scale : Option ℤ
  pub required : Bool
  pub unique : Bool
  pub default : Option String
  pub indexed : Bool

-- What a DEFAULT clause says: SQL as it stands, or a quoted text.
pub data DefaultSql : Type 0 where
  verbatim literal : String → DefaultSql

-- A column of a CREATE TABLE or an ADD COLUMN; `check` is a PRIMARY KEY or CHECK clause.
pub record ColumnSql : Type 0 where
  pub name : String
  pub type : PgType
  pub not_null : Bool
  pub default : Option DefaultSql
  pub check : Option String

pub record Index : Type 0 where
  pub name : String
  pub unique : Bool
  pub columns : List String
  pub filter : Option String

-- Each names the tier and the entity of its table.
pub data Statement : Type 0 where
  create_table : Tier → String → List ColumnSql → Statement
  create_index : Tier → String → Index → Statement
  add_column : Tier → String → ColumnSql → Statement
  alter_type : Tier → String → String → PgType → Statement
  drop_table : Tier → String → Bool → Statement

pub data Warning : Type 0 where
  no_match_key no_business_key : Warning
  added_nullable : Tier → String → String → Warning

-- A reported item: a lost column, a type that may not fit, a table that goes.
pub data Destructive : Type 0 where
  narrowed : Tier → String → String → PgType → PgType → Destructive
  removed : Tier → String → String → Destructive
  dropped : Tier → String → Destructive

pub record DdlPlan : Type 0 where
  pub statements : List Statement
  pub warnings : List Warning
  pub destructive : List Destructive

-- An IdentifierError, the ValueError of `float`, the PermissionError of `apply_plan`, and a
-- statement that the database refuses.
pub data DdlError : Type 0 where
  identifier : IdentifierError → DdlError
  not_a_number : DdlError
  needs_confirmation : List Destructive → DdlError
  refused : Statement → DdlError

abbrev pub checked : {A : Type 0} → Result IdentifierError A → Result DdlError A
checked (ok a) = ok a
checked (err e) = err (identifier e)

abbrev pub is_destructive : DdlPlan → Bool
is_destructive plan = not (is_empty plan.destructive)

-- Two plans, one after the other.
abbrev pub joined : DdlPlan → DdlPlan → DdlPlan
joined p q = record {
  statements = p.statements ++ q.statements;
  warnings = p.warnings ++ q.warnings;
  destructive = p.destructive ++ q.destructive;
}

abbrev pub plan_of : List Statement → DdlPlan
plan_of statements = record { statements = statements; warnings = []; destructive = [] }

abbrev pub sql_type : Python → ColumnDef → Result IdentifierError PgType
sql_type py col = pg_type py col.data_type col.length col.precision col.scale

-- `sorted(attributes, key=lambda a: a.position)`, which keeps the order of equal positions.
unfoldable pub place_attribute : Attribute → List Attribute → List Attribute
place_attribute a [] = a ∷ []
place_attribute a (b ∷ bs) =
    let rest = place_attribute a bs in if leb a.position b.position then a ∷ b ∷ bs else b ∷ rest

unfoldable pub by_position : List Attribute → List Attribute
unfolding place_attribute
by_position [] = []
by_position (a ∷ as') = place_attribute a (by_position as')

column_of : Python → Attribute → ColumnDef
column_of py a = record {
  name = lower py a.name;
  data_type = a.data_type;
  length = a.length;
  precision = a.numeric_precision;
  scale = a.numeric_scale;
  required = a.is_required;
  unique = a.is_unique;
  default = a.default_value;
  indexed = a.is_indexed || a.is_match_key || a.is_business_key;
}

columns_of : Python → List Attribute → Result IdentifierError (List ColumnDef)
unfolding column_of
columns_of py [] = ok []
columns_of py (a ∷ as') = do
  _ ← validate_column_name py a.name
  rest ← columns_of py as'
  ok (column_of py a ∷ rest)

unfoldable pub columns_from_entity : Python → Entity → Result IdentifierError (List ColumnDef)
unfolding columns_of by_position
columns_from_entity py entity = do
  cols ← columns_of py (by_position entity.attributes)
  raise_if (is_empty cols) no_attributes
  ok cols

abbrev default_keywords : List String
default_keywords = "now()" ∷ "current_timestamp" ∷ "current_date" ∷ "gen_random_uuid()" ∷ []

abbrev numeric_types : List String
numeric_types = "integer" ∷ "bigint" ∷ "decimal" ∷ "float" ∷ []

number_default : Python → String → Result DdlError DefaultSql
number_default py raw = elim (py.float_of raw) [
  | none ↦ err not_a_number
  | some _ ↦ ok (verbatim raw)
]

-- `_render_default(col)` of the column's default text.
unfoldable pub render_default : Python → String → String → Result DdlError DefaultSql
unfolding number_default
render_default py data_type raw =
    let lowered = lower py (strip raw) in
    if member lowered default_keywords
    then ok (verbatim lowered)
    else if member data_type numeric_types
    then number_default py raw
    else if data_type == "boolean"
    then (if member lowered ("true" ∷ "false" ∷ [])
        then ok (verbatim lowered)
        else err (identifier bad_default))
    else ok (literal raw)

-- A missing or empty default gives no clause.
unfoldable pub default_clause : Python → ColumnDef → Result DdlError (Option DefaultSql)
unfolding render_default
default_clause py col = elim col.default [
  | none ↦ ok none
  | some raw ↦
      if is_empty_text raw
      then ok none
      else render_default py col.data_type raw >>= λ d. ok (some d)
]
