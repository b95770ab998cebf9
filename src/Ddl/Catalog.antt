-- ===== src/Ddl/Catalog.antt =====
-- The catalog that app/services/ddl.py reads and changes: for each tier the tables with their
-- columns as information_schema reports them, the effect of each DDL statement, and `apply_plan`.
-- Which statements Postgres refuses for other reasons, such as the rows of a table, is a parameter.
pub mod Effects
use open_mdm.Base.{
  String, Bool, true, false, not, ◌&&◌, ◌||◌, Option, none, some, List, [], ◌∷◌, ◌++◌, Dict, lookup,
  has_key, insert, ◌==◌, if◌then◌else◌,
}
use open_mdm.Base.Int.{ℤ}
use open_mdm.Base.Results.{Result, ok, err, ◌>>=◌}
use open_mdm.Ddl.{
  Tier, ColumnSql, Statement, create_table, create_index, add_column, alter_type, drop_table,
  DdlPlan, DdlError, needs_confirmation, refused, is_destructive,
}
use open_mdm.Identifiers.Types.{PgType, bare, of_length, numeric}

-- A row of information_schema.columns; the text of the default is left out.
pub record ColumnMeta : Type 0 where
  pub data_type : String
  pub length : Option ℤ
  pub precision : Option ℤ
  pub scale : Option ℤ
  pub nullable : Bool

abbrev pub Columns : Type 0
Columns = Dict ColumnMeta

abbrev pub Catalog : Type 0
Catalog = Tier → Dict Columns

abbrev pub same_tier : Tier → Tier → Bool
same_tier Tier.landing Tier.landing = true
same_tier Tier.staging Tier.staging = true
same_tier Tier.live Tier.live = true
same_tier Tier.history Tier.history = true
same_tier _ _ = false

-- The full names by which Postgres reports a type.
abbrev full_name : String → String
full_name base =
    if base == "timestamptz"
    then "timestamp with time zone"
    else if base == "bigserial"
    then "bigint"
    else if base == "varchar"
    then "character varying"
    else base

abbrev pub reported : PgType → Bool → ColumnMeta
reported (bare base) nullable = record {
  data_type = full_name base;
  length = none;
  precision = none;
  scale = none;
  nullable = nullable;
}
reported (of_length base n) nullable = record {
  data_type = full_name base;
  length = some n;
  precision = none;
  scale = none;
  nullable = nullable;
}
reported (numeric p s) nullable = record {
  data_type = "numeric";
  length = none;
  precision = some p;
  scale = some s;
  nullable = nullable;
}

abbrev pub metas : List ColumnSql → Columns
metas [] = []
metas (c ∷ cs) = (c.name, reported c.type (not c.not_null)) ∷ metas cs

abbrev pub has_duplicates : Columns → Bool
has_duplicates [] = false
has_duplicates ((k, m) ∷ cs) = has_key k cs || has_duplicates cs

-- `table_exists` and `reflect_columns`
abbrev pub table_of : Catalog → Tier → String → Option Columns
table_of db tier n = lookup n (db tier)

abbrev pub put_table : Tier → String → Columns → Catalog → Catalog
put_table tier n cols db t = if same_tier t tier then insert n cols (db t) else db t

unfoldable pub remove_table : String → Dict Columns → Dict Columns
remove_table n [] = []
remove_table n ((k, t) ∷ ts) =
    let rest = remove_table n ts in if k == n then rest else (k, t) ∷ rest

unfoldable pub create : Tier → String → List ColumnSql → Catalog → Option Catalog
create tier n cols db = elim (table_of db tier n) [
  | some t ↦ some db
  | none ↦ if has_duplicates (metas cols) then none else some (put_table tier n (metas cols) db)
]

unfoldable pub add : Tier → String → ColumnSql → Catalog → Option Catalog
add tier n c db = elim (table_of db tier n) [
  | none ↦ none
  | some t ↦
      if has_key c.name t
      then none
      else some (put_table tier n (t ++ (c.name, reported c.type (not c.not_null)) ∷ []) db)
]

unfoldable pub retype : Tier → String → String → PgType → Columns → Catalog → Option Catalog
retype tier n c type t db = elim (lookup c t) [
  | none ↦ none
  | some m ↦ some (put_table tier n (insert c (reported type m.nullable) t) db)
]

unfoldable pub alter : Tier → String → String → PgType → Catalog → Option Catalog
unfolding retype
alter tier n c type db = elim (table_of db tier n) [
  | none ↦ none
  | some t ↦ retype tier n c type t db
]

-- What a statement does when nothing else stands against it; none is an error.
unfoldable pub effect : Statement → Catalog → Option Catalog
unfolding create add alter remove_table
effect (create_table tier n cols) db = create tier n cols db
effect (create_index tier n i) db = some db
effect (add_column tier n c) db = add tier n c db
effect (alter_type tier n c type) db = alter tier n c type db
effect (drop_table tier n cascade) db =
    some (λ t. if same_tier t tier then remove_table n (db t) else db t)

module _ (accepts : Catalog → Statement → Bool) where
  unfoldable pub execute : Statement → Catalog → Result DdlError Catalog
  unfolding effect
  execute s db =
      if accepts db s
      then elim (effect s db) [ none ↦ err (refused s) | some db' ↦ ok db' ]
      else err (refused s)

  -- The loop of `apply_plan`, inside the caller's transaction.
  unfoldable pub execute_all : List Statement → Catalog → Result DdlError Catalog
  unfolding execute
  execute_all [] db = ok db
  execute_all (s ∷ ss) db = execute s db >>= λ db'. execute_all ss db'

  unfoldable pub apply_plan : DdlPlan → Bool → Catalog → Result DdlError Catalog
  unfolding execute_all
  apply_plan plan allow_destructive db =
      if is_destructive plan && not allow_destructive
      then err (needs_confirmation plan.destructive)
      else execute_all plan.statements db
