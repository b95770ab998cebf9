-- ===== src/Ddl/Alter/Shape.antt =====
-- app/services/ddl.py, `build_alter_plan`: which statements a plan consists of, and why each one is
-- there.
use open_mdm.Base.{
  String, true, false, ◌≡◌, ◌≢◌, refl, sym, ap, ◌⊎◌, inl, inr, Option, none, some, List, [], ◌∷◌,
  Option-cases, lookup, has_key,
}
use open_mdm.Base.Results.{Result, ok, err, ◌>>=◌, >>=-eq-ok, ok-injective}
use open_mdm.Ddl.{
  Tier, ColumnDef, ColumnSql, DefaultSql, Statement, create_table, create_index, add_column,
  alter_type, drop_table, DdlPlan, DdlError, checked, joined, plan_of, sql_type, default_clause,
}
use open_mdm.Ddl.Alter.{logical_from_pg, adding, add_missing, classified, change_of, type_change}
use open_mdm.Ddl.Catalog.{ColumnMeta, Columns, Catalog, table_of}
use open_mdm.Identifiers.{IdentifierError}
use open_mdm.Identifiers.Types.{PgType, is_safe_widening}
use open_mdm.Python.{Python}

abbrev pub Among : ColumnDef → List ColumnDef → Type 0
Among col [] = ⊥
Among col (d ∷ ds) = (d ≡ col) ⊎ Among col ds

-- An ADD COLUMN adds a column of the model that the table lacks, and a NOT NULL has a default.
pub record Added (py : Python) (existing : Columns) (col : ColumnDef) (c : ColumnSql) : Type 0 where
  pub named : c.name ≡ col.name
  pub typed : sql_type py col ≡ ok c.type
  pub missing : has_key col.name existing ≡ false
  pub filled : c.not_null ≡ true → c.default ≢ none

-- A change of type is to the type of the model, and widens what the catalog reports.
pub record Changed (py : Python) (existing : Columns) (col : ColumnDef) (type : PgType)
    : Type 0 where
  pub cur : ColumnMeta
  pub old : String
  pub found : lookup col.name existing ≡ some cur
  pub known : logical_from_pg cur ≡ some old
  pub typed : sql_type py col ≡ ok type
  pub safe : is_safe_widening py old cur.length col.data_type col.length ≡ true

-- A statement that loses nothing of entity `n` in the catalog: it creates a missing table or an
-- index, adds a missing column, or widens a type.
abbrev pub Additive : Python → Catalog → String → List ColumnDef → Statement → Type 0
Additive py db n cols (create_table tier m cs) = (m ≡ n) × (table_of db tier n ≡ none)
Additive py db n cols (create_index tier m i) = m ≡ n
Additive py db n cols (add_column tier m c) =
    (existing : Columns) × (col : ColumnDef) × (m ≡ n)
    × (table_of db tier n ≡ some existing)
    × Among col cols
    × Added py existing col c
Additive py db n cols (alter_type tier m c type) =
    (existing : Columns) × (col : ColumnDef) × (m ≡ n)
    × (c ≡ col.name)
    × (table_of db tier n ≡ some existing)
    × Among col cols
    × Changed py existing col type
Additive py db n cols (drop_table tier m cascade) = ⊥

pub joined_cases :
    (first second : Result DdlError DdlPlan) {plan : DdlPlan}
    → (first >>= λ a. second >>= λ b. ok (joined a b)) ≡ ok plan
    → (a : DdlPlan) × (b : DdlPlan) × (first ≡ ok a) × (second ≡ ok b) × (joined a b ≡ plan)
joined_cases (ok a) (ok b) h = (a, b, refl, refl, ok-injective h)
joined_cases (ok a) (err e) h = absurd (cc)
joined_cases (err e) second h = absurd (cc)

pub checked-ok : {A : Type 0} (r : Result IdentifierError A) {a : A} → checked r ≡ ok a → r ≡ ok a
checked-ok (ok a) h = cc
checked-ok (err e) h = absurd (cc)

some-ne-none : {A : Type 0} {a : A} → some a ≢ none
some-ne-none h = cc

pub statements : {p q : DdlPlan} → p ≡ q → p.statements ≡ q.statements
statements e = ap (λ (p : DdlPlan). p.statements) e

pub destructive : {p q : DdlPlan} → p ≡ q → p.destructive ≡ q.destructive
destructive e = ap (λ (p : DdlPlan). p.destructive) e

-- The one statement of an added column.
pub add_missing_lem :
    (py : Python) (tier : Tier) (n : String) (existing : Columns) (col : ColumnDef) {plan : DdlPlan}
    → has_key col.name existing ≡ false
    → add_missing py tier n col ≡ ok plan
    → (c : ColumnSql) × (plan.statements ≡ add_column tier n c ∷ [])
      × (plan.destructive ≡ [])
      × Added py existing col c
unfolding add_missing
add_missing_lem py tier n existing col {plan} missing h =
    let (type, typed, more) = >>=-eq-ok (checked (sql_type py col)) _ h in
    let (default, rendered, last) = >>=-eq-ok (default_clause py col) _ more in
    go type default (checked-ok _ typed) (ok-injective last)
  where
    go :
        (type : PgType) (default : Option DefaultSql)
        → sql_type py col ≡ ok type
        → adding tier n col type default ≡ plan
        → (c : ColumnSql) × (plan.statements ≡ add_column tier n c ∷ [])
          × (plan.destructive ≡ [])
          × Added py existing col c
    go type none typed e = (
      _,
      statements (sym e),
      destructive (sym e),
      record { named = refl; typed = typed; missing = missing; filled = λ f. absurd (cc) },
    )
    go type (some d) typed e = (
      _,
      statements (sym e),
      destructive (sym e),
      record { named = refl; typed = typed; missing = missing; filled = λ _. some-ne-none },
    )

-- What the comparison of one column comes to.
pub data Outcome (py : Python) (tier : Tier) (n : String) (existing : Columns) (col : ColumnDef)
    (plan : DdlPlan) : Type 0 where
  absent : lookup col.name existing ≡ none → plan ≡ plan_of [] → Outcome py tier n existing col plan
  unknown :
      (cur : ColumnMeta)
      → lookup col.name existing ≡ some cur
      → logical_from_pg cur ≡ none
      → plan ≡ plan_of []
      → Outcome py tier n existing col plan
  compared :
      (cur : ColumnMeta) (old : String) (type : PgType)
      → lookup col.name existing ≡ some cur
      → logical_from_pg cur ≡ some old
      → sql_type py col ≡ ok type
      → plan
        ≡ classified tier n col cur type
            (is_safe_widening py old cur.length col.data_type col.length)
      → Outcome py tier n existing col plan

pub type_change_cases :
    (py : Python) (tier : Tier) (n : String) (existing : Columns) (col : ColumnDef) (plan : DdlPlan)
    → type_change py tier n existing col ≡ ok plan
    → Outcome py tier n existing col plan
unfolding type_change change_of
type_change_cases py tier n existing col plan h = elim (Option-cases (lookup col.name existing)) [
  | inl e ↦ absent e (sym (ok-injective (rw (type_change, e) at h)))
  | inr (cur, e) ↦ elim (Option-cases (logical_from_pg cur)) [
    | inl f ↦ unknown cur e f (sym (ok-injective (rw (type_change, e, change_of, f) at h)))
    | inr (old, f) ↦
        let (type, typed, last) =
          >>=-eq-ok (checked (sql_type py col)) _ (rw (type_change, e, change_of, f) at h) in
        compared cur old type e f (checked-ok _ typed) (sym (ok-injective last))
  ]
]
