-- ===== src/Tests/Ddl.antt =====
-- Witnesses for the generation of tables and migrations: the supplier's tables exist with a short
-- name column and without a city.
use open_mdm.Base.{
  String, Bool, true, false, ◌≡◌, refl, inl, inr, Option, none, some, List, [], ◌∷◌, has_key, All,
  Dict, ap, ◌∙◌, ◌==◌,
}
use open_mdm.Base.Int.{pos}
use open_mdm.Base.Results.{Result, ok, err, ◌>>=◌}
use open_mdm.Ddl.{Tier, ColumnDef, Statement, DdlPlan, plan_of, columns_from_entity}
use open_mdm.Ddl.Alter.{build_alter_plan, render_pg}
use open_mdm.Ddl.Alter.Safety.{build_alter_plan-Additive, migration_keeps_columns}
use open_mdm.Ddl.Alter.Shape.{Additive}
use open_mdm.Ddl.Catalog.{Columns, Catalog, reported, apply_plan}
use open_mdm.Ddl.Catalog.Effects.{Has}
use open_mdm.Ddl.Create.{build_create_plan, column_indexes}
use open_mdm.Ddl.Deployed.{Deployed, Distinct}
use open_mdm.Ddl.Deployed.Convergence.{build_alter_plan_converges, build_create_plan-alter}
use open_mdm.Ddl.Deployed.Migration.{build_alter_plan-deploys}
use open_mdm.Identifiers.{validate_ident}
use open_mdm.Identifiers.Types.{PgType, of_length, bare}
use open_mdm.Tests.Fixtures.{py, entity}

abbrev pub accepts : Catalog → Statement → Bool
accepts db s = true

abbrev result {ℓ} : {E A : Type ℓ} → Result E A → A → A
result (ok a) other = a
result (err e) other = other

abbrev pub name_column : Columns
name_column =
    ("mdm_id", reported (bare "uuid") false)
    ∷ ("name", reported (of_length "varchar" (pos 50)) true)
    ∷ []

-- The landing table is missing.
abbrev pub deployed : Catalog
deployed Tier.landing = []
deployed _ = ("supplier", name_column) ∷ []

abbrev pub cols : List ColumnDef
cols = result (columns_from_entity py entity) []

abbrev plan : DdlPlan
plan = result (build_alter_plan py deployed entity) (plan_of [])

abbrev migrated : Catalog
migrated = result (apply_plan accepts plan false deployed) deployed

abbrev name_def : ColumnDef
name_def = record {
  name = "name";
  data_type = "string";
  length = none;
  precision = none;
  scale = none;
  required = true;
  unique = false;
  default = none;
  indexed = false;
}

migration_keeps_columns_example : Has Tier.live "supplier" (λ t. has_key "name" t ≡ true) migrated
unfolding build_alter_plan validate_ident open_mdm.Python.Str.lower open_mdm.Base.Text.lower_ascii
    columns_from_entity open_mdm.Identifiers.validate_column_name open_mdm.Identifiers.Types.pg_type
    open_mdm.Identifiers.Types.logical_type apply_plan render_pg
    open_mdm.Identifiers.Types.is_safe_widening
migration_keeps_columns_example =
    migration_keeps_columns accepts py deployed migrated entity plan false Tier.live "supplier"
      "name" refl refl (name_column, refl, refl)

build_alter_plan-Additive_example :
    (n : String) × (cs : List ColumnDef) × (validate_ident py "supplier" ≡ ok n)
    × (columns_from_entity py entity ≡ ok cs)
    × All (Additive py deployed n cs) plan.statements
unfolding build_alter_plan validate_ident open_mdm.Python.Str.lower open_mdm.Base.Text.lower_ascii
    columns_from_entity open_mdm.Identifiers.validate_column_name open_mdm.Identifiers.Types.pg_type
    open_mdm.Identifiers.Types.logical_type
build_alter_plan-Additive_example = build_alter_plan-Additive py deployed entity plan refl

apart : (c : String) → "city" ≡ c → c ≡ "name" → ⊥
apart c e f = cc (ap (λ s. s == "city") (e ∙ f))

pub cols-Distinct : Distinct cols
unfolding columns_from_entity open_mdm.Identifiers.validate_column_name open_mdm.Python.Str.lower
    open_mdm.Base.Text.lower_ascii
cols-Distinct = (
  (λ d m e. elim m [
    | inl p ↦ apart d.name (ap (λ (x : ColumnDef). x.name) p) e
    | inr b ↦ absurd b
  ]),
  ((λ d m e. absurd m), tt),
)

build_alter_plan-deploys_example : Deployed py "supplier" cols migrated
unfolding validate_ident open_mdm.Python.Str.lower open_mdm.Base.Text.lower_ascii
    columns_from_entity open_mdm.Identifiers.validate_column_name build_alter_plan
    open_mdm.Identifiers.Types.pg_type open_mdm.Identifiers.Types.logical_type render_pg
    open_mdm.Identifiers.Types.is_safe_widening apply_plan
build_alter_plan-deploys_example =
    build_alter_plan-deploys accepts py deployed migrated entity "supplier" cols plan false refl
      refl cols-Distinct refl refl refl

build_alter_plan_converges_example :
    build_alter_plan py migrated entity ≡ ok (plan_of (column_indexes "supplier" cols))
unfolding validate_ident open_mdm.Python.Str.lower open_mdm.Base.Text.lower_ascii
    columns_from_entity open_mdm.Identifiers.validate_column_name build_alter_plan
    open_mdm.Identifiers.Types.pg_type open_mdm.Identifiers.Types.logical_type render_pg
    open_mdm.Identifiers.Types.is_safe_widening apply_plan
build_alter_plan_converges_example =
    build_alter_plan_converges py migrated entity "supplier" cols refl refl (
      build_alter_plan-deploys accepts py deployed migrated entity "supplier" cols plan false refl
        refl cols-Distinct refl refl refl)

build_create_plan-alter_example :
    build_alter_plan py (λ t. []) entity
    ≡ (build_create_plan py entity >>= λ plan. ok (plan_of plan.statements))
build_create_plan-alter_example = build_create_plan-alter py (λ t. []) entity (λ t n named. refl)
