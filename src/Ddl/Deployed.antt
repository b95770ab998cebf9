-- ===== src/Ddl/Deployed.antt =====
-- app/services/ddl.py: what it means that the deployed tables implement the model of an entity.
pub mod Keeps
pub mod Reach
pub mod Created
pub mod Migration
pub mod Convergence
pub mod Stale
use open_mdm.Base.{String, Bool, true, ◌≡◌, ◌≢◌, ◌⊎◌, none, some, List, [], ◌∷◌, lookup, has_key}
use open_mdm.Base.Results.{ok}
use open_mdm.Ddl.{Tier, ColumnDef, sql_type}
use open_mdm.Ddl.Alter.{expected, logical_from_pg, render_pg}
use open_mdm.Ddl.Alter.Shape.{Among}
use open_mdm.Ddl.Catalog.{ColumnMeta, Columns, Catalog}
use open_mdm.Ddl.Catalog.Effects.{Has}
use open_mdm.Identifiers.Types.{PgType}
use open_mdm.Python.{Python}

-- The table has the column, with the type of the model; a type that no logical type stands for is
-- left to its owner.
abbrev pub Conforms : Python → ColumnDef → Columns → Type 0
Conforms py col t =
    (cur : ColumnMeta) × (lookup col.name t ≡ some cur)
    × (((type : PgType) × (sql_type py col ≡ ok type) × (render_pg cur ≡ type))
        ⊎ (logical_from_pg cur ≡ none))

-- Each column of the model is there, and no other one but the platform's.
abbrev pub Matches : Python → List ColumnDef → Columns → Type 0
Matches py cols t =
    ((col : ColumnDef) → Among col cols → Conforms py col t)
    × ((c : String) → has_key c t ≡ true → expected cols c ≡ true)

-- The abstract view of a deployed entity: four tables, of which three have its columns.
pub record Deployed (py : Python) (n : String) (cols : List ColumnDef) (db : Catalog) : Type 0 where
  pub landing : Has Tier.landing n (λ t. Unit {0}) db
  pub staging : Has Tier.staging n (Matches py cols) db
  pub live : Has Tier.live n (Matches py cols) db
  pub history : Has Tier.history n (Matches py cols) db

-- The names of the columns differ, also after they are put in small letters.
abbrev pub Distinct : List ColumnDef → Type 0
Distinct [] = Unit {0}
Distinct (col ∷ cols) = ((d : ColumnDef) → Among d cols → d.name ≢ col.name) × Distinct cols
