-- ===== src/Ddl/Alter/Safety.antt =====
-- app/services/ddl.py, `build_alter_plan` and `apply_plan`: a migration loses no table and no column.
use open_mdm.Base.{
  String, Bool, true, not, ◌&&◌, ◌≡◌, inl, inr, List, [], ◌∷◌, ◌++◌, All, All-append, All-map,
  Bool-cases, has_key, insert, subst, arith,
}
use open_mdm.Base.Results.{ok, >>=-eq-ok, ok-injective}
use open_mdm.Ddl.{
  Tier, ColumnDef, Statement, create_table, create_index, add_column, alter_type, drop_table,
  DdlPlan, checked, joined, columns_from_entity, is_destructive,
}
use open_mdm.Ddl.Alter.{tier_plan, plan_tiers, build_alter_plan}
use open_mdm.Ddl.Alter.Additive.{Here, tier_plan-Additive}
use open_mdm.Ddl.Alter.Shape.{Additive, checked-ok}
use open_mdm.Ddl.Catalog.{ColumnMeta, Columns, Catalog, reported, apply_plan}
use open_mdm.Ddl.Catalog.Effects.{Has, Kept, execute_all-Kept}
use open_mdm.Identifiers.{validate_ident}
use open_mdm.Models.{Entity}
use open_mdm.Python.{Python}

-- The four plans of a plan over the tiers, in their order.
pub plan_tiers_cases :
    (py : Python) (db : Catalog) (n : String) (cols : List ColumnDef) {plan : DdlPlan}
    → plan_tiers py db n cols ≡ ok plan
    → (a : DdlPlan) × (b : DdlPlan) × (c : DdlPlan) × (d : DdlPlan) × (tier_plan py db n cols
          Tier.landing
        ≡ ok a)
      × (tier_plan py db n cols Tier.staging ≡ ok b)
      × (tier_plan py db n cols Tier.live ≡ ok c)
      × (tier_plan py db n cols Tier.history ≡ ok d)
      × (joined a (joined b (joined c d)) ≡ plan)
unfolding plan_tiers
plan_tiers_cases py db n cols h =
    let (a, ha, h1) = >>=-eq-ok (tier_plan py db n cols Tier.landing) _ h in
    let (b, hb, h2) = >>=-eq-ok (tier_plan py db n cols Tier.staging) _ h1 in
    let (c, hc, h3) = >>=-eq-ok (tier_plan py db n cols Tier.live) _ h2 in
    let (d, hd, h4) = >>=-eq-ok (tier_plan py db n cols Tier.history) _ h3 in
    (a, b, c, d, ha, hb, hc, hd, ok-injective h4)

pub build_alter_plan_cases :
    (py : Python) (db : Catalog) (entity : Entity) {plan : DdlPlan}
    → build_alter_plan py db entity ≡ ok plan
    → (n : String) × (cols : List ColumnDef) × (validate_ident py entity.name ≡ ok n)
      × (columns_from_entity py entity ≡ ok cols)
      × (plan_tiers py db n cols ≡ ok plan)
unfolding build_alter_plan
build_alter_plan_cases py db entity h =
    let (n, named, h1) = >>=-eq-ok (checked (validate_ident py entity.name)) _ h in
    let (cols, columns, h2) = >>=-eq-ok (checked (columns_from_entity py entity)) _ h1 in
    (n, cols, checked-ok _ named, checked-ok _ columns, h2)

-- Every statement of an alter plan is additive, for the validated name and the columns of the
-- entity: it creates a table that the catalog lacks, creates an index, adds a column of the model
-- that the deployed table lacks, with a default where it says NOT NULL, or changes the type of a
-- deployed column to the type of the model where `is_safe_widening` accepts the change. No
-- statement drops a table.
pub build_alter_plan-Additive :
    (py : Python) (db : Catalog) (entity : Entity) (plan : DdlPlan)
    → build_alter_plan py db entity ≡ ok plan
    → (n : String) × (cols : List ColumnDef) × (validate_ident py entity.name ≡ ok n)
      × (columns_from_entity py entity ≡ ok cols)
      × All (Additive py db n cols) plan.statements
build_alter_plan-Additive py db entity plan h =
    let (n, cols, named, columns, tiers) = build_alter_plan_cases py db entity h in
    let (a, b, c, d, ha, hb, hc, hd, e) = plan_tiers_cases py db n cols tiers in
    (
      n,
      cols,
      named,
      columns,
      subst (λ (p : DdlPlan). All (Additive py db n cols) p.statements) e
          (All-append _ a.statements _ (of_tier n cols Tier.landing a ha) (
            All-append _ b.statements _ (of_tier n cols Tier.staging b hb) (
              All-append _ c.statements _ (of_tier n cols Tier.live c hc)
                (of_tier n cols Tier.history d hd)))),
    )
  where
    of_tier :
        (n : String) (cols : List ColumnDef) (tier : Tier) (p : DdlPlan)
        → tier_plan py db n cols tier ≡ ok p
        → All (Additive py db n cols) p.statements
    of_tier n cols tier p h =
        All-map (Here py db n cols tier) (Additive py db n cols) (λ s here. here.1) p.statements
          (tier_plan-Additive py db n cols tier p h)

pub has_key-append : (k : String) (t u : Columns) → has_key k t ≡ true → has_key k (t ++ u) ≡ true
has_key-append k [] u h = absurd (cc)
has_key-append k ((j, v) ∷ t) u h = ground (arith, has_key-append k t u)

has_key-insert :
    (k j : String) (m : ColumnMeta) (t : Columns)
    → has_key k t ≡ true
    → has_key k (insert j m t) ≡ true
has_key-insert k j m [] h = absurd (cc)
has_key-insert k j m ((i, v) ∷ t) h = ground (arith, has_key-insert k j m t)

-- What an additive statement keeps: a column once there stays.
Additive-Kept :
    (py : Python) (db : Catalog) (n : String) (cols : List ColumnDef) (c : String) (s : Statement)
    → Additive py db n cols s
    → Kept (λ t. has_key c t ≡ true) s
Additive-Kept py db n cols c (create_table tier m cs) a = tt
Additive-Kept py db n cols c (create_index tier m i) a = tt
Additive-Kept py db n cols c (add_column tier m new) a = λ t h. has_key-append c t _ h
Additive-Kept py db n cols c (alter_type tier m other type) a =
    λ t nullable _ h. has_key-insert c other (reported type nullable) t h
Additive-Kept py db n cols c (drop_table tier m cascade) a = absurd a

-- When an alter plan is applied, confirmed or not, every column of every table that the catalog
-- had is still there, in all tiers and for all entities.
pub migration_keeps_columns :
    (accepts : Catalog → Statement → Bool) (py : Python) (db db' : Catalog) (entity : Entity)
    (plan : DdlPlan) (confirmed : Bool) (tier : Tier) (table column : String)
    → build_alter_plan py db entity ≡ ok plan
    → apply_plan accepts plan confirmed db ≡ ok db'
    → Has tier table (λ t. has_key column t ≡ true) db
    → Has tier table (λ t. has_key column t ≡ true) db'
unfolding apply_plan
migration_keeps_columns accepts py db db' entity plan confirmed tier table column built applied
      has =
    elim (Bool-cases (is_destructive plan && not confirmed)) [
      | inl r ↦ absurd (cc (rw (apply_plan, r) at applied))
      | inr r ↦
          let (n, cols, _, _, additive) = build_alter_plan-Additive py db entity plan built in
          execute_all-Kept accepts _ plan.statements db tier table
            (All-map _ _ (Additive-Kept py db n cols column) plan.statements additive)
            (rw (apply_plan, r) at applied) has
    ]
