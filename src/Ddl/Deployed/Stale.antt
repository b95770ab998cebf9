-- ===== src/Ddl/Deployed/Stale.antt =====
-- app/services/ddl.py, `build_create_plan`: executed where the tables exist, it changes none of them.
use open_mdm.Base.{
  String, Bool, true, false, ◌≡◌, refl, sym, ap, ◌∙◌, inl, inr, some, List, [], ◌∷◌, ◌++◌, All,
  All-append, subst, Bool-cases, some-injective,
}
use open_mdm.Base.Results.{Result, ok, err, ◌>>=◌, >>=-eq-ok, ok-injective}
use open_mdm.Ddl.{
  Tier, ColumnDef, Statement, create_table, create_index, add_column, alter_type, drop_table,
  DdlPlan, DdlError, Warning, checked, columns_from_entity,
}
use open_mdm.Ddl.Alter.Shape.{checked-ok}
use open_mdm.Ddl.Catalog.{Catalog, effect, create, execute_all}
use open_mdm.Ddl.Catalog.Effects.{Has, execute_all-step, execute-effect}
use open_mdm.Ddl.Create.{
  builder, column_indexes, business_columns, build_landing_ddl, build_staging_ddl, build_live_ddl,
  build_history_ddl, build_create_plan, key_warnings,
}
use open_mdm.Identifiers.{validate_ident}
use open_mdm.Models.{Entity}
use open_mdm.Python.{Python}

-- A statement that finds what it would create.
abbrev Idle : Catalog → Statement → Type 0
Idle db (create_table tier n cs) = Has tier n (λ t. Unit {0}) db
Idle db (create_index tier n i) = Unit {0}
Idle db (add_column tier n c) = ⊥
Idle db (alter_type tier n c type) = ⊥
Idle db (drop_table tier n cascade) = ⊥

effect-Idle : (s : Statement) (db : Catalog) → Idle db s → effect s db ≡ some db
unfolding effect create
effect-Idle (create_table tier n cs) db (t, there, _) = rw (create, there) refl
effect-Idle (create_index tier n i) db idle = refl
effect-Idle (add_column tier n c) db idle = absurd idle
effect-Idle (alter_type tier n c type) db idle = absurd idle
effect-Idle (drop_table tier n cascade) db idle = absurd idle

execute_all-Idle :
    (accepts : Catalog → Statement → Bool) (ss : List Statement) (db : Catalog) {db' : Catalog}
    → All (Idle db) ss
    → execute_all accepts ss db ≡ ok db'
    → db' ≡ db
unfolding execute_all
execute_all-Idle accepts [] db idle h = sym (ok-injective h)
execute_all-Idle accepts (s ∷ ss) db (here, idle) h =
    let (next, one, more) = execute_all-step accepts s ss db h in
    let same : next ≡ db =
      some-injective next db (sym (execute-effect accepts s db one) ∙ effect-Idle s db here) in
    execute_all-Idle accepts ss db idle (rw same at more)

module _ (py : Python) (db : Catalog) (n : String) (cols : List ColumnDef) where
  column_indexes-Idle : (cs : List ColumnDef) → All (Idle db) (column_indexes n cs)
  unfolding column_indexes
  column_indexes-Idle [] = tt
  column_indexes-Idle (col ∷ cs) = elim (Bool-cases col.unique) [
    | inl u ↦ rw u (tt, column_indexes-Idle cs)
    | inr u ↦ elim (Bool-cases col.indexed) [
      | inl i ↦ rw (u, i) (tt, column_indexes-Idle cs)
      | inr i ↦ rw (u, i) (column_indexes-Idle cs)
    ]
  ]

  builder-Idle :
      (tier : Tier) (ss : List Statement)
      → Has tier n (λ t. Unit {0}) db
      → builder py tier n cols ≡ ok ss
      → All (Idle db) ss
  unfolding builder build_landing_ddl build_staging_ddl build_live_ddl build_history_ddl
  builder-Idle Tier.landing ss has h =
      subst (All (Idle db)) (ok-injective h) (has, (tt, (tt, (tt, tt))))
  builder-Idle Tier.staging ss has h =
      let (body, _, e) = >>=-eq-ok (business_columns py false cols) _ h in
      subst (All (Idle db)) (ok-injective e) (has, (tt, (tt, tt)))
  builder-Idle Tier.live ss has h =
      let (body, _, e) = >>=-eq-ok (business_columns py true cols) _ h in
      subst (All (Idle db)) (ok-injective e)
        (has, All-append _ (column_indexes n cols) _ (column_indexes-Idle cols) (tt, tt))
  builder-Idle Tier.history ss has h =
      let (body, _, e) = >>=-eq-ok (business_columns py false cols) _ h in
      subst (All (Idle db)) (ok-injective e) (has, (tt, tt))

abbrev whole :
    List Statement → List Statement → List Statement → List Statement → List Warning → DdlPlan
whole a b c d warnings = record {
  statements = a ++ b ++ c ++ d;
  warnings = warnings;
  destructive = [];
}

four_cases :
    (ra rb rc rd : Result DdlError (List Statement)) (w : List Warning) {plan : DdlPlan}
    → (ra >>= λ a. rb >>= λ b. rc >>= λ c. rd >>= λ d. ok (whole a b c d w)) ≡ ok plan
    → (a : List Statement) × (b : List Statement) × (c : List Statement) × (d : List Statement)
      × (ra ≡ ok a)
      × (rb ≡ ok b)
      × (rc ≡ ok c)
      × (rd ≡ ok d)
      × (a ++ b ++ c ++ d ≡ plan.statements)
four_cases (ok a) (ok b) (ok c) (ok d) w h =
    (a, b, c, d, refl, refl, refl, refl, ap (λ (p : DdlPlan). p.statements) (ok-injective h))
four_cases (err e) rb rc rd w h = absurd (cc)
four_cases (ok a) (err e) rc rd w h = absurd (cc)
four_cases (ok a) (ok b) (err e) rd w h = absurd (cc)
four_cases (ok a) (ok b) (ok c) (err e) w h = absurd (cc)

-- Where the four tables exist, the CREATE plan, executed, leaves the catalog as it is, whatever the
-- columns of the entity are: each CREATE TABLE IF NOT EXISTS finds its table.
pub create_plan_stale :
    (accepts : Catalog → Statement → Bool) (py : Python) (db db' : Catalog) (entity : Entity)
    (n : String) (plan : DdlPlan)
    → validate_ident py entity.name ≡ ok n
    → ((tier : Tier) → Has tier n (λ t. Unit {0}) db)
    → build_create_plan py entity ≡ ok plan
    → execute_all accepts plan.statements db ≡ ok db'
    → db' ≡ db
unfolding build_create_plan
create_plan_stale accepts py db db' entity n plan named has built run =
    let (n', named', h1) = >>=-eq-ok (checked (validate_ident py entity.name)) _ built in
    let same : n' ≡ n = ok-injective (sym (checked-ok _ named') ∙ named) in
    let (cols, _, h2) = >>=-eq-ok (checked (columns_from_entity py entity)) _ h1 in
    let (a, b, c, d, ha, hb, hc, hd, e) =
      four_cases (builder py Tier.landing n' cols) (builder py Tier.staging n' cols)
        (builder py Tier.live n' cols) (builder py Tier.history n' cols) (key_warnings entity) h2 in
    let idle = builder-Idle py db n' cols in
    let there = λ (tier : Tier). subst (λ x. Has tier x (λ t. Unit {0}) db) (sym same) (has tier) in
    execute_all-Idle accepts plan.statements db
      (subst (All (Idle db)) e (
        All-append _ ((a ++ b) ++ c) d
          (All-append _ (a ++ b) c
            (All-append _ a b (idle Tier.landing a (there Tier.landing) ha)
              (idle Tier.staging b (there Tier.staging) hb))
            (idle Tier.live c (there Tier.live) hc))
          (idle Tier.history d (there Tier.history) hd)))
      run
