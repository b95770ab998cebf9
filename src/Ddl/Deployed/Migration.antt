-- ===== src/Ddl/Deployed/Migration.antt =====
-- app/services/ddl.py: a plan without destructive items, applied, makes the tables implement the
-- model.
use open_mdm.Base.{
  String, Bool, true, false, not, ◌≡◌, refl, sym, inl, inr, ◌∙◌, none, some, List, [], ◌∷◌, ◌++◌,
  All, All-map, All-split, Bool-cases, Option-cases, lookup, has_key, subst, if◌then◌else◌,
  is_empty, ◌==◌, eq_iff,
}
use open_mdm.Base.Results.{ok, >>=-eq-ok, ok-injective}
use open_mdm.Ddl.{
  Tier, ColumnDef, ColumnSql, Statement, DdlPlan, create_table, create_index, add_column,
  alter_type, drop_table, is_destructive, Destructive, columns_from_entity, joined, plan_of,
}
use open_mdm.Ddl.Alter.{
  expected, removals, migration, additions, type_changes, tier_plan, migrate_existing,
  build_alter_plan, plan_tiers, is_live,
}
use open_mdm.Ddl.Alter.Additive.{Here, tier_plan-Additive, builder-Additive, migration-Additive}
use open_mdm.Ddl.Alter.Safety.{plan_tiers_cases, build_alter_plan_cases}
use open_mdm.Ddl.Alter.Shape.{Additive}
use open_mdm.Ddl.Catalog.{
  Columns, Catalog, table_of, same_tier, execute_all, effect, apply_plan, metas,
}
use open_mdm.Ddl.Catalog.Effects.{
  Has, Kept, execute_all-Kept, execute_all-step, execute-effect, execute_all-append,
  execute_all-elsewhere, create_cases,
}
use open_mdm.Ddl.Create.{
  builder, column_indexes, build_landing_ddl, build_staging_ddl, build_live_ddl, build_history_ddl,
  business_columns, staging_columns, live_columns, history_columns, landing_columns,
}
use open_mdm.Ddl.Deployed.{Matches, Distinct, Deployed}
use open_mdm.Ddl.Deployed.Created.{created_deploys}
use open_mdm.Ddl.Deployed.Keeps.{names-Kept, gather, Has-put, has_key-lookup-none}
use open_mdm.Ddl.Deployed.Reach.{
  append-empty, additions_reach, type_changes_reach, keep_conforming, keep_pending,
}
use open_mdm.Identifiers.{validate_ident}
use open_mdm.Models.{Entity}
use open_mdm.Python.{Python}

-- Nothing is reported as removed only if every name is expected.
removals-names :
    (tier : Tier) (n : String) (cols : List ColumnDef) (existing : Columns)
    → (removals tier n cols existing).destructive ≡ []
    → (c : String) → has_key c existing ≡ true
    → expected cols c ≡ true
unfolding removals
removals-names tier n cols [] none' c has = absurd (cc)
removals-names tier n cols ((k, m) ∷ existing) none' c has = elim (Bool-cases (expected cols k)) [
  | inl e ↦ elim (Bool-cases (k == c)) [
    | inl f ↦ subst (λ x. expected cols x ≡ true) ((eq_iff k c).0 f) e
    | inr f ↦ removals-names tier n cols existing (rw e at none') c (rw f at has)
  ]
  | inr e ↦ absurd (cc (rw e at none'))
]

moved :
    (P : Columns → Type 0) (n : String) (tier : Tier) (db db' : Catalog)
    → table_of db' tier n ≡ table_of db tier n
    → Has tier n P db
    → Has tier n P db'
moved P n tier db db' same (t, here, p) = (t, same ∙ here, p)

nothing : (xs : List Destructive) → not (is_empty xs) ≡ false → xs ≡ []
nothing [] h = refl
nothing (x ∷ xs) h = absurd (cc)

module _ (accepts : Catalog → Statement → Bool) (py : Python) (ref : Catalog) (n : String)
    (cols : List ColumnDef) (distinct : Distinct cols) where
  migration_deploys :
      (tier : Tier) (existing : Columns) (plan : DdlPlan) (db : Catalog) {db' : Catalog}
      → table_of ref tier n ≡ some existing
      → migration py tier n cols existing ≡ ok plan
      → plan.destructive ≡ []
      → table_of db tier n ≡ some existing
      → execute_all accepts plan.statements db ≡ ok db'
      → Has tier n (Matches py cols) db'
  unfolding migration
  migration_deploys tier existing plan db {db'} found built safe here run =
      let (added, one, more) = >>=-eq-ok (additions py tier n existing cols) _ built in
      let (changed, two, last) = >>=-eq-ok (type_changes py tier n existing cols) _ more in
      let rest =
        joined (removals tier n cols existing)
          (plan_of (if is_live tier then column_indexes n cols else [])) in
      let e : joined added (joined changed rest) ≡ plan = ok-injective last in
      let (safe_a, safe_cr) =
        append-empty added.destructive (changed.destructive ++ rest.destructive)
          (rw (← e) at safe) in
      let (safe_c, safe_r) = append-empty changed.destructive rest.destructive safe_cr in
      let (safe_names, _) = append-empty (removals tier n cols existing).destructive [] safe_r in
      let additive =
        rw (← e) at (migration-Additive py ref n cols tier existing found plan built) in
      let (of_a, of_cr) =
        All-split _ added.statements (changed.statements ++ rest.statements) additive in
      let (of_c, of_r) = All-split _ changed.statements rest.statements of_cr in
      let (mid, run_a, run_cr) =
        execute_all-append accepts added.statements (changed.statements ++ rest.statements) db
          (rw (← e) at run) in
      let (later, run_c, run_r) =
        execute_all-append accepts changed.statements rest.statements mid run_cr in
      gather py cols tier n db'
        (execute_all-Kept accepts (λ t. (c : String) → has_key c t ≡ true → expected cols c ≡ true)
          (added.statements ++ (changed.statements ++ rest.statements)) db tier n
          (All-map _ _ (λ s h. names-Kept py ref n cols s h.1)
            (added.statements ++ (changed.statements ++ rest.statements)) additive)
          (rw (← e) at run) (existing, here, removals-names tier n cols existing safe_names))
        (λ col among.
          keep_conforming accepts py ref n cols tier existing found col distinct among
            rest.statements later of_r run_r
            (elim (Option-cases (lookup col.name existing)) [
              | inl lacks ↦
                  keep_conforming accepts py ref n cols tier existing found col distinct among
                    changed.statements mid of_c run_c
                    (additions_reach accepts py ref n cols tier existing found col distinct among
                      cols (λ _ m. m) added db one run_a
                      (has_key-lookup-none col.name existing lacks) among)
              | inr (cur, at_col) ↦
                  type_changes_reach accepts py ref n cols tier existing found col distinct among
                    cur cols (λ _ m. m) changed mid two safe_c run_c at_col among
                    (keep_pending accepts py ref n cols tier existing found col distinct among cur
                      added.statements db of_a run_a (existing, here, inr at_col))
            ]))

  migrate_deploys :
      (tier : Tier) (existing : Columns) (plan : DdlPlan) (db : Catalog) {db' : Catalog}
      → same_tier tier Tier.landing ≡ false
      → table_of ref tier n ≡ some existing
      → migrate_existing py tier n cols existing ≡ ok plan
      → plan.destructive ≡ []
      → table_of db tier n ≡ some existing
      → execute_all accepts plan.statements db ≡ ok db'
      → Has tier n (Matches py cols) db'
  migrate_deploys Tier.landing existing plan db typed found built safe here run = absurd (cc)
  migrate_deploys Tier.staging existing plan db typed found built safe here run =
      migration_deploys Tier.staging existing plan db found built safe here run
  migrate_deploys Tier.live existing plan db typed found built safe here run =
      migration_deploys Tier.live existing plan db found built safe here run
  migrate_deploys Tier.history existing plan db typed found built safe here run =
      migration_deploys Tier.history existing plan db found built safe here run

  -- The statements of a fresh tier, a CREATE TABLE first.
  builder_deploys :
      (tier : Tier) (ss : List Statement) (db : Catalog) {db' : Catalog}
      → same_tier tier Tier.landing ≡ false
      → table_of ref tier n ≡ none
      → builder py tier n cols ≡ ok ss
      → table_of db tier n ≡ none
      → execute_all accepts ss db ≡ ok db'
      → Has tier n (Matches py cols) db'
  unfolding builder build_staging_ddl build_live_ddl build_history_ddl
  builder_deploys Tier.landing ss db typed gone made here run = absurd (cc)
  builder_deploys Tier.staging ss db typed gone made here run =
      let (body, built, e) = >>=-eq-ok (business_columns py false cols) _ made in
      let e : _ ≡ ss = ok-injective e in
      created_deploys accepts py ref n cols distinct Tier.staging staging_columns body false _ db
        refl built ((rw (← e) at (builder-Additive py ref n cols Tier.staging gone ss made)).1) here
        (rw (← e) at run)
  builder_deploys Tier.live ss db typed gone made here run =
      let (body, built, e) = >>=-eq-ok (business_columns py true cols) _ made in
      let e : _ ≡ ss = ok-injective e in
      created_deploys accepts py ref n cols distinct Tier.live live_columns body true _ db refl
        built ((rw (← e) at (builder-Additive py ref n cols Tier.live gone ss made)).1) here
        (rw (← e) at run)
  builder_deploys Tier.history ss db typed gone made here run =
      let (body, built, e) = >>=-eq-ok (business_columns py false cols) _ made in
      let e : _ ≡ ss = ok-injective e in
      created_deploys accepts py ref n cols distinct Tier.history history_columns body false _ db
        refl built ((rw (← e) at (builder-Additive py ref n cols Tier.history gone ss made)).1) here
        (rw (← e) at run)

  -- The plan of one tier, executed on the table that it was made for.
  tier_deploys :
      (tier : Tier) (plan : DdlPlan) (db : Catalog) {db' : Catalog}
      → same_tier tier Tier.landing ≡ false
      → tier_plan py ref n cols tier ≡ ok plan
      → plan.destructive ≡ []
      → table_of db tier n ≡ table_of ref tier n
      → execute_all accepts plan.statements db ≡ ok db'
      → Has tier n (Matches py cols) db'
  unfolding tier_plan
  tier_deploys tier plan db typed built safe same run = elim (Option-cases (table_of ref tier n)) [
    | inl gone ↦
        let (ss, made, e) = >>=-eq-ok (builder py tier n cols) _ (rw (tier_plan, gone) at built) in
        builder_deploys tier ss db typed gone made (same ∙ gone) (rw (← ok-injective e) at run)
    | inr (existing, found) ↦
        migrate_deploys tier existing plan db typed found (rw (tier_plan, found) at built) safe
          (same ∙ found) run
  ]

  exists-Kept : (s : Statement) → Additive py ref n cols s → Kept (λ t. Unit {0}) s
  exists-Kept (create_table tier m cs) a = tt
  exists-Kept (create_index tier m i) a = tt
  exists-Kept (add_column tier m c) a = λ t h. tt
  exists-Kept (alter_type tier m c type) a = λ t nullable old h. tt
  exists-Kept (drop_table tier m cascade) a = absurd a

  keep_existing :
      (ss : List Statement) (db : Catalog) {db' : Catalog}
      → All (Here py ref n cols Tier.landing) ss
      → execute_all accepts ss db ≡ ok db'
      → Has Tier.landing n (λ t. Unit {0}) db
      → Has Tier.landing n (λ t. Unit {0}) db'
  keep_existing ss db here run has =
      execute_all-Kept accepts (λ t. Unit {0}) ss db Tier.landing n
        (All-map _ _ (λ s h. exists-Kept s h.1) ss here) run has

  create_exists :
      (cs : List ColumnSql) (more : List Statement) (db : Catalog) {db' : Catalog}
      → All (Here py ref n cols Tier.landing) more
      → execute_all accepts (create_table Tier.landing n cs ∷ more) db ≡ ok db'
      → Has Tier.landing n (λ t. Unit {0}) db'
  unfolding effect
  create_exists cs more db here run =
      let (next, one, last) =
        execute_all-step accepts (create_table Tier.landing n cs) more db run in
      keep_existing more next here last
        (elim (create_cases Tier.landing n cs db
          (execute-effect accepts (create_table Tier.landing n cs) db one)) [
            | inl (t, there, same) ↦ subst (Has Tier.landing n (λ t. Unit {0})) same (t, there, tt)
            | inr (_, _, put) ↦
                subst (Has Tier.landing n (λ t. Unit {0})) put
                  (Has-put (λ t. Unit {0}) Tier.landing n (metas cs) db tt)
          ])

  -- The landing table is there after its plan.
  landing_deploys :
      (plan : DdlPlan) (db : Catalog) {db' : Catalog}
      → tier_plan py ref n cols Tier.landing ≡ ok plan
      → table_of db Tier.landing n ≡ table_of ref Tier.landing n
      → execute_all accepts plan.statements db ≡ ok db'
      → Has Tier.landing n (λ t. Unit {0}) db'
  unfolding tier_plan builder build_landing_ddl
  landing_deploys plan db built same run = elim (Option-cases (table_of ref Tier.landing n)) [
    | inl gone ↦
        let all_here =
          builder-Additive py ref n cols Tier.landing gone (build_landing_ddl n) refl in
        let fresh : plan_of (build_landing_ddl n) ≡ plan =
          ok-injective (rw (tier_plan, gone) at built) in
        create_exists landing_columns _ db all_here.1 (rw (← fresh) at run)
    | inr (existing, found) ↦
        keep_existing plan.statements db (tier_plan-Additive py ref n cols Tier.landing plan built)
          run (existing, same ∙ found, tt)
  ]

  -- The plan of one tier leaves the tables of the other tiers alone.
  others :
      (own tier : Tier) (plan : DdlPlan) (db : Catalog) {db' : Catalog}
      → same_tier tier own ≡ false
      → tier_plan py ref n cols own ≡ ok plan
      → execute_all accepts plan.statements db ≡ ok db'
      → table_of db' tier n ≡ table_of db tier n
  others own tier plan db apart built run =
      execute_all-elsewhere accepts plan.statements db tier n
        (All-map _ _ (λ s here. rw here.0 apart) plan.statements
          (tier_plan-Additive py ref n cols own plan built))
        run

  pub plan_tiers_deploys :
      (plan : DdlPlan) {db' : Catalog}
      → plan_tiers py ref n cols ≡ ok plan
      → plan.destructive ≡ []
      → execute_all accepts plan.statements ref ≡ ok db'
      → Deployed py n cols db'
  plan_tiers_deploys plan {db'} built safe run =
      let (a, b, c, d, ha, hb, hc, hd, e) = plan_tiers_cases py ref n cols built in
      let (safe_a, safe_bcd) =
        append-empty a.destructive (b.destructive ++ (c.destructive ++ d.destructive))
          (rw (← e) at safe) in
      let (safe_b, safe_cd) =
        append-empty b.destructive (c.destructive ++ d.destructive) safe_bcd in
      let (safe_c, safe_d) = append-empty c.destructive d.destructive safe_cd in
      let (db1, run_a, run_bcd) =
        execute_all-append accepts a.statements (b.statements ++ (c.statements ++ d.statements)) ref
          (rw (← e) at run) in
      let (db2, run_b, run_cd) =
        execute_all-append accepts b.statements (c.statements ++ d.statements) db1 run_bcd in
      let (db3, run_c, run_d) = execute_all-append accepts c.statements d.statements db2 run_cd in
      record {
        landing =
            moved (λ t. Unit {0}) n Tier.landing db1 db'
              (others Tier.history Tier.landing d db3 refl hd run_d
                ∙ others Tier.live Tier.landing c db2 refl hc run_c
                ∙ others Tier.staging Tier.landing b db1 refl hb run_b)
              (landing_deploys a ref ha refl run_a);
        staging =
            moved (Matches py cols) n Tier.staging db2 db'
              (others Tier.history Tier.staging d db3 refl hd run_d
                ∙ others Tier.live Tier.staging c db2 refl hc run_c)
              (tier_deploys Tier.staging b db1 refl hb safe_b
                (others Tier.landing Tier.staging a ref refl ha run_a) run_b);
        live =
            moved (Matches py cols) n Tier.live db3 db'
              (others Tier.history Tier.live d db3 refl hd run_d)
              (tier_deploys Tier.live c db2 refl hc safe_c
                (others Tier.staging Tier.live b db1 refl hb run_b
                  ∙ others Tier.landing Tier.live a ref refl ha run_a)
                run_c);
        history =
            tier_deploys Tier.history d db3 refl hd safe_d
              (others Tier.live Tier.history c db2 refl hc run_c
                ∙ others Tier.staging Tier.history b db1 refl hb run_b
                ∙ others Tier.landing Tier.history a ref refl ha run_a)
              run_d;
      }

-- When a plan has nothing destructive to report and is applied, confirmed or not, the tables
-- implement the model, provided that the names of the columns differ: the landing table exists, and
-- the staging, live and history tables have every column of the model, with the type of the model
-- (unless the deployed type is one that no logical type stands for), and beyond those only columns
-- of the platform.
pub build_alter_plan-deploys :
    (accepts : Catalog → Statement → Bool) (py : Python) (db db' : Catalog) (entity : Entity)
    (n : String) (cols : List ColumnDef) (plan : DdlPlan) (confirmed : Bool)
    → validate_ident py entity.name ≡ ok n
    → columns_from_entity py entity ≡ ok cols
    → Distinct cols
    → build_alter_plan py db entity ≡ ok plan
    → is_destructive plan ≡ false
    → apply_plan accepts plan confirmed db ≡ ok db'
    → Deployed py n cols db'
unfolding apply_plan
build_alter_plan-deploys accepts py db db' entity n cols plan confirmed named columns distinct built
      safe applied =
    let (n', cols', named', columns', tiers) = build_alter_plan_cases py db entity built in
    let same_n : n' ≡ n = ok-injective (sym named' ∙ named) in
    let same_c : cols' ≡ cols = ok-injective (sym columns' ∙ columns) in
    plan_tiers_deploys accepts py db n cols distinct plan (rw (same_n, same_c) at tiers)
      (nothing plan.destructive safe) (rw (apply_plan, safe) at applied)
