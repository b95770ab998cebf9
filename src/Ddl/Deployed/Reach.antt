-- ===== src/Ddl/Deployed/Reach.antt =====
-- app/services/ddl.py, `build_alter_plan`: executed on the table that it was made for, the plan of a
-- tier brings each column of the model to its type.
use open_mdm.Base.{
  String, Bool, false, not, ◌≡◌, refl, sym, ◌⊎◌, inl, inr, ◌∙◌, none, some, List, [], ◌∷◌, ◌++◌,
  All, All-map, Bool-cases, lookup, has_key, subst, if◌then◌else◌, eq_refl, lookup-insert,
}
use open_mdm.Base.Results.{ok, ok-injective}
use open_mdm.Ddl.{
  Tier, ColumnDef, ColumnSql, Statement, add_column, alter_type, sql_type, DdlPlan, plan_of,
}
use open_mdm.Ddl.Alter.{
  logical_from_pg, render_pg, additions, add_missing, type_change, type_changes, same_type,
}
use open_mdm.Ddl.Alter.Additive.{Here, additions-Additive, type_changes-Additive, Outcome-Additive}
use open_mdm.Ddl.Alter.Shape.{
  Among, Added, joined_cases, add_missing_lem, type_change_cases, Outcome, absent, unknown,
  compared,
}
use open_mdm.Ddl.Alter.Types.{render_pg-reported, same_type_sound}
use open_mdm.Ddl.Catalog.{ColumnMeta, Columns, Catalog, table_of, reported, execute_all, effect}
use open_mdm.Ddl.Catalog.Effects.{
  Has, execute_all-append, execute_all-Kept, execute_all-step, execute-effect, add_cases,
  alter_cases,
}
use open_mdm.Ddl.Deployed.{Conforms, Distinct}
use open_mdm.Ddl.Deployed.Keeps.{
  Conforms-Kept, Pending, Pending-Kept, Has-put, lookup-append_missing,
}
use open_mdm.Identifiers.Types.{PgType, is_safe_widening}
use open_mdm.Python.{Python}

pub append-empty : {A : Type 0} (xs ys : List A) → xs ++ ys ≡ [] → (xs ≡ []) × (ys ≡ [])
append-empty [] ys h = (refl, h)
append-empty (x ∷ xs) ys h = absurd (cc)

module _ (accepts : Catalog → Statement → Bool) (py : Python) (ref : Catalog) (n : String)
    (all : List ColumnDef) (tier : Tier) (existing : Columns)
    (found : table_of ref tier n ≡ some existing) (col : ColumnDef) (distinct : Distinct all)
    (in_all : Among col all) where
  pub keep_conforming :
      (ss : List Statement) (db : Catalog) {db' : Catalog}
      → All (Here py ref n all tier) ss
      → execute_all accepts ss db ≡ ok db'
      → Has tier n (Conforms py col) db
      → Has tier n (Conforms py col) db'
  keep_conforming ss db here run has =
      execute_all-Kept accepts (Conforms py col) ss db tier n
        (All-map _ _ (λ s h. Conforms-Kept py ref n all col distinct in_all s h.1) ss here) run has

  pub keep_pending :
      (cur : ColumnMeta) (ss : List Statement) (db : Catalog) {db' : Catalog}
      → All (Here py ref n all tier) ss
      → execute_all accepts ss db ≡ ok db'
      → Has tier n (Pending py ref n all col distinct in_all cur) db
      → Has tier n (Pending py ref n all col distinct in_all cur) db'
  keep_pending cur ss db here run has =
      execute_all-Kept accepts (Pending py ref n all col distinct in_all cur) ss db tier n
        (All-map _ _ (λ s h. Pending-Kept py ref n all col distinct in_all cur s h.1) ss here) run
        has

  -- A column that the table lacks is added with its type.
  add_one :
      (c : ColumnSql) (db : Catalog) {db' : Catalog}
      → Added py existing col c
      → execute_all accepts (add_column tier n c ∷ []) db ≡ ok db'
      → Has tier n (Conforms py col) db'
  unfolding effect execute_all
  add_one c db added run =
      let (next, one, last) = execute_all-step accepts (add_column tier n c) [] db run in
      let (t, at_table, lacks, put) = add_cases tier n c db (execute-effect accepts _ db one) in
      subst (Has tier n (Conforms py col)) (put ∙ ok-injective last) (
        Has-put (Conforms py col) tier n _ db (
          reported c.type (not c.not_null),
          lookup-append_missing col.name t _ (subst (λ x. has_key x t ≡ false) added.named lacks)
              ∙ (rw (added.named, eq_refl col.name) refl),
          inl (c.type, added.typed, render_pg-reported py col c.type _ added.typed),
        ))

  pub additions_reach :
      (cols : List ColumnDef)
      → ((d : ColumnDef) → Among d cols → Among d all)
      → (plan : DdlPlan) (db : Catalog) {db' : Catalog}
      → additions py tier n existing cols ≡ ok plan
      → execute_all accepts plan.statements db ≡ ok db'
      → has_key col.name existing ≡ false
      → Among col cols
      → Has tier n (Conforms py col) db'
  unfolding additions
  additions_reach [] sub plan db built run lacks among = absurd among
  additions_reach (d ∷ ds) sub plan db built run lacks among =
      let (a, b, here, rest, e) =
        joined_cases (if has_key d.name existing then ok (plan_of []) else add_missing py tier n d)
          _ built in
      let (mid, first, second) =
        execute_all-append accepts a.statements b.statements db (rw (← e) at run) in
      elim among [
        | inl head ↦
            keep_conforming b.statements mid
              (additions-Additive py ref n all tier existing found ds (λ x m. sub x (inr m)) b rest)
              second (head_added head a here mid first)
        | inr tail ↦ additions_reach ds (λ x m. sub x (inr m)) b mid rest second lacks tail
      ]
    where
      head_added :
          d ≡ col
          → (a : DdlPlan)
          → (if has_key d.name existing then ok (plan_of []) else add_missing py tier n d) ≡ ok a
          → (mid : Catalog) → execute_all accepts a.statements db ≡ ok mid
          → Has tier n (Conforms py col) mid
      head_added e a here mid first =
          let missing = subst (λ (x : ColumnDef). has_key x.name existing ≡ false) (sym e) lacks in
          let (c, s, _, added) =
            add_missing_lem py tier n existing d missing (rw missing at here) in
          add_one c db (subst (λ x. Added py existing x c) e added) (rw s at first)

  -- The change of a type, executed.
  alter_one :
      (type : PgType) (db : Catalog) {db' : Catalog}
      → sql_type py col ≡ ok type
      → execute_all accepts (alter_type tier n col.name type ∷ []) db ≡ ok db'
      → Has tier n (Conforms py col) db'
  unfolding effect execute_all
  alter_one type db typed run =
      let (next, one, last) =
        execute_all-step accepts (alter_type tier n col.name type) [] db run in
      let (t, m, at_table, at_col, put) =
        alter_cases tier n col.name type db (execute-effect accepts _ db one) in
      subst (Has tier n (Conforms py col)) (put ∙ ok-injective last) (
        Has-put (Conforms py col) tier n _ db (
          reported type m.nullable,
          lookup-insert col.name col.name (reported type m.nullable) t
              ∙ (rw (eq_refl col.name) refl),
          inl (type, typed, render_pg-reported py col type _ typed),
        ))

  -- A column that needs no change.
  settle :
      (cur cur' : ColumnMeta) (db : Catalog) {db' : Catalog}
      → lookup col.name existing ≡ some cur
      → lookup col.name existing ≡ some cur'
      → (((type : PgType) × (sql_type py col ≡ ok type) × (render_pg cur' ≡ type))
          ⊎ (logical_from_pg cur' ≡ none))
      → execute_all accepts [] db ≡ ok db'
      → Has tier n (Pending py ref n all col distinct in_all cur) db
      → Has tier n (Conforms py col) db'
  unfolding execute_all
  settle cur cur' db e e' is run (t, here, p) =
      subst (Has tier n (Conforms py col)) (ok-injective run)
        (t, here, elim p [ inl c ↦ c | inr l ↦ (cur', l ∙ sym e ∙ e', is) ])

  -- What the comparison of this column comes to, executed with nothing destructive to report.
  change_one :
      (cur : ColumnMeta) (a : DdlPlan) (db : Catalog) {db' : Catalog}
      → lookup col.name existing ≡ some cur
      → Outcome py tier n existing col a
      → a.destructive ≡ []
      → execute_all accepts a.statements db ≡ ok db'
      → Has tier n (Pending py ref n all col distinct in_all cur) db
      → Has tier n (Conforms py col) db'
  change_one cur a db e (absent e' _) safe run has = absurd (cc)
  change_one cur a db e (unknown cur' e' none' p) safe run has =
      settle cur cur' db e e' (inr none') (rw p at run) has
  change_one cur a db e (compared cur' old type e' known typed p) safe run has =
      elim (Bool-cases (same_type type (render_pg cur'))) [
        | inl same ↦
            settle cur cur' db e e' (inl (type, typed, sym (same_type_sound _ _ same)))
              (rw (p, same) at run) has
        | inr other ↦
            elim (Bool-cases (is_safe_widening py old cur'.length col.data_type col.length)) [
              | inl wide ↦ alter_one type db typed (rw (p, other, wide) at run)
              | inr narrow ↦ absurd (cc (rw (p, other, narrow) at safe))
            ]
      ]

  pub type_changes_reach :
      (cur : ColumnMeta) (cols : List ColumnDef)
      → ((d : ColumnDef) → Among d cols → Among d all)
      → (plan : DdlPlan) (db : Catalog) {db' : Catalog}
      → type_changes py tier n existing cols ≡ ok plan
      → plan.destructive ≡ []
      → execute_all accepts plan.statements db ≡ ok db'
      → lookup col.name existing ≡ some cur
      → Among col cols
      → Has tier n (Pending py ref n all col distinct in_all cur) db
      → Has tier n (Conforms py col) db'
  unfolding type_changes
  type_changes_reach cur [] sub plan db built safe run e among has = absurd among
  type_changes_reach cur (d ∷ ds) sub plan db built safe run e among has =
      let (a, b, here, rest, j) = joined_cases (type_change py tier n existing d) _ built in
      let (safe_a, safe_b) = append-empty a.destructive b.destructive (rw (← j) at safe) in
      let (mid, first, second) =
        execute_all-append accepts a.statements b.statements db (rw (← j) at run) in
      let outcome = type_change_cases py tier n existing d a here in
      elim among [
        | inl head ↦
            keep_conforming b.statements mid
              (type_changes-Additive py ref n all tier existing found ds (λ x m. sub x (inr m)) b
                rest)
              second
              (change_one cur a db e (subst (λ x. Outcome py tier n existing x a) head outcome)
                safe_a first has)
        | inr tail ↦
            type_changes_reach cur ds (λ x m. sub x (inr m)) b mid rest safe_b second e tail
              (keep_pending cur a.statements db
                (Outcome-Additive py ref n all tier existing found d (sub d (inl refl)) a outcome)
                first has)
      ]
