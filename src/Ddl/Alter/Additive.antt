-- ===== src/Ddl/Alter/Additive.antt =====
-- app/services/ddl.py, `build_alter_plan`: every statement of a plan is additive.
use open_mdm.Base.{
  String, true, false, ◌≡◌, refl, inl, inr, none, some, List, [], ◌∷◌, All, All-append, Bool-cases,
  Option-cases, has_key, subst, if◌then◌else◌,
}
use open_mdm.Base.Results.{ok, >>=-eq-ok, ok-injective}
use open_mdm.Ddl.{Tier, ColumnDef, Statement, DdlPlan, plan_of}
use open_mdm.Ddl.Alter.{
  render_pg, same_type, add_missing, additions, type_change, type_changes, removals, migration,
  tier_plan, is_live, migrate_existing, expected,
}
use open_mdm.Ddl.Catalog.{Columns, Catalog, table_of}
use open_mdm.Ddl.Alter.Shape.{
  Among, Additive, joined_cases, statements, add_missing_lem, Outcome, absent, unknown, compared,
  type_change_cases,
}
use open_mdm.Ddl.Catalog.Effects.{tier_of}
use open_mdm.Ddl.Create.{
  column_indexes, builder, build_landing_ddl, build_staging_ddl, build_live_ddl, build_history_ddl,
  business_columns,
}
use open_mdm.Identifiers.Types.{is_safe_widening}
use open_mdm.Python.{Python}

module _ (py : Python) (db : Catalog) (n : String) (all : List ColumnDef) (tier : Tier) where
  -- A statement of this tier.
  abbrev pub Here : Statement → Type 0
  Here s = (tier_of s ≡ tier) × Additive py db n all s

  pub additions-Additive :
      (existing : Columns)
      → table_of db tier n ≡ some existing
      → (cols : List ColumnDef) → ((col : ColumnDef) → Among col cols → Among col all)
      → (plan : DdlPlan) → additions py tier n existing cols ≡ ok plan
      → All Here plan.statements
  unfolding additions
  additions-Additive existing found [] sub plan h =
      subst (All Here) (statements (ok-injective h)) tt
  additions-Additive existing found (col ∷ cols) sub plan h =
      let (a, b, here, rest, e) =
        joined_cases
          (if has_key col.name existing then ok (plan_of []) else add_missing py tier n col) _ h in
      subst (λ (p : DdlPlan). All Here p.statements) e
        (All-append Here a.statements b.statements (one a here)
          (additions-Additive existing found cols (λ d m. sub d (inr m)) b rest))
    where
      one :
          (a : DdlPlan)
          → (if has_key col.name existing then ok (plan_of []) else add_missing py tier n col)
            ≡ ok a
          → All Here a.statements
      one a here = elim (Bool-cases (has_key col.name existing)) [
        | inl t ↦ subst (All Here) (statements (ok-injective (rw t at here))) tt
        | inr f ↦
            let (c, s, _, added) = add_missing_lem py tier n existing col f (rw f at here) in
            rw s ((refl, (existing, col, refl, found, sub col (inl refl), added)), tt)
      ]

  pub Outcome-Additive :
      (existing : Columns)
      → table_of db tier n ≡ some existing
      → (col : ColumnDef) → Among col all
      → (a : DdlPlan) → Outcome py tier n existing col a
      → All Here a.statements
  Outcome-Additive existing found col in_all a (absent _ e) = rw e tt
  Outcome-Additive existing found col in_all a (unknown _ _ _ e) = rw e tt
  Outcome-Additive existing found col in_all a (compared cur old type at_c known typed e) =
      elim (Bool-cases (same_type type (render_pg cur))) [
        | inl same ↦ rw (e, same) tt
        | inr other ↦
            elim (Bool-cases (is_safe_widening py old cur.length col.data_type col.length)) [
              | inl safe ↦
                  rw (e, other, safe)
                    (
                      (
                        refl,
                        (
                          existing,
                          col,
                          refl,
                          refl,
                          found,
                          in_all,
                          record {
                            cur = cur;
                            old = old;
                            found = at_c;
                            known = known;
                            typed = typed;
                            safe = safe;
                          },
                        ),
                      ),
                      tt,
                    )
              | inr unsafe ↦ rw (e, other, unsafe) tt
            ]
      ]

  pub type_changes-Additive :
      (existing : Columns)
      → table_of db tier n ≡ some existing
      → (cols : List ColumnDef) → ((col : ColumnDef) → Among col cols → Among col all)
      → (plan : DdlPlan) → type_changes py tier n existing cols ≡ ok plan
      → All Here plan.statements
  unfolding type_changes
  type_changes-Additive existing found [] sub plan h =
      subst (All Here) (statements (ok-injective h)) tt
  type_changes-Additive existing found (col ∷ cols) sub plan h =
      let (a, b, here, rest, e) = joined_cases (type_change py tier n existing col) _ h in
      subst (λ (p : DdlPlan). All Here p.statements) e
        (All-append Here a.statements b.statements
          (Outcome-Additive existing found col (sub col (inl refl)) a
            (type_change_cases py tier n existing col a here))
          (type_changes-Additive existing found cols (λ d m. sub d (inr m)) b rest))

  pub removals-Additive :
      (cols : List ColumnDef) (existing : Columns)
      → All Here (removals tier n cols existing).statements
  unfolding removals
  removals-Additive cols [] = tt
  removals-Additive cols ((c, m) ∷ existing) = elim (Bool-cases (expected cols c)) [
    | inl e ↦ rw e (removals-Additive cols existing)
    | inr e ↦ rw e (removals-Additive cols existing)
  ]

module _ (py : Python) (db : Catalog) (n : String) (all : List ColumnDef) where
  pub column_indexes-Additive :
      (cols : List ColumnDef) → All (Here py db n all Tier.live) (column_indexes n cols)
  unfolding column_indexes
  column_indexes-Additive [] = tt
  column_indexes-Additive (col ∷ cols) = elim (Bool-cases col.unique) [
    | inl u ↦ rw u ((refl, refl), column_indexes-Additive cols)
    | inr u ↦ elim (Bool-cases col.indexed) [
      | inl i ↦ rw (u, i) ((refl, refl), column_indexes-Additive cols)
      | inr i ↦ rw (u, i) (column_indexes-Additive cols)
    ]
  ]

  pub builder-Additive :
      (tier : Tier)
      → table_of db tier n ≡ none
      → (ss : List Statement) → builder py tier n all ≡ ok ss
      → All (Here py db n all tier) ss
  unfolding builder build_landing_ddl build_staging_ddl build_live_ddl build_history_ddl
  builder-Additive Tier.landing gone ss h =
      subst (All (Here py db n all Tier.landing)) (ok-injective h)
        ((refl, (refl, gone)), ((refl, refl), ((refl, refl), ((refl, refl), tt))))
  builder-Additive Tier.staging gone ss h =
      let (body, _, e) = >>=-eq-ok (business_columns py false all) _ h in
      subst (All (Here py db n all Tier.staging)) (ok-injective e)
        ((refl, (refl, gone)), ((refl, refl), ((refl, refl), tt)))
  builder-Additive Tier.live gone ss h =
      let (body, _, e) = >>=-eq-ok (business_columns py true all) _ h in
      subst (All (Here py db n all Tier.live)) (ok-injective e) (
        (refl, (refl, gone)),
        All-append _ (column_indexes n all) _ (column_indexes-Additive all) ((refl, refl), tt),
      )
  builder-Additive Tier.history gone ss h =
      let (body, _, e) = >>=-eq-ok (business_columns py false all) _ h in
      subst (All (Here py db n all Tier.history)) (ok-injective e)
        ((refl, (refl, gone)), ((refl, refl), tt))

  pub migration-Additive :
      (tier : Tier) (existing : Columns)
      → table_of db tier n ≡ some existing
      → (plan : DdlPlan) → migration py tier n all existing ≡ ok plan
      → All (Here py db n all tier) plan.statements
  unfolding migration
  migration-Additive tier existing found plan h =
      let (added, one, more) = >>=-eq-ok (additions py tier n existing all) _ h in
      let (changed, two, last) = >>=-eq-ok (type_changes py tier n existing all) _ more in
      subst (λ (p : DdlPlan). All (Here py db n all tier) p.statements) (ok-injective last)
        (All-append _ added.statements _
          (additions-Additive py db n all tier existing found all (λ _ m. m) added one)
          (All-append _ changed.statements _
            (type_changes-Additive py db n all tier existing found all (λ _ m. m) changed two)
            (All-append _ (removals tier n all existing).statements _
              (removals-Additive py db n all tier all existing) (live tier))))
    where
      live :
          (tier : Tier)
          → All (Here py db n all tier) (if is_live tier then column_indexes n all else [])
      live Tier.landing = tt
      live Tier.staging = tt
      live Tier.live = column_indexes-Additive all
      live Tier.history = tt

  migrate_existing-Additive :
      (tier : Tier) (existing : Columns)
      → table_of db tier n ≡ some existing
      → (plan : DdlPlan) → migrate_existing py tier n all existing ≡ ok plan
      → All (Here py db n all tier) plan.statements
  migrate_existing-Additive Tier.landing existing found plan h =
      subst (All (Here py db n all Tier.landing)) (statements (ok-injective h)) tt
  migrate_existing-Additive Tier.staging existing found plan h =
      migration-Additive Tier.staging existing found plan h
  migrate_existing-Additive Tier.live existing found plan h =
      migration-Additive Tier.live existing found plan h
  migrate_existing-Additive Tier.history existing found plan h =
      migration-Additive Tier.history existing found plan h

  pub tier_plan-Additive :
      (tier : Tier) (plan : DdlPlan)
      → tier_plan py db n all tier ≡ ok plan
      → All (Here py db n all tier) plan.statements
  unfolding tier_plan
  tier_plan-Additive tier plan h = elim (Option-cases (table_of db tier n)) [
    | inl gone ↦
        let (ss, built, e) = >>=-eq-ok (builder py tier n all) _ (rw (tier_plan, gone) at h) in
        subst (All (Here py db n all tier)) (statements (ok-injective e))
          (builder-Additive tier gone ss built)
    | inr (existing, found) ↦
        migrate_existing-Additive tier existing found plan (rw (tier_plan, found) at h)
  ]
