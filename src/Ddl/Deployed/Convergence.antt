-- ===== src/Ddl/Deployed/Convergence.antt =====
-- app/services/ddl.py: planning again. Tables that implement the model need no migration, and a
-- plan for tables that are not there is the CREATE plan.
use open_mdm.Base.{
  has_key-lookup, String, true, false, ◌≡◌, refl, sym, ap, inl, inr, ◌∙◌, none, List, [], ◌∷◌, ◌++◌,
  append-nil, append_assoc, Option-cases, has_key, if◌then◌else◌, eq_refl, arith,
}
use open_mdm.Base.Results.{Result-cases, Result, ok, err, ◌>>=◌}
use open_mdm.Ddl.{
  Tier, ColumnDef, Statement, DdlPlan, DdlError, Warning, columns_from_entity, joined, plan_of,
}
use open_mdm.Ddl.Alter.{
  expected, removals, migration, additions, type_change, change_of, type_changes, tier_plan,
  build_alter_plan, plan_tiers, logical_from_pg, is_live,
}
use open_mdm.Ddl.Alter.Shape.{Among}
use open_mdm.Ddl.Alter.Types.{same_type_refl}
use open_mdm.Ddl.Catalog.{ColumnMeta, Columns, Catalog, table_of, same_tier}
use open_mdm.Ddl.Catalog.Effects.{Has}
use open_mdm.Ddl.Create.{builder, column_indexes, build_create_plan, key_warnings}
use open_mdm.Ddl.Deployed.{Conforms, Matches, Deployed}
use open_mdm.Identifiers.{validate_ident}
use open_mdm.Models.{Entity}
use open_mdm.Python.{Python}

additions-none :
    (py : Python) (tier : Tier) (n : String) (existing : Columns) (cols : List ColumnDef)
    → ((col : ColumnDef) → Among col cols → Conforms py col existing)
    → additions py tier n existing cols ≡ ok (plan_of [])
unfolding additions
additions-none py tier n existing [] conforms = refl
additions-none py tier n existing (col ∷ cols) conforms =
    let (cur, at_col, _) = conforms col (inl refl) in
    rw
      (
        has_key-lookup col.name existing at_col,
        additions-none py tier n existing cols (λ d m. conforms d (inr m)),
      )
      refl

type_change-none :
    (py : Python) (tier : Tier) (n : String) (existing : Columns) (col : ColumnDef)
    → Conforms py col existing
    → type_change py tier n existing col ≡ ok (plan_of [])
unfolding type_change change_of
type_change-none py tier n existing col (cur, at_col, inr unknown) =
    rw (type_change, at_col, change_of, unknown) refl
type_change-none py tier n existing col (cur, at_col, inl (type, typed, same)) =
    elim (Option-cases (logical_from_pg cur)) [
      | inl unknown ↦ rw (type_change, at_col, change_of, unknown) refl
      | inr (old, known) ↦
          rw (type_change, at_col, change_of, known, typed) (rw (same, same_type_refl type) refl)
    ]

type_changes-none :
    (py : Python) (tier : Tier) (n : String) (existing : Columns) (cols : List ColumnDef)
    → ((col : ColumnDef) → Among col cols → Conforms py col existing)
    → type_changes py tier n existing cols ≡ ok (plan_of [])
unfolding type_changes
type_changes-none py tier n existing [] conforms = refl
type_changes-none py tier n existing (col ∷ cols) conforms =
    rw
      (
        type_change-none py tier n existing col (conforms col (inl refl)),
        type_changes-none py tier n existing cols (λ d m. conforms d (inr m)),
      )
      refl

has_key-cons :
    (c d : String) (m : ColumnMeta) (t : Columns)
    → has_key d t ≡ true
    → has_key d ((c, m) ∷ t) ≡ true
has_key-cons c d m t h = ground arith

removals-none :
    (tier : Tier) (n : String) (cols : List ColumnDef) (existing : Columns)
    → ((c : String) → has_key c existing ≡ true → expected cols c ≡ true)
    → removals tier n cols existing ≡ plan_of []
unfolding removals
removals-none tier n cols [] known = refl
removals-none tier n cols ((c, m) ∷ existing) known =
    rw (known c (rw (eq_refl c) refl))
      (removals-none tier n cols existing (λ d has. known d (has_key-cons c d m existing has)))

module _ (py : Python) (db : Catalog) (n : String) (cols : List ColumnDef) where
  migration-none :
      (tier : Tier) (existing : Columns)
      → Matches py cols existing
      → migration py tier n cols existing
        ≡ ok (plan_of (if is_live tier then column_indexes n cols else []))
  unfolding migration
  migration-none tier existing (conforms, known) =
      rw
        (
          additions-none py tier n existing cols conforms,
          type_changes-none py tier n existing cols conforms,
          removals-none tier n cols existing known,
        )
        refl

  landing-none :
      Has Tier.landing n (λ t. Unit {0}) db → tier_plan py db n cols Tier.landing ≡ ok (plan_of [])
  unfolding tier_plan
  landing-none (t, found, _) = rw (tier_plan, found) refl

  tier-none :
      (tier : Tier)
      → same_tier tier Tier.landing ≡ false
      → Has tier n (Matches py cols) db
      → tier_plan py db n cols tier
        ≡ ok (plan_of (if is_live tier then column_indexes n cols else []))
  unfolding tier_plan
  tier-none Tier.landing typed has = absurd (cc)
  tier-none Tier.staging typed (t, found, matches) =
      rw (tier_plan, found) (migration-none Tier.staging t matches)
  tier-none Tier.live typed (t, found, matches) =
      rw (tier_plan, found) (migration-none Tier.live t matches)
  tier-none Tier.history typed (t, found, matches) =
      rw (tier_plan, found) (migration-none Tier.history t matches)

  tiers-none :
      Deployed py n cols db → plan_tiers py db n cols ≡ ok (plan_of (column_indexes n cols))
  unfolding plan_tiers
  tiers-none d =
      rw
        (
          landing-none d.landing,
          tier-none Tier.staging refl d.staging,
          tier-none Tier.live refl d.live,
          tier-none Tier.history refl d.history,
        )
        (ap (λ (ss : List Statement). ok (plan_of ss)) (sym (append-nil (column_indexes n cols))))

-- When the deployed tables implement the model, the next plan succeeds and holds the indexes of the
-- live table only, which CREATE INDEX IF NOT EXISTS leaves as they are: no column is added, no type
-- is changed, and nothing destructive or worth a warning is reported.
pub build_alter_plan_converges :
    (py : Python) (db : Catalog) (entity : Entity) (n : String) (cols : List ColumnDef)
    → validate_ident py entity.name ≡ ok n
    → columns_from_entity py entity ≡ ok cols
    → Deployed py n cols db
    → build_alter_plan py db entity ≡ ok (plan_of (column_indexes n cols))
unfolding build_alter_plan
build_alter_plan_converges py db entity n cols named columns d =
    rw (named, columns) (tiers-none py db n cols d)

abbrev planned : Result DdlError (List Statement) → Result DdlError DdlPlan
planned r = r >>= λ ss. ok (plan_of ss)

abbrev whole :
    List Statement → List Statement → List Statement → List Statement → List Warning → DdlPlan
whole p q r s warnings = record {
  statements = p ++ q ++ r ++ s;
  warnings = warnings;
  destructive = [];
}

-- Four plans in a row, or their statements in a row.
planned-joined :
    (a b c d : Result DdlError (List Statement)) (warnings : List Warning)
    → (planned a >>= λ p. planned b >>= λ q.
        planned c >>= λ r. planned d >>= λ s. ok (joined p (joined q (joined r s))))
      ≡ ((a >>= λ p. b >>= λ q. c >>= λ r. d >>= λ s. ok (whole p q r s warnings)) >>= λ plan.
          ok (plan_of plan.statements))
planned-joined (err e) b c d w = refl
planned-joined (ok p) (err e) c d w = refl
planned-joined (ok p) (ok q) (err e) d w = refl
planned-joined (ok p) (ok q) (ok r) (err e) w = refl
planned-joined (ok p) (ok q) (ok r) (ok s) w =
    ap (λ (ss : List Statement). ok (plan_of ss))
      (sym (append_assoc p q (r ++ s)) ∙ sym (append_assoc (p ++ q) r s))

-- Where none of the four tables exists, planning a migration and planning a creation come to the
-- same statements, and if one fails then so does the other, with the same error; the migration has
-- nothing destructive to report, and lacks the warnings on missing keys.
pub build_create_plan-alter :
    (py : Python) (db : Catalog) (entity : Entity)
    → ((tier : Tier) (n : String)
        → validate_ident py entity.name ≡ ok n
        → table_of db tier n ≡ none)
    → build_alter_plan py db entity
      ≡ (build_create_plan py entity >>= λ plan. ok (plan_of plan.statements))
unfolding build_alter_plan build_create_plan plan_tiers tier_plan
build_create_plan-alter py db entity gone = elim (Result-cases (validate_ident py entity.name)) [
  | inr (e, failed) ↦ rw failed refl
  | inl (n, named) ↦ elim (Result-cases (columns_from_entity py entity)) [
    | inr (e, failed) ↦ rw (named, failed) refl
    | inl (cols, columns) ↦
        rw
          (
            named,
            columns,
            tier_plan,
            gone Tier.landing n named,
            gone Tier.staging n named,
            gone Tier.live n named,
            gone Tier.history n named,
          )
          (planned-joined (builder py Tier.landing n cols) (builder py Tier.staging n cols)
            (builder py Tier.live n cols) (builder py Tier.history n cols) (key_warnings entity))
  ]
]
