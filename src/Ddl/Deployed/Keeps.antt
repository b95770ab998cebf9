-- ===== src/Ddl/Deployed/Keeps.antt =====
-- app/services/ddl.py, `build_alter_plan`: one column of the model, and the names of a table, while
-- the statements of a plan are executed.
use open_mdm.Base.{
  String, Bool, true, false, ◌||◌, ◌≡◌, refl, sym, ap, ◌⊎◌, inl, inr, ◌∙◌, none, some,
  some-injective, List, [], ◌∷◌, ◌++◌, any, Bool-cases, lookup, has_key, insert, subst, ◌==◌,
  eq_iff, eq_refl, lookup-insert,
}
use open_mdm.Base.Results.{ok}
use open_mdm.Ddl.{
  Tier, ColumnDef, Statement, create_table, create_index, add_column, alter_type, drop_table,
  sql_type,
}
use open_mdm.Ddl.Alter.{expected}
use open_mdm.Ddl.Alter.Shape.{Among, Additive}
use open_mdm.Ddl.Alter.Types.{render_pg-reported}
use open_mdm.Ddl.Catalog.{ColumnMeta, Columns, Catalog, put_table, reported}
use open_mdm.Ddl.Catalog.Effects.{Has, Kept, same_tier_refl, table_of-put_table}
use open_mdm.Ddl.Deployed.{Conforms, Matches, Distinct}
use open_mdm.Identifiers.Types.{PgType}
use open_mdm.Python.{Python}

pub lookup-append :
    (k : String) (t u : Columns) {m : ColumnMeta} → lookup k t ≡ some m → lookup k (t ++ u) ≡ some m
lookup-append k [] u h = absurd (cc)
lookup-append k ((j, v) ∷ t) u h = elim (Bool-cases (j == k)) [
  | inl e ↦ rw e (rw e at h)
  | inr e ↦ rw e (lookup-append k t u (rw e at h))
]

pub lookup-append_missing :
    (k : String) (t u : Columns) → has_key k t ≡ false → lookup k (t ++ u) ≡ lookup k u
lookup-append_missing k [] u h = refl
lookup-append_missing k ((j, v) ∷ t) u h = elim (Bool-cases (j == k)) [
  | inl e ↦ absurd (cc (rw e at h))
  | inr e ↦ rw e (lookup-append_missing k t u (rw e at h))
]

pub has_key-lookup-none : (k : String) (t : Columns) → lookup k t ≡ none → has_key k t ≡ false
has_key-lookup-none k [] h = refl
has_key-lookup-none k ((j, v) ∷ t) h = elim (Bool-cases (j == k)) [
  | inl e ↦ absurd (cc (rw e at h))
  | inr e ↦ rw e (has_key-lookup-none k t (rw e at h))
]

pub has_key-append_cases :
    (k : String) (t u : Columns)
    → has_key k (t ++ u) ≡ true
    → (has_key k t ≡ true) ⊎ (has_key k u ≡ true)
has_key-append_cases k [] u h = inr h
has_key-append_cases k ((j, v) ∷ t) u h = elim (Bool-cases (j == k)) [
  | inl e ↦ inl (rw e refl)
  | inr e ↦ rw e (has_key-append_cases k t u (rw e at h))
]

has_key-insert_old :
    (k j : String) (m : ColumnMeta) (t : Columns)
    → has_key j t ≡ true
    → has_key k (insert j m t) ≡ true
    → has_key k t ≡ true
has_key-insert_old k j m [] old h = absurd (cc)
has_key-insert_old k j m ((i, v) ∷ t) old h = elim (Bool-cases (i == j)) [
  | inl e ↦ rw e at h
  | inr e ↦ elim (Bool-cases (i == k)) [
    | inl f ↦ rw f refl
    | inr f ↦ rw f (has_key-insert_old k j m t (rw e at old) (rw (e, f) at h))
  ]
]

pub any-Among :
    (cols : List ColumnDef) (col : ColumnDef)
    → Among col cols
    → any (λ (d : ColumnDef). d.name == col.name) cols ≡ true
any-Among [] col m = absurd m
any-Among (d ∷ ds) col (inl e) = rw (e, eq_refl col.name) refl
any-Among (d ∷ ds) col (inr m) = elim (Bool-cases (d.name == col.name)) [
  | inl e ↦ rw e refl
  | inr e ↦ rw e (any-Among ds col m)
]

or_false : (b : Bool) → b || false ≡ true → b ≡ true
or_false true h = refl
or_false false h = h

or_true : (b : Bool) → b || true ≡ true
or_true true = refl
or_true false = refl

pub expected-Among :
    (cols : List ColumnDef) (col : ColumnDef) → Among col cols → expected cols col.name ≡ true
expected-Among cols col m = rw (any-Among cols col m) (or_true _)

-- With distinct names, a column of the same name is the column itself.
pub Distinct-eq :
    (cols : List ColumnDef) (c d : ColumnDef)
    → Distinct cols
    → Among c cols
    → Among d cols
    → d.name ≡ c.name
    → d ≡ c
Distinct-eq [] c d u mc md e = absurd mc
Distinct-eq (x ∷ xs) c d u (inl p) (inl q) e = sym q ∙ p
Distinct-eq (x ∷ xs) c d (here, u) (inl p) (inr q) e =
    absurd (here d q (e ∙ sym (ap (λ (y : ColumnDef). y.name) p)))
Distinct-eq (x ∷ xs) c d (here, u) (inr p) (inl q) e =
    absurd (here c p (sym e ∙ sym (ap (λ (y : ColumnDef). y.name) q)))
Distinct-eq (x ∷ xs) c d (here, u) (inr p) (inr q) e = Distinct-eq xs c d u p q e

-- A table in its place.
pub Has-put :
    (P : Columns → Type 0) (tier : Tier) (n : String) (t : Columns) (db : Catalog)
    → P t
    → Has tier n P (put_table tier n t db)
Has-put P tier n t db p =
    (t, table_of-put_table db tier tier n n t ∙ (rw (same_tier_refl tier, eq_refl n) refl), p)

module _ (py : Python) (ref : Catalog) (n : String) (all : List ColumnDef) where
  -- No statement of a plan brings in a name that the model does not know.
  pub names-Kept :
      (s : Statement)
      → Additive py ref n all s
      → Kept (λ t. (c : String) → has_key c t ≡ true → expected all c ≡ true) s
  names-Kept (create_table tier m cs) a = tt
  names-Kept (create_index tier m i) a = tt
  names-Kept (add_column tier m new) (_, col, _, _, among, added) = λ t known c h.
      elim (has_key-append_cases c t _ h) [
        | inl old ↦ known c old
        | inr here ↦
            subst (λ x. expected all x ≡ true)
              (sym added.named ∙ (eq_iff new.name c).0 (or_false _ here))
              (expected-Among all col among)
      ]
  names-Kept (alter_type tier m other type) a = λ t nullable old known c h.
      known c (has_key-insert_old c other (reported type nullable) t old h)
  names-Kept (drop_table tier m cascade) a = absurd a

  module _ (col : ColumnDef) (distinct : Distinct all) (in_all : Among col all) where
    -- A change of the type of this column, under whichever of its names.
    retyped :
        (tier : Tier) (m other : String) (type : PgType)
        → Additive py ref n all (alter_type tier m other type)
        → other == col.name ≡ true
        → (t : Columns) (nullable : Bool)
        → Conforms py col (insert other (reported type nullable) t)
    retyped tier m other type (_, d, _, named, _, among, changed) e t nullable =
        let same =
          Distinct-eq all col d distinct in_all among (sym named ∙ (eq_iff other col.name).0 e) in
        let now = subst (λ x. sql_type py x ≡ ok type) same changed.typed in
        (
          reported type nullable,
          lookup-insert other col.name (reported type nullable) t ∙ (rw e refl),
          inl (type, now, render_pg-reported py col type nullable now),
        )

    pub Conforms-Kept : (s : Statement) → Additive py ref n all s → Kept (Conforms py col) s
    Conforms-Kept (create_table tier m cs) a = tt
    Conforms-Kept (create_index tier m i) a = tt
    Conforms-Kept (add_column tier m new) a =
        λ t (cur, at_col, is). (cur, lookup-append col.name t _ at_col, is)
    Conforms-Kept (alter_type tier m other type) a = λ t nullable old (cur, at_col, is).
        elim (Bool-cases (other == col.name)) [
          | inl e ↦ retyped tier m other type a e t nullable
          | inr e ↦
              (cur, lookup-insert other col.name (reported type nullable) t ∙ (rw e at_col), is)
        ]
    Conforms-Kept (drop_table tier m cascade) a = absurd a

    -- The column conforms, or still is what the plan was made for.
    abbrev pub Pending : ColumnMeta → Columns → Type 0
    Pending cur t = Conforms py col t ⊎ (lookup col.name t ≡ some cur)

    pub Pending-Kept :
        (cur : ColumnMeta) (s : Statement) → Additive py ref n all s → Kept (Pending cur) s
    Pending-Kept cur (create_table tier m cs) a = tt
    Pending-Kept cur (create_index tier m i) a = tt
    Pending-Kept cur (add_column tier m new) a = λ t p. elim p [
      | inl c ↦ inl (Conforms-Kept (add_column tier m new) a t c)
      | inr l ↦ inr (lookup-append col.name t _ l)
    ]
    Pending-Kept cur (alter_type tier m other type) a = λ t nullable old p.
        elim (Bool-cases (other == col.name)) [
          | inl e ↦ inl (retyped tier m other type a e t nullable)
          | inr e ↦ elim p [
            | inl c ↦ inl (Conforms-Kept (alter_type tier m other type) a t nullable old c)
            | inr l ↦ inr (lookup-insert other col.name (reported type nullable) t ∙ (rw e l))
          ]
        ]
    Pending-Kept cur (drop_table tier m cascade) a = absurd a

  pub Matches-Kept :
      Distinct all → (s : Statement) → Additive py ref n all s → Kept (Matches py all) s
  Matches-Kept distinct (create_table tier m cs) a = tt
  Matches-Kept distinct (create_index tier m i) a = tt
  Matches-Kept distinct (add_column tier m new) a = λ t (conforms, known). (
    λ col among. Conforms-Kept col distinct among (add_column tier m new) a t (conforms col among),
    names-Kept (add_column tier m new) a t known,
  )
  Matches-Kept distinct (alter_type tier m other type) a = λ t nullable old (conforms, known). (
    λ col among.
        Conforms-Kept col distinct among (alter_type tier m other type) a t nullable old
          (conforms col among),
    names-Kept (alter_type tier m other type) a t nullable old known,
  )
  Matches-Kept distinct (drop_table tier m cascade) a = absurd a

-- What holds of one table for each column, and what holds of its names.
pub gather :
    (py : Python) (cols : List ColumnDef) (tier : Tier) (n : String) (db : Catalog)
    → Has tier n (λ t. (c : String) → has_key c t ≡ true → expected cols c ≡ true) db
    → ((col : ColumnDef) → Among col cols → Has tier n (Conforms py col) db)
    → Has tier n (Matches py cols) db
gather py cols tier n db (t, here, known) each = (
  t,
  here,
  (
    (λ col among.
        let (u, there, conforms) = each col among in
        subst (Conforms py col) (some-injective u t (sym there ∙ here)) conforms),
    known,
  ),
)
