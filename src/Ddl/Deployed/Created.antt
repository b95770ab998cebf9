-- ===== src/Ddl/Deployed/Created.antt =====
-- app/services/ddl.py: a table that a plan creates has the columns of the model.
use open_mdm.Base.{
  has_key-lookup, String, Bool, true, false, not, ◌&&◌, ◌||◌, ◌≡◌, refl, sym, ap, inl, inr, ◌∙◌,
  none, some, List, [], ◌∷◌, ◌++◌, All, All-map, all, any, Bool-cases, lookup, has_key, subst,
  arith, ◌==◌, eq_iff, eq_refl, or_left, or_right,
}
use open_mdm.Base.Results.{ok, >>=-eq-ok, ok-injective}
use open_mdm.Ddl.{
  Tier, ColumnDef, ColumnSql, Statement, create_table, sql_type, checked, default_clause,
}
use open_mdm.Ddl.Alter.{expected}
use open_mdm.Ddl.Alter.Additive.{Here}
use open_mdm.Ddl.Alter.Shape.{Among, checked-ok}
use open_mdm.Ddl.Alter.Types.{render_pg-reported}
use open_mdm.Ddl.Catalog.{
  ColumnMeta, Columns, Catalog, table_of, reported, metas, has_duplicates, execute_all, effect,
}
use open_mdm.Ddl.Catalog.Effects.{
  Has, execute_all-Kept, execute_all-step, execute-effect, create_cases,
}
use open_mdm.Ddl.Create.{business_column_sql, business_columns}
use open_mdm.Ddl.Deployed.{Conforms, Matches, Distinct}
use open_mdm.Ddl.Deployed.Keeps.{Matches-Kept, Has-put, has_key-append_cases, expected-Among}
use open_mdm.Python.{Python}
use text.Mathlib.Text.{starts_with}

metas-append : (xs ys : List ColumnSql) → metas (xs ++ ys) ≡ metas xs ++ metas ys
metas-append [] ys = refl
metas-append (x ∷ xs) ys =
    ap (λ t. (x.name, reported x.type (not x.not_null)) ∷ t) (metas-append xs ys)

has_key-append_right : (k : String) (t u : Columns) → has_key k u ≡ true → has_key k (t ++ u) ≡ true
has_key-append_right k [] u h = h
has_key-append_right k ((j, v) ∷ t) u h = ground (arith, has_key-append_right k t u)

-- Without duplicates, the first column of a name is the only one.
lookup-append_right :
    (k : String) (t u : Columns) {m : ColumnMeta}
    → has_duplicates (t ++ u) ≡ false
    → lookup k u ≡ some m
    → lookup k (t ++ u) ≡ some m
lookup-append_right k [] u d h = h
lookup-append_right k ((j, v) ∷ t) u d h = elim (Bool-cases (j == k)) [
  | inl e ↦ absurd (
      cc (
        or_left (has_key j (t ++ u)) (has_duplicates (t ++ u)) d,
        has_key-append_right j t u
            (subst (λ x. has_key x u ≡ true) (sym ((eq_iff j k).0 e)) (has_key-lookup k u h)),
      ))
  | inr e ↦
      rw e (lookup-append_right k t u (or_right (has_key j (t ++ u)) (has_duplicates (t ++ u)) d) h)
]

has_duplicates-append_right :
    (t u : Columns) → has_duplicates (t ++ u) ≡ false → has_duplicates u ≡ false
has_duplicates-append_right [] u d = d
has_duplicates-append_right ((j, v) ∷ t) u d =
    has_duplicates-append_right t u (or_right (has_key j (t ++ u)) (has_duplicates (t ++ u)) d)

-- The parts of one column's clause.
column_sql_cases :
    (py : Python) (nn : Bool) (col : ColumnDef) (c : ColumnSql)
    → business_column_sql py nn col ≡ ok c
    → (c.name ≡ col.name) × (sql_type py col ≡ ok c.type)
unfolding business_column_sql
column_sql_cases py nn col c h =
    let (type, typed, more) = >>=-eq-ok (checked (sql_type py col)) _ h in
    let (default, _, last) = >>=-eq-ok (default_clause py col) _ more in
    let e = ok-injective last in
    (
      ap (λ (x : ColumnSql). x.name) (sym e),
      checked-ok _ typed ∙ ap (λ (x : ColumnSql). ok x.type) e,
    )

columns_cases :
    (py : Python) (nn : Bool) (col : ColumnDef) (cols : List ColumnDef) (body : List ColumnSql)
    → business_columns py nn (col ∷ cols) ≡ ok body
    → (c : ColumnSql) × (rest : List ColumnSql) × (c.name ≡ col.name)
      × (sql_type py col ≡ ok c.type)
      × (business_columns py nn cols ≡ ok rest)
      × (c ∷ rest ≡ body)
unfolding business_columns
columns_cases py nn col cols body h =
    let (c, one, more) = >>=-eq-ok (business_column_sql py nn col) _ h in
    let (rest, others, last) = >>=-eq-ok (business_columns py nn cols) _ more in
    let (named, typed) = column_sql_cases py nn col c one in
    (c, rest, named, typed, others, ok-injective last)

business_columns-Conforms :
    (py : Python) (nn : Bool) (cols : List ColumnDef) (body : List ColumnSql) (col : ColumnDef)
    → business_columns py nn cols ≡ ok body
    → has_duplicates (metas body) ≡ false
    → Among col cols
    → Conforms py col (metas body)
business_columns-Conforms py nn [] body col h d among = absurd among
business_columns-Conforms py nn (x ∷ xs) body col h d among =
    let (c, rest, named, typed, others, e) = columns_cases py nn x xs body h in
    let no_dup = rw (← e) at d in
    subst (λ b. Conforms py col (metas b)) e
      (elim among [
        | inl head ↦ (
          reported c.type (not c.not_null),
          rw (← head, named, eq_refl x.name) refl,
          inl (
            c.type,
            subst (λ y. sql_type py y ≡ ok c.type) head typed,
            render_pg-reported py x c.type _ typed,
          ),
        )
        | inr tail ↦
            let (cur, at_col, is) =
              business_columns-Conforms py nn xs rest col others
                (or_right (has_key c.name (metas rest)) (has_duplicates (metas rest)) no_dup)
                tail in
            (
              cur,
              lookup-append_right col.name ((c.name, reported c.type (not c.not_null)) ∷ [])
                  (metas rest) no_dup at_col,
              is,
            )
      ])

or_first : (a b : Bool) → a ≡ true → a || b ≡ true
or_first true b h = refl
or_first false b h = absurd (cc)

and_first : (a b : Bool) → a && b ≡ true → a ≡ true
and_first true b h = refl
and_first false b h = h

and_second : (a b : Bool) → a && b ≡ true → b ≡ true
and_second true b h = h
and_second false b h = absurd (cc)

or_more : (a b c : Bool) → a || c ≡ true → a || (b || c) ≡ true
or_more true b c h = refl
or_more false true c h = refl
or_more false false c h = h

business_columns-names :
    (py : Python) (nn : Bool) (cols : List ColumnDef) (body : List ColumnSql) (c : String)
    → business_columns py nn cols ≡ ok body
    → has_key c (metas body) ≡ true
    → expected cols c ≡ true
unfolding business_columns
business_columns-names py nn [] body c h k =
    absurd
      (cc (subst (λ (b : List ColumnSql). has_key c (metas b) ≡ true) (sym (ok-injective h)) k))
business_columns-names py nn (x ∷ xs) body k h has =
    let (c, rest, named, _, others, e) = columns_cases py nn x xs body h in
    let there = subst (λ b. has_key k (metas b) ≡ true) (sym e) has in
    elim (Bool-cases (c.name == k)) [
      | inl here ↦
          subst (λ y. expected (x ∷ xs) y ≡ true) (sym named ∙ (eq_iff c.name k).0 here)
            (expected-Among (x ∷ xs) x (inl refl))
      | inr other ↦
          or_more (starts_with k "mdm_") (x.name == k) (any (λ (d : ColumnDef). d.name == k) xs)
            (business_columns-names py nn xs rest k others (rw other at there))
    ]

-- The columns that every table of a tier has.
abbrev pub Platform : List ColumnSql → Type 0
Platform sys = all (λ (c : ColumnSql). starts_with c.name "mdm_") sys ≡ true

Platform-names :
    (cols : List ColumnDef) (sys : List ColumnSql) (k : String)
    → Platform sys
    → has_key k (metas sys) ≡ true
    → expected cols k ≡ true
Platform-names cols [] k p h = absurd (cc)
Platform-names cols (c ∷ cs) k p h = elim (Bool-cases (c.name == k)) [
  | inl e ↦
      subst (λ y. expected cols y ≡ true) ((eq_iff c.name k).0 e)
        (or_first (starts_with c.name "mdm_") (any (λ (d : ColumnDef). d.name == c.name) cols) (
          and_first (starts_with c.name "mdm_")
            (all (λ (x : ColumnSql). starts_with x.name "mdm_") cs) p))
  | inr e ↦ Platform-names cols cs k (and_second (starts_with c.name "mdm_") _ p) (rw e at h)
]

module _ (accepts : Catalog → Statement → Bool) (py : Python) (ref : Catalog) (n : String)
    (cols : List ColumnDef) (distinct : Distinct cols) (tier : Tier) where
  -- Created where there was none, with statements after it that are additive.
  pub created_deploys :
      (sys body : List ColumnSql) (nn : Bool) (more : List Statement) (db : Catalog) {db' : Catalog}
      → Platform sys
      → business_columns py nn cols ≡ ok body
      → All (Here py ref n cols tier) more
      → table_of db tier n ≡ none
      → execute_all accepts (create_table tier n (sys ++ body) ∷ more) db ≡ ok db'
      → Has tier n (Matches py cols) db'
  unfolding effect
  created_deploys sys body nn more db platform built additive gone run =
      let (next, one, last) =
        execute_all-step accepts (create_table tier n (sys ++ body)) more db run in
      elim (create_cases tier n (sys ++ body) db
        (execute-effect accepts (create_table tier n (sys ++ body)) db one)) [
          | inl (t, there, _) ↦ absurd (cc (there, gone))
          | inr (_, no_dup, put) ↦
              execute_all-Kept accepts (Matches py cols) more next tier n
                (All-map _ _ (λ s h. Matches-Kept py ref n cols distinct s h.1) more additive) last
                (subst (Has tier n (Matches py cols)) put
                  (Has-put (Matches py cols) tier n (metas (sys ++ body)) db (fresh no_dup)))
        ]
    where
      fresh : has_duplicates (metas (sys ++ body)) ≡ false → Matches py cols (metas (sys ++ body))
      fresh no_dup =
          let apart = subst (λ t. has_duplicates t ≡ false) (metas-append sys body) no_dup in
          subst (Matches py cols) (sym (metas-append sys body)) (
            λ col among.
                let (cur, at_col, is) =
                  business_columns-Conforms py nn cols body col built
                    (has_duplicates-append_right (metas sys) (metas body) apart) among in
                (cur, lookup-append_right col.name (metas sys) (metas body) apart at_col, is),
            λ c has. elim (has_key-append_cases c (metas sys) (metas body) has) [
              | inl s ↦ Platform-names cols sys c platform s
              | inr b ↦ business_columns-names py nn cols body c built b
            ],
          )
