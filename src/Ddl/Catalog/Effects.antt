-- ===== src/Ddl/Catalog/Effects.antt =====
-- app/services/ddl.py, `apply_plan`: what executed statements do to one table of the catalog.
use open_mdm.Base.{
  has_key-lookup, String, Bool, true, false, not, ◌&&◌, ◌≡◌, refl, sym, ◌⊎◌, ◌∙◌, subst, inl, inr,
  none, some, some-injective, List, [], ◌∷◌, ◌++◌, All, arith, Bool-cases, Option-cases, lookup,
  has_key, insert, lookup-insert, ◌==◌, eq_iff, if◌then◌else◌,
}
use open_mdm.Base.Results.{ok, ok-injective, >>=-eq-ok}
use open_mdm.Ddl.{
  Tier, ColumnSql, Statement, create_table, create_index, add_column, alter_type, drop_table,
}
use open_mdm.Ddl.Catalog.{
  ColumnMeta, Columns, Catalog, same_tier, reported, metas, has_duplicates, table_of, put_table,
  effect, create, add, alter, retype, execute, execute_all,
}
use open_mdm.Identifiers.Types.{PgType}

abbrev pub tier_of : Statement → Tier
tier_of (create_table tier n cols) = tier
tier_of (create_index tier n i) = tier
tier_of (add_column tier n c) = tier
tier_of (alter_type tier n c type) = tier
tier_of (drop_table tier n cascade) = tier

abbrev pub AtTier : Tier → Statement → Type 0
AtTier tier s = tier_of s ≡ tier

-- The table exists and has the property.
abbrev pub Has : Tier → String → (Columns → Type 0) → Catalog → Type 0
Has tier n P db = (t : Columns) × (table_of db tier n ≡ some t) × P t

-- The property of a table survives the statement, wherever that acts.
abbrev pub Kept : (Columns → Type 0) → Statement → Type 0
Kept P (create_table tier n cols) = Unit {0}
Kept P (create_index tier n i) = Unit {0}
Kept P (add_column tier n c) =
    (t : Columns) → P t → P (t ++ (c.name, reported c.type (not c.not_null)) ∷ [])
Kept P (alter_type tier n c type) =
    (t : Columns) (nullable : Bool)
    → has_key c t ≡ true
    → P t
    → P (insert c (reported type nullable) t)
Kept P (drop_table tier n cascade) = ⊥

pub table_of-put_table :
    (db : Catalog) (tier t : Tier) (n m : String) (cols : Columns)
    → table_of (put_table tier n cols db) t m
      ≡ (if same_tier t tier && n == m then some cols else table_of db t m)
table_of-put_table db tier t n m cols = elim (Bool-cases (same_tier t tier)) [
  | inl here ↦ rw here (lookup-insert n m cols (db t))
  | inr away ↦ rw away
]

pub execute-effect :
    (accepts : Catalog → Statement → Bool) (s : Statement) (db : Catalog) {db' : Catalog}
    → execute accepts s db ≡ ok db'
    → effect s db ≡ some db'
unfolding execute
execute-effect accepts s db h = ground arith

pub same_tier_sound : (a b : Tier) → same_tier a b ≡ true → a ≡ b
same_tier_sound Tier.landing Tier.landing h = refl
same_tier_sound Tier.staging Tier.staging h = refl
same_tier_sound Tier.live Tier.live h = refl
same_tier_sound Tier.history Tier.history h = refl
same_tier_sound _ _ h = absurd (cc)

pub same_tier_refl : (tier : Tier) → same_tier tier tier ≡ true
same_tier_refl Tier.landing = refl
same_tier_refl Tier.staging = refl
same_tier_refl Tier.live = refl
same_tier_refl Tier.history = refl

pub create_cases :
    (tier : Tier) (n : String) (cols : List ColumnSql) (db : Catalog) {db' : Catalog}
    → create tier n cols db ≡ some db'
    → ((t : Columns) × (table_of db tier n ≡ some t) × (db ≡ db'))
      ⊎ ((table_of db tier n ≡ none)
          × (has_duplicates (metas cols) ≡ false)
          × (put_table tier n (metas cols) db ≡ db'))
unfolding create
create_cases tier n cols db h = elim (Option-cases (table_of db tier n)) [
  | inr (t, e) ↦ inl (t, e, some-injective _ _ (rw (e, create) at h))
  | inl e ↦ elim (Bool-cases (has_duplicates (metas cols))) [
    | inl d ↦ absurd (cc (rw (e, create, d) at h))
    | inr d ↦ inr (e, d, some-injective _ _ (rw (e, create, d) at h))
  ]
]

pub add_cases :
    (tier : Tier) (n : String) (c : ColumnSql) (db : Catalog) {db' : Catalog}
    → add tier n c db ≡ some db'
    → (t : Columns) × (table_of db tier n ≡ some t)
      × (has_key c.name t ≡ false)
      × (put_table tier n (t ++ (c.name, reported c.type (not c.not_null)) ∷ []) db ≡ db')
unfolding add
add_cases tier n c db h = elim (Option-cases (table_of db tier n)) [
  | inl e ↦ absurd (cc (rw (e, add) at h))
  | inr (t, e) ↦ elim (Bool-cases (has_key c.name t)) [
    | inl d ↦ absurd (cc (rw (e, add, d) at h))
    | inr d ↦ (t, e, d, some-injective _ _ (rw (e, add, d) at h))
  ]
]

pub alter_cases :
    (tier : Tier) (n c : String) (type : PgType) (db : Catalog) {db' : Catalog}
    → alter tier n c type db ≡ some db'
    → (t : Columns) × (m : ColumnMeta) × (table_of db tier n ≡ some t)
      × (lookup c t ≡ some m)
      × (put_table tier n (insert c (reported type m.nullable) t) db ≡ db')
unfolding alter retype
alter_cases tier n c type db h = elim (Option-cases (table_of db tier n)) [
  | inl e ↦ absurd (cc (rw (e, alter) at h))
  | inr (t, e) ↦ elim (Option-cases (lookup c t)) [
    | inl d ↦ absurd (cc (rw (e, alter, retype, d) at h))
    | inr (m, d) ↦ (t, m, e, d, some-injective _ _ (rw (e, alter, retype, d) at h))
  ]
]

-- Another tier's statement leaves the table as it is.
pub effect-elsewhere :
    (s : Statement) (db : Catalog) (tier : Tier) (n : String) {db' : Catalog}
    → same_tier tier (tier_of s) ≡ false
    → effect s db ≡ some db'
    → table_of db' tier n ≡ table_of db tier n
unfolding effect
effect-elsewhere (create_table there m cols) db tier n away h =
    elim (create_cases there m cols db h) [
      | inl (_, _, same) ↦ rw (← same) refl
      | inr (_, _, put) ↦ rw (← put) (rw away refl)
    ]
effect-elsewhere (create_index there m i) db tier n away h = rw (← some-injective _ _ h) refl
effect-elsewhere (add_column there m c) db tier n away h =
    let (_, _, _, put) = add_cases there m c db h in rw (← put) (rw away refl)
effect-elsewhere (alter_type there m c type) db tier n away h =
    let (_, _, _, _, put) = alter_cases there m c type db h in rw (← put) (rw away refl)
effect-elsewhere (drop_table there m cascade) db tier n away h =
    rw (← some-injective _ _ h) (rw away refl)

same_table :
    (there tier : Tier) (m n : String) (db : Catalog)
    → same_tier tier there && m == n ≡ true
    → table_of db tier n ≡ table_of db there m
same_table there tier m n db here = elim (Bool-cases (same_tier tier there)) [
  | inl t ↦ rw (same_tier_sound _ _ t, (eq_iff m n).0 (rw t at here)) refl
  | inr f ↦ absurd (cc (rw f at here))
]

-- A table that takes the place of another one, and has the property if that had it.
Has-put_table :
    (P : Columns → Type 0) (there tier : Tier) (m n : String) (old new : Columns) (db : Catalog)
    → table_of db there m ≡ some old
    → (P old → P new)
    → Has tier n P db
    → Has tier n P (put_table there m new db)
Has-put_table P there tier m n old new db e step (t, found, p) =
    elim (Bool-cases (same_tier tier there && m == n)) [
      | inl here ↦ (
        new,
        table_of-put_table db there tier m n new ∙ (rw here refl),
        step (subst P (same_found t found here) p),
      )
      | inr away ↦ (t, table_of-put_table db there tier m n new ∙ (rw away found), p)
    ]
  where
    same_found :
        (t : Columns)
        → table_of db tier n ≡ some t
        → same_tier tier there && m == n ≡ true
        → t ≡ old
    same_found t found here = some-injective _ _ (sym found ∙ same_table there tier m n db here ∙ e)

Has-created :
    (P : Columns → Type 0) (there tier : Tier) (m n : String) (new : Columns) (db : Catalog)
    → table_of db there m ≡ none
    → Has tier n P db
    → Has tier n P (put_table there m new db)
Has-created P there tier m n new db gone (t, found, p) =
    elim (Bool-cases (same_tier tier there && m == n)) [
      | inl here ↦ absurd (cc (found, gone, same_table there tier m n db here))
      | inr away ↦ (t, table_of-put_table db there tier m n new ∙ (rw away found), p)
    ]

-- A property that the statement keeps.
pub effect-Kept :
    (P : Columns → Type 0) (s : Statement) (db : Catalog) (tier : Tier) (n : String) {db' : Catalog}
    → Kept P s
    → effect s db ≡ some db'
    → Has tier n P db
    → Has tier n P db'
unfolding effect
effect-Kept P (create_table there m cols) db tier n k h has =
    elim (create_cases there m cols db h) [
      | inl (_, _, same) ↦ rw (← same) has
      | inr (gone, _, put) ↦ rw (← put) (Has-created P there tier m n (metas cols) db gone has)
    ]
effect-Kept P (create_index there m i) db tier n k h has = rw (← some-injective _ _ h) has
effect-Kept P (add_column there m c) db tier n k h has =
    let (t, found, _, put) = add_cases there m c db h in
    rw (← put) (Has-put_table P there tier m n t _ db found (k t) has)
effect-Kept P (alter_type there m c type) db tier n k h has =
    let (t, meta, found, at_c, put) = alter_cases there m c type db h in
    rw (← put) (
      Has-put_table P there tier m n t _ db found (k t meta.nullable (has_key-lookup c t at_c)) has)
effect-Kept P (drop_table there m cascade) db tier n k h has = absurd k

module _ (accepts : Catalog → Statement → Bool) where
  pub execute_all-step :
      (s : Statement) (ss : List Statement) (db : Catalog) {db' : Catalog}
      → execute_all accepts (s ∷ ss) db ≡ ok db'
      → (next : Catalog) × (execute accepts s db ≡ ok next) × (execute_all accepts ss next ≡ ok db')
  unfolding execute_all
  execute_all-step s ss db h = >>=-eq-ok (execute accepts s db) (execute_all accepts ss) h

  pub execute_all-append :
      (ss ts : List Statement) (db : Catalog) {db' : Catalog}
      → execute_all accepts (ss ++ ts) db ≡ ok db'
      → (mid : Catalog) × (execute_all accepts ss db ≡ ok mid)
        × (execute_all accepts ts mid ≡ ok db')
  unfolding execute_all
  execute_all-append [] ts db h = (db, refl, h)
  execute_all-append (s ∷ ss) ts db h =
      let (next, one, more) = execute_all-step s (ss ++ ts) db h in
      let (mid, first, second) = execute_all-append ss ts next more in (mid, rw one first, second)

  pub execute_all-elsewhere :
      (ss : List Statement) (db : Catalog) (tier : Tier) (n : String) {db' : Catalog}
      → All (λ s. same_tier tier (tier_of s) ≡ false) ss
      → execute_all accepts ss db ≡ ok db'
      → table_of db' tier n ≡ table_of db tier n
  unfolding execute_all
  execute_all-elsewhere [] db tier n away h = rw (ok-injective h) refl
  execute_all-elsewhere (s ∷ ss) db tier n (here, away) h =
      let (next, one, more) = execute_all-step s ss db h in
      execute_all-elsewhere ss next tier n away more
      ∙ effect-elsewhere s db tier n here (execute-effect accepts s db one)

  pub execute_all-Kept :
      (P : Columns → Type 0) (ss : List Statement) (db : Catalog) (tier : Tier) (n : String)
      {db' : Catalog}
      → All (Kept P) ss
      → execute_all accepts ss db ≡ ok db'
      → Has tier n P db
      → Has tier n P db'
  unfolding execute_all
  execute_all-Kept P [] db tier n k h has = subst (Has tier n P) (ok-injective h) has
  execute_all-Kept P (s ∷ ss) db tier n (here, k) h has =
      let (next, one, more) = execute_all-step s ss db h in
      execute_all-Kept P ss next tier n k more
        (effect-Kept P s db tier n here (execute-effect accepts s db one) has)
