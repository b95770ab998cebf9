-- ===== src/Ddl/Alter/Types.antt =====
-- app/services/ddl.py and app/services/identifiers.py: a column type that was rendered, applied and
-- read back from the catalog renders as itself, so a deployed column compares as unchanged.
use open_mdm.Base.{
  ℕ, zero, suc, Bool, true, ◌&&◌, ◌≡◌, refl, inl, inr, Option, none, some, subst, ap, arith,
  Bool-cases, eq_refl, eq_iff,
}
use open_mdm.Base.Int.{ℤ, pos, negsuc, le_int, eq_int_refl, eq_int_sound, nonzero}
use open_mdm.Base.Results.{ok, ok-injective}
use open_mdm.Ddl.{ColumnDef, sql_type}
use open_mdm.Ddl.Alter.{render_pg, same_type}
use open_mdm.Ddl.Catalog.{reported}
use open_mdm.Identifiers.Types.{
  LogicalType, PgType, bare, of_length, numeric, pg, pg_of, pg_type, logical_type, sized,
}
use open_mdm.Identifiers.Types
use open_mdm.Python.{Python}

-- A type that comes back from the catalog as it was.
abbrev pub IsStable : PgType → Type 0
IsStable type = (nullable : Bool) → render_pg (reported type nullable) ≡ type

bare-IsStable : (t : LogicalType) → IsStable (bare (pg t))
unfolding render_pg
bare-IsStable Types.string nullable = refl
bare-IsStable _ nullable = refl

text-IsStable : IsStable (bare "text")
unfolding render_pg
text-IsStable nullable = refl

varchar-IsStable : (n : ℕ) → IsStable (of_length "varchar" (pos (suc n)))
unfolding render_pg
varchar-IsStable n nullable = refl

numeric-IsStable : (p s : ℤ) → nonzero (some p) ≡ some p → IsStable (numeric p s)
unfolding render_pg
numeric-IsStable p s h nullable = rw h

pub same_type_refl : (type : PgType) → same_type type type ≡ true
same_type_refl (bare a) = eq_refl a
same_type_refl (of_length a n) = rw (eq_refl a, eq_int_refl n)
same_type_refl (numeric p s) = rw (eq_int_refl p, eq_int_refl s)

pub same_type_sound : (a b : PgType) → same_type a b ≡ true → a ≡ b
same_type_sound (bare a) (bare b) h = ap bare ((eq_iff a b).0 h)
same_type_sound (of_length a m) (of_length b n) h = ground (arith, eq_iff a b, eq_int_sound m n)
same_type_sound (numeric p s) (numeric q t) h = ground (arith, eq_int_sound p q, eq_int_sound s t)
same_type_sound _ _ h = absurd (cc)

with_length-IsStable :
    (t : LogicalType) (length : Option ℤ) {type : PgType}
    → pg t ≡ "varchar"
    → Types.with_length t length ≡ ok type
    → IsStable type
with_length-IsStable t none v h = let e = ok-injective (rw v at h) in subst IsStable e text-IsStable
with_length-IsStable t (some (negsuc n)) v h = absurd (cc)
with_length-IsStable t (some (pos zero)) v h = absurd (cc)
with_length-IsStable t (some (pos (suc n))) v h =
    elim (Bool-cases (le_int (pos 1) (pos (suc n)) && le_int (pos (suc n)) (pos 10485760))) [
      | inl fits ↦ let e = ok-injective (rw (v, fits) at h) in subst IsStable e (varchar-IsStable n)
      | inr no_fit ↦ absurd (cc (rw (v, no_fit) at h))
    ]

without_precision-IsStable :
    (t : LogicalType) (length : Option ℤ) {type : PgType}
    → (sized t ≡ true → pg t ≡ "varchar")
    → Types.without_precision t length ≡ ok type
    → IsStable type
without_precision-IsStable t length v h = elim (Bool-cases (sized t)) [
  | inl yes' ↦
      with_length-IsStable t (nonzero (Types.or_else (nonzero length) (Types.default_length t)))
        (v yes') (rw yes' at h)
  | inr no' ↦ subst IsStable (ok-injective (rw no' at h)) (bare-IsStable t)
]

sized-varchar : (t : LogicalType) → sized t ≡ true → pg t ≡ "varchar"
sized-varchar Types.string h = refl
sized-varchar Types.email h = refl
sized-varchar Types.enum h = refl
sized-varchar _ h = absurd (cc)

pg_of-IsStable :
    (t : LogicalType) (length precision scale : Option ℤ) {type : PgType}
    → pg_of t length (nonzero precision) scale ≡ ok type
    → IsStable type
pg_of-IsStable t length none scale h = without_precision-IsStable t length (sized-varchar t) h
pg_of-IsStable t length (some (pos zero)) scale h =
    without_precision-IsStable t length (sized-varchar t) h
pg_of-IsStable t length (some (pos (suc p))) scale h = elim (Bool-cases (Types.is_decimal t)) [
  | inl yes' ↦ subst IsStable (ok-injective (rw yes' at h)) (numeric-IsStable _ _ refl)
  | inr no' ↦ without_precision-IsStable t length (sized-varchar t) (rw no' at h)
]
pg_of-IsStable t length (some (negsuc p)) scale h = elim (Bool-cases (Types.is_decimal t)) [
  | inl yes' ↦ subst IsStable (ok-injective (rw yes' at h)) (numeric-IsStable _ _ refl)
  | inr no' ↦ without_precision-IsStable t length (sized-varchar t) (rw no' at h)
]

-- The type that a column is created with is read back from the catalog as the same rendered type,
-- whatever the logical type, length, precision and scale that were accepted.
pub render_pg-reported :
    (py : Python) (col : ColumnDef) (type : PgType) (nullable : Bool)
    → sql_type py col ≡ ok type
    → render_pg (reported type nullable) ≡ type
unfolding pg_type
render_pg-reported py col type nullable h = go (logical_type py col.data_type) refl
  where
    go :
        (found : Option LogicalType)
        → logical_type py col.data_type ≡ found
        → render_pg (reported type nullable) ≡ type
    go none e = absurd (cc (rw (e, pg_type) at h))
    go (some t) e =
        pg_of-IsStable t col.length col.precision col.scale (rw (e, pg_type) at h) nullable
