-- ===== src/Validation/Ranges.antt =====
-- The range of what `coerce_value` makes of an integer column.
use open_mdm.Base.{
  ◌⊎◌, eq_iff, subst, some-injective, ℕ, String, ◌≡◌, ◌≤◌, Bool, true, false, Option, none, some,
  arith, leb, leb→le, ◌==◌, Bool-cases, inl, inr, if◌then◌else◌,
}
use open_mdm.Base.Int.{ℤ, pos, abs}
use open_mdm.Python.{Python, Value, null, bool, int, float}
use open_mdm.Python.Str.{lower}
use open_mdm.Validation.{
  coerce_int, coerce_value, coerce_as, is_blank, ranged, int_limit, int_value,
}

-- None, or an integer of at most the given magnitude.
pub data InRange (limit : ℕ) : Value → Type 0 where
  missing : InRange limit null
  within : (z : ℤ) → abs z ≤ limit → InRange limit (int z)

-- The largest magnitude of the two integer types.
abbrev pub int_bound : String → Option ℕ
int_bound dt =
    if dt == "integer"
    then some 2147483647
    else if dt == "bigint"
    then some 9223372036854775807
    else none

int_bound-eq :
    (dt : String) (limit : ℕ)
    → int_bound dt ≡ some limit
    → ((dt ≡ "integer") × (2147483647 ≡ limit)) ⊎ ((dt ≡ "bigint") × (9223372036854775807 ≡ limit))
int_bound-eq dt limit h = elim (Bool-cases (dt == "integer")) [
  | inl t ↦ inl ((eq_iff dt "integer").0 t, some-injective _ _ (rw t at h))
  | inr f ↦ elim (Bool-cases (dt == "bigint")) [
    | inl t ↦ inr ((eq_iff dt "bigint").0 t, some-injective _ _ (rw (f, t) at h))
    | inr g ↦ absurd (cc (rw (f, g) at h))
  ]
]

module _ (py : Python) where
  ranged-InRange : (dt : String) (o : Option ℤ) → InRange (int_limit dt) (ranged dt o).0
  ranged-InRange dt none = missing
  ranged-InRange dt (some z) = elim (Bool-cases (leb (abs z) (int_limit dt))) [
    | inl h ↦ rw h (within z (leb→le _ _ h))
    | inr h ↦ rw h missing
  ]

  one_le : (b : Bool) → 1 ≤ (if b then 2147483647 else 9223372036854775807)
  one_le true = omega arith
  one_le false = omega arith

  coerce_int-InRange : (v : Value) (dt : String) → InRange (int_limit dt) (coerce_int py v dt).0
  unfolding coerce_int
  coerce_int-InRange (bool true) dt = within (pos 1) (one_le (dt == "integer"))
  coerce_int-InRange (bool false) dt = within (pos 0) (omega arith)
  coerce_int-InRange (float f) dt = elim (Bool-cases (py.is_integer f)) [
    | inl h ↦ rw h (ranged-InRange dt (int_value py (float f)))
    | inr h ↦ rw h missing
  ]
  coerce_int-InRange v dt = ranged-InRange dt (int_value py v)

  -- Whatever is sent, a value coerced for an `integer` column is NULL or an integer of at most
  -- 2147483647 in magnitude, and one for a `bigint` column NULL or at most 9223372036854775807.
  pub coerce_value-InRange :
      (v : Value) (data_type : String) (limit : ℕ)
      → int_bound (lower py data_type) ≡ some limit
      → InRange limit (coerce_value py v data_type).0
  unfolding coerce_value
  coerce_value-InRange v data_type limit h = elim (Bool-cases (is_blank v)) [
    | inl b ↦ rw b missing
    | inr b ↦ rw b (in_bound (lower py data_type) h)
  ]
    where
      in_bound : (dt : String) → int_bound dt ≡ some limit → InRange limit (coerce_as py v dt).0
      in_bound dt h = elim (int_bound-eq dt limit h) [
        | inl (e, l) ↦ rw e (
            subst (λ n. InRange n (coerce_int py v "integer").0) l (coerce_int-InRange v "integer"))
        | inr (e, l) ↦
            rw e (
              subst (λ n. InRange n (coerce_int py v "bigint").0) l (coerce_int-InRange v "bigint"))
      ]
