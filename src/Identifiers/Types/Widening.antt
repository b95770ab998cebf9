-- ===== src/Identifiers/Types/Widening.antt =====
-- What a safe widening keeps.
use native.Mathlib.Decide.{dec_lt}
use open_mdm.Base.{
  ℕ, zero, suc, String, ◌≡◌, refl, Bool, true, false, Option, none, some, arith, leb, ◌<◌, ◌≤◌, ◌⊎◌,
  sym, ◌∙◌, inl, inr,
}
use open_mdm.Base.Int.{ℤ, pos, le_int, is_zero_int, nonzero, or_zero, le_int_refl, le_int_trans}
use open_mdm.Base.Results.{Result, ok, err}
use open_mdm.Identifiers.{IdentifierError, unsupported_type}
use open_mdm.Identifiers.Types.{
  LogicalType, string, text, email, url, enum, logical_type, PgType, bare, of_length, numeric,
  pg_of, pg_type, Family, text_family, family, rank, same_family, TypeRank, type_rank, widens,
  is_safe_widening,
}
use open_mdm.Python.{Python}

same_family_refl : (f : Family) → same_family f f ≡ true
same_family_refl f = ground arith

same_family_eq : (f g : Family) → same_family f g ≡ true → f ≡ g
same_family_eq f g h = ground arith

widens_trans : (a b c : TypeRank) → widens a b ≡ true → widens b c ≡ true → widens a c ≡ true
unfolding widens
widens_trans a b c h k = ground (
  arith,
  same_family_eq a.fam b.fam,
  same_family_eq b.fam c.fam,
  same_family_refl a.fam,
  le_int_trans a.len b.len c.len,
)

-- A text of `k` characters can be stored in a column of the type.
abbrev pub holds : PgType → ℕ → Bool
holds (bare b) k = true
holds (of_length b n) k = le_int (pos k) n
holds (numeric p s) k = true

-- The text types by their two ranks.
data TextType : LogicalType → ℕ → Type 0 where
  sized_string : TextType string 1
  sized_email : TextType email 1
  sized_enum : TextType enum 1
  wide_text : TextType text 2
  wide_url : TextType url 2

text_type : (t : LogicalType) → family (some t) ≡ text_family → TextType t (rank (some t))
text_type string h = sized_string
text_type text h = wide_text
text_type email h = sized_email
text_type url h = wide_url
text_type enum h = sized_enum
text_type _ h = absurd (cc)

-- A column of the second rank has no length.
holds-wide :
    {t : LogicalType} {r : ℕ} (l precision scale : Option ℤ) (q : PgType) (k : ℕ)
    → TextType t r
    → 1 < r
    → pg_of t l precision scale ≡ ok q
    → holds q k ≡ true
holds-wide l none c q k wide_text lt h = ground arith
holds-wide l (some b) c q k wide_text lt h = ground arith
holds-wide l none c q k wide_url lt h = ground arith
holds-wide l (some b) c q k wide_url lt h = ground arith
holds-wide l b c q k sized_string lt h = absurd (omega arith)
holds-wide l b c q k sized_email lt h = absurd (omega arith)
holds-wide l b c q k sized_enum lt h = absurd (omega arith)

-- A column of the first rank with a stated length holds what the length allows.
holds-sized :
    {t : LogicalType} {r : ℕ} (n : ℤ) (precision scale : Option ℤ) (q : PgType) (k : ℕ)
    → TextType t r
    → r < 2
    → is_zero_int n ≡ false
    → pg_of t (some n) precision scale ≡ ok q
    → holds q k ≡ le_int (pos k) n
holds-sized (pos zero) b c q k x lt z h = absurd (cc)
holds-sized n b c q k wide_text lt z h = absurd (omega arith)
holds-sized n b c q k wide_url lt z h = absurd (omega arith)
holds-sized n none c q k sized_string lt z h = ground arith
holds-sized n (some b) c q k sized_string lt z h = ground arith
holds-sized n none c q k sized_email lt z h = ground arith
holds-sized n (some b) c q k sized_email lt z h = ground arith
holds-sized n none c q k sized_enum lt z h = ground arith
holds-sized n (some b) c q k sized_enum lt z h = ground arith

abbrev rank_of : Option LogicalType → Option ℤ → TypeRank
rank_of t length = record { fam = family t; rk = rank t; len = or_zero length }

abbrev rendered :
    Option LogicalType → Option ℤ → Option ℤ → Option ℤ → Result IdentifierError PgType
rendered none l b c = err unsupported_type
rendered (some t) l b c = pg_of t l (nonzero b) c

TextType-pos : {t : LogicalType} {r : ℕ} → TextType t r → 0 < r
TextType-pos sized_string = omega arith
TextType-pos sized_email = omega arith
TextType-pos sized_enum = omega arith
TextType-pos wide_text = omega arith
TextType-pos wide_url = omega arith

-- Both columns have the first rank: the old length is stated and at most the new one.
holds-narrow :
    {s t : LogicalType} {i j : ℕ} (m : Option ℤ) (n : ℤ) (a b c d : Option ℤ) (p q : PgType) (k : ℕ)
    → TextType s i
    → TextType t j
    → i < 2
    → j < 2
    → is_zero_int (or_zero m) ≡ false
    → le_int (or_zero m) n ≡ true
    → is_zero_int n ≡ false
    → pg_of s m a b ≡ ok p
    → pg_of t (some n) c d ≡ ok q
    → holds p k ≡ true
    → holds q k ≡ true
holds-narrow none n a b c d p q k x y li lj nz le z hp hq h = absurd (cc)
holds-narrow (some l) n a b c d p q k x y li lj nz le z hp hq h =
    holds-sized n c d q k y lj z hq
    ∙ le_int_trans (pos k) l n (sym (holds-sized l a b p k x li nz hp) ∙ h) le

widens-text :
    (i j : ℕ) (l n : ℤ)
    → widens
        (record { fam = text_family; rk = i; len = l })
        (record { fam = text_family; rk = j; len = n })
      ≡ true
    → is_zero_int n ≡ false
    → (i < j) ⊎ ((j ≡ i) × (is_zero_int l ≡ false) × (le_int l n ≡ true))
unfolding widens
widens-text i j l n h z = ground arith

widens-family :
    (t : Option LogicalType) (i j : ℕ) (l n : ℤ)
    → widens
        (record { fam = text_family; rk = i; len = l })
        (record { fam = family t; rk = j; len = n })
      ≡ true
    → family t ≡ text_family
unfolding widens
widens-family t i j l n h = ground arith

holds-widened :
    (s t : Option LogicalType) (m : Option ℤ) (n : ℤ) (a b c d : Option ℤ) (p q : PgType) (k : ℕ)
    → family s ≡ text_family
    → is_zero_int n ≡ false
    → widens (rank_of s m) (rank_of t (some n)) ≡ true
    → rendered s m a b ≡ ok p
    → rendered t (some n) c d ≡ ok q
    → holds p k ≡ true
    → holds q k ≡ true
holds-widened none t m n a b c d p q k f z w hp hq h = absurd (cc)
holds-widened (some s) none m n a b c d p q k f z w hp hq h = absurd (cc)
holds-widened (some s) (some t) m n a b c d p q k f z w hp hq h =
    let w' = rw f at w in
    let g = widens-family (some t) (rank (some s)) (rank (some t)) (or_zero m) n w' in
    let x = text_type s f in
    let y = text_type t g in
    elim (widens-text (rank (some s)) (rank (some t)) (or_zero m) n (rw g at w') z) [
      | inl lt ↦ holds-wide (some n) (nonzero c) d q k y (omega (arith, TextType-pos x)) hq
      | inr same ↦ elim (dec_lt 1 (rank (some t))) [
        | yes wide ↦ holds-wide (some n) (nonzero c) d q k y wide hq
        | no narrow ↦
            holds-narrow m n (nonzero a) b (nonzero c) d p q k x y (omega arith) (omega arith)
              same.1 same.2 z hp hq h
      ]
    ]

widens_default :
    (l : ℤ) → widens (rank_of (some string) (some l)) (rank_of (some email) none) ≡ true
unfolding widens
widens_default l = refl

not_le : (m n : ℕ) → m < n → leb n m ≡ false
not_le m n h = ground arith

rendered_string :
    (n : ℕ)
    → 320 < n
    → n ≤ 10485760
    → pg_of string (some (pos n)) none none ≡ ok (of_length "varchar" (pos n))
rendered_string zero lt le = absurd (omega arith)
rendered_string (suc n) lt le = ground arith

rendered-eq :
    (t : Option LogicalType) (l b c : Option ℤ) {p : PgType}
    → (elim t [ none ↦ err unsupported_type | some u ↦ pg_of u l (nonzero b) c ]) ≡ ok p
    → rendered t l b c ≡ ok p
rendered-eq none l b c h = h
rendered-eq (some t) l b c h = h

module _ (py : Python) where
  -- A change of a text column that counts as a safe widening, and whose new length is stated and
  -- not zero: every text that fits the old column's Postgres type fits the new one.
  pub widening_keeps_texts :
      (old new : String) (m : Option ℤ) (n : ℤ) (a b c d : Option ℤ) (p q : PgType) (k : ℕ)
      → family (logical_type py old) ≡ text_family
      → is_zero_int n ≡ false
      → is_safe_widening py old m new (some n) ≡ true
      → pg_type py old m a b ≡ ok p
      → pg_type py new (some n) c d ≡ ok q
      → holds p k ≡ true
      → holds q k ≡ true
  unfolding is_safe_widening pg_type
  widening_keeps_texts old new m n a b c d p q k f z w hp hq h =
      holds-widened (logical_type py old) (logical_type py new) m n a b c d p q k f z w
        (rendered-eq (logical_type py old) m a b hp)
        (rendered-eq (logical_type py new) (some n) c d hq) h

  -- A chain of safe widenings is a safe widening.
  pub is_safe_widening_trans :
      (t u v : String) (l m n : Option ℤ)
      → is_safe_widening py t l u m ≡ true
      → is_safe_widening py u m v n ≡ true
      → is_safe_widening py t l v n ≡ true
  unfolding is_safe_widening
  is_safe_widening_trans t u v l m n h k =
      widens_trans (type_rank py t l) (type_rank py u m) (type_rank py v n) h k

  -- With the length left out, `string` of any length widens "safely" to a type that is rendered
  -- with its default length: a text of more than 320 characters fits the old column and not the new.
  pub widening_to_default :
      (old new : String) (n : ℕ)
      → logical_type py old ≡ some string
      → logical_type py new ≡ some email
      → 320 < n
      → n ≤ 10485760
      → (is_safe_widening py old (some (pos n)) new none ≡ true)
        × (pg_type py old (some (pos n)) none none ≡ ok (of_length "varchar" (pos n)))
        × (pg_type py new none none none ≡ ok (of_length "varchar" (pos 320)))
        × (holds (of_length "varchar" (pos n)) n ≡ true)
        × (holds (of_length "varchar" (pos 320)) n ≡ false)
  unfolding is_safe_widening pg_type
  widening_to_default old new n ho hn lt le = (
    rw (ho, hn) (widens_default (pos n)),
    rw (ho, pg_type) (rendered_string n lt le),
    rw (hn, pg_type),
    le_int_refl (pos n),
    not_le 320 n lt,
  )
