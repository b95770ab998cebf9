-- ===== src/Identifiers/Types.antt =====
-- app/services/identifiers.py, the type system: logical types, their Postgres types, and which
-- changes of a column's type count as a safe widening.
pub mod Widening
use open_mdm.Base.{
  ℕ, String, Bool, true, false, not, ◌&&◌, ◌||◌, Option, none, some, [], ◌∷◌, Dict, lookup, ltb,
  ◌==◌, if◌then◌else◌,
}
use open_mdm.Base.Int.{ℤ, pos, le_int, is_zero_int, nonzero, or_zero}
use open_mdm.Base.Results.{Result, ok, err}
use open_mdm.Identifiers.{IdentifierError, unsupported_type, bad_length}
use open_mdm.Python.{Python}
use open_mdm.Python.Str.{lower}

-- The keys of TYPE_MAP.
pub data LogicalType : Type 0 where
  string text integer bigint decimal float boolean date timestamp uuid json email url enum :
      LogicalType

abbrev pub type_map : Dict LogicalType
type_map =
    ("string", string)
    ∷ ("text", text)
    ∷ ("integer", integer)
    ∷ ("bigint", bigint)
    ∷ ("decimal", decimal)
    ∷ ("float", float)
    ∷ ("boolean", boolean)
    ∷ ("date", date)
    ∷ ("timestamp", timestamp)
    ∷ ("uuid", uuid)
    ∷ ("json", json)
    ∷ ("email", email)
    ∷ ("url", url)
    ∷ ("enum", enum)
    ∷ []

-- `TYPE_MAP.get((data_type or "").lower())`
unfoldable pub logical_type : Python → String → Option LogicalType
logical_type py data_type = lookup (lower py data_type) type_map

-- The "pg", "sized" and "default_length" entries of a type.
abbrev pub pg : LogicalType → String
pg string = "varchar"
pg text = "text"
pg integer = "integer"
pg bigint = "bigint"
pg decimal = "numeric"
pg float = "double precision"
pg boolean = "boolean"
pg date = "date"
pg timestamp = "timestamptz"
pg uuid = "uuid"
pg json = "jsonb"
pg email = "varchar"
pg url = "text"
pg enum = "varchar"

abbrev pub sized : LogicalType → Bool
sized string = true
sized email = true
sized enum = true
sized _ = false

abbrev pub default_length : LogicalType → Option ℤ
default_length email = some (pos 320)
default_length enum = some (pos 100)
default_length _ = none

-- A rendered column type: `base`, `base(n)` or `numeric(p,s)`.
pub data PgType : Type 0 where
  bare : String → PgType
  of_length : String → ℤ → PgType
  numeric : ℤ → ℤ → PgType

-- `a or b` of two optional numbers.
abbrev pub or_else : Option ℤ → Option ℤ → Option ℤ
or_else none b = b
or_else (some a) b = some a

abbrev pub is_decimal : LogicalType → Bool
is_decimal decimal = true
is_decimal _ = false

abbrev pub with_length : LogicalType → Option ℤ → Result IdentifierError PgType
with_length t none = ok (bare (if pg t == "varchar" then "text" else pg t))
with_length t (some size) =
    if le_int (pos 1) size && le_int size (pos 10485760)
    then ok (of_length (pg t) size)
    else err bad_length

abbrev pub without_precision : LogicalType → Option ℤ → Result IdentifierError PgType
without_precision t length =
    if sized t
    then with_length t (nonzero (or_else (nonzero length) (default_length t)))
    else ok (bare (pg t))

abbrev pub pg_of : LogicalType → Option ℤ → Option ℤ → Option ℤ → Result IdentifierError PgType
pg_of t length none scale = without_precision t length
pg_of t length (some p) scale =
    if is_decimal t then ok (numeric p (or_zero scale)) else without_precision t length

unfoldable pub pg_type :
    Python → String → Option ℤ → Option ℤ → Option ℤ → Result IdentifierError PgType
pg_type py data_type length precision scale = elim (logical_type py data_type) [
  | none ↦ err unsupported_type
  | some t ↦ pg_of t length (nonzero precision) scale
]

-- The families of `type_rank`, and the rank within one.
pub data Family : Type 0 where
  text_family num_family bool_family time_family uuid_family json_family other : Family

abbrev pub family : Option LogicalType → Family
family none = other
family (some string) = text_family
family (some text) = text_family
family (some email) = text_family
family (some url) = text_family
family (some enum) = text_family
family (some integer) = num_family
family (some bigint) = num_family
family (some decimal) = num_family
family (some float) = num_family
family (some boolean) = bool_family
family (some date) = time_family
family (some timestamp) = time_family
family (some uuid) = uuid_family
family (some json) = json_family

abbrev pub rank : Option LogicalType → ℕ
rank none = 0
rank (some string) = 1
rank (some text) = 2
rank (some email) = 1
rank (some url) = 2
rank (some enum) = 1
rank (some integer) = 1
rank (some bigint) = 2
rank (some decimal) = 3
rank (some float) = 4
rank (some boolean) = 1
rank (some date) = 1
rank (some timestamp) = 2
rank (some uuid) = 1
rank (some json) = 1

abbrev same_family : Family → Family → Bool
same_family text_family text_family = true
same_family num_family num_family = true
same_family bool_family bool_family = true
same_family time_family time_family = true
same_family uuid_family uuid_family = true
same_family json_family json_family = true
same_family other other = true
same_family _ _ = false

abbrev is_text_family : Family → Bool
is_text_family text_family = true
is_text_family _ = false

pub record TypeRank : Type 0 where
  pub fam : Family
  pub rk : ℕ
  pub len : ℤ

abbrev pub type_rank : Python → String → Option ℤ → TypeRank
type_rank py data_type length = record {
  fam = family (logical_type py data_type);
  rk = rank (logical_type py data_type);
  len = or_zero length;
}

unfoldable pub widens : TypeRank → TypeRank → Bool
widens old new =
    if not (same_family old.fam new.fam)
    then false
    else if ltb new.rk old.rk
    then false
    else if is_text_family old.fam
    then (if ltb old.rk new.rk
        then true
        else is_zero_int new.len || (not (is_zero_int old.len) && le_int old.len new.len))
    else true

unfoldable pub is_safe_widening : Python → String → Option ℤ → String → Option ℤ → Bool
unfolding widens
is_safe_widening py old_type old_len new_type new_len =
    widens (type_rank py old_type old_len) (type_rank py new_type new_len)
