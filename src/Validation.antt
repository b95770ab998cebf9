-- ===== src/Validation.antt =====
-- app/services/validation.py: the gate between the landing and the staging tier. Its children hold
-- the constraints, the validation of a record and the match key; here values are normalised and
-- coerced. An error is its field and its code; the message and the quoted value are left out.
pub mod Ranges
pub mod Constraints
pub mod Record
pub mod MatchKey
use Prim.Native.Char.{code}
use Prim.Native.String
use open_mdm.Base.{
  ℕ, String, Bool, true, false, not, ◌&&◌, ◌||◌, Option, none, some, List, [], ◌∷◌, leb, eqb,
  member, is_empty, ◌==◌, if◌then◌else◌,
}
use open_mdm.Base.Int.{ℤ, pos, negsuc, abs}
use open_mdm.Base.Text.{strip, is_empty_text, remove_commas, collapse_whitespace}
use open_mdm.Python.{
  Python, Value, null, bool, int, float, str, decimal, date, datetime, uuid, arr, obj,
}
use open_mdm.Python.Str.{lower, upper, title, strip_punctuation, digits_only, to_str}

abbrev pub truthy_words : List String
truthy_words = "true" ∷ "t" ∷ "yes" ∷ "y" ∷ "1" ∷ "on" ∷ []

abbrev pub falsy_words : List String
falsy_words = "false" ∷ "f" ∷ "no" ∷ "n" ∷ "0" ∷ "off" ∷ []

abbrev pub date_formats : List String
date_formats = "%Y-%m-%d" ∷ "%d/%m/%Y" ∷ "%m/%d/%Y" ∷ "%Y/%m/%d" ∷ "%d-%b-%Y" ∷ "%Y%m%d" ∷ []

abbrev pub datetime_formats : List String
datetime_formats =
    "%Y-%m-%dT%H:%M:%S.%f%z" ∷ "%Y-%m-%dT%H:%M:%S%z" ∷ "%Y-%m-%dT%H:%M:%S" ∷ "%Y-%m-%d %H:%M:%S"
    ∷ "%Y-%m-%d %H:%M" ∷ "%Y-%m-%dT%H:%M" ∷ []

-- A `ValidationError`.
pub record FieldError : Type 0 where
  pub at : String
  pub code : String

-- Why a value could not be coerced: the messages of `coerce_value`.
pub data CoerceError : Type 0 where
  not_an_email not_whole out_of_range not_a_boolean not_a_date not_a_timestamp : CoerceError
  cannot_convert : CoerceError

abbrev pub Coerced : Type 0
Coerced = Value × Option CoerceError

-- `s.replace("Z", "+00:00")`
unfoldable pub replace_zulu : String → String
replace_zulu String.[] = String.[]
replace_zulu (String.◌∷◌ c s) =
    let rest = replace_zulu s in
    if eqb (code c) b'Z' then String.◌++◌ "+00:00" rest else String.◌∷◌ c rest

abbrev pub int_limit : String → ℕ
int_limit dt = if dt == "integer" then 2147483647 else 9223372036854775807

abbrev ranged : String → Option ℤ → Coerced
ranged dt none = (null, some cannot_convert)
ranged dt (some z) = if leb (abs z) (int_limit dt) then (int z, none) else (null, some out_of_range)

abbrev parsed : (String → Value) → Option String → Coerced
parsed make none = (null, some cannot_convert)
parsed make (some s) = (make s, none)

-- None, and a text that strips to nothing.
abbrev pub is_blank : Value → Bool
is_blank null = true
is_blank (str s) = is_empty_text (strip s)
is_blank _ = false

module _ (py : Python) where
  -- One rule of the list; none is the early `return None`.
  apply_rule : String → String → Option String
  apply_rule r out =
      if r == "trim"
      then some (strip out)
      else if r == "lower"
      then some (lower py out)
      else if r == "upper"
      then some (upper py out)
      else if r == "title"
      then some (title py out)
      else if r == "collapse_whitespace"
      then some (collapse_whitespace out)
      else if r == "strip_punctuation"
      then some (strip_punctuation py out)
      else if r == "digits_only"
      then some (digits_only py out)
      else if r == "nullify_empty" && is_empty_text (strip out)
      then none
      else some out

  normalize_text : String → List String → Value
  normalize_text out [] = str out
  normalize_text out (rule ∷ rules) = elim (apply_rule (lower py rule) out) [
    | none ↦ null
    | some next ↦ normalize_text next rules
  ]

  unfoldable pub normalize_value : Value → List String → Value
  unfolding normalize_text apply_rule
  normalize_value (str s) rules = normalize_text s rules
  normalize_value v rules = v

  -- `int(v)`, a text without its commas.
  abbrev pub int_value : Value → Option ℤ
  int_value (int z) = some z
  int_value (str s) = py.int_of (remove_commas (strip s))
  int_value v = py.int_of_value v

  unfoldable pub coerce_int : Value → String → Coerced
  coerce_int (bool true) dt = (int (pos 1), none)
  coerce_int (bool false) dt = (int (pos 0), none)
  coerce_int (float f) dt =
      if py.is_integer f then ranged dt (int_value (float f)) else (null, some not_whole)
  coerce_int v dt = ranged dt (int_value v)

  coerce_text : Value → Coerced
  coerce_text (arr vs) = parsed str (py.json_dumps (arr vs))
  coerce_text (obj fs) = parsed str (py.json_dumps (obj fs))
  coerce_text v = (str (to_str py v), none)

  -- `EMAIL_RE.match(s)`
  email_re : String → Bool
  email_re s = elim (py.re_match "^[^@\\s]+@[^@\\s]+\\.[A-Za-z]{2,}$" s) [
    | none ↦ false
    | some b ↦ b
  ]

  coerce_email : String → Coerced
  coerce_email s = if email_re s then (str s, none) else (str s, some not_an_email)

  coerce_bool : Value → Coerced
  coerce_bool (bool b) = (bool b, none)
  coerce_bool v =
      let s = lower py (strip (to_str py v)) in
      if member s truthy_words
      then (bool true, none)
      else if member s falsy_words
      then (bool false, none)
      else (null, some not_a_boolean)

  -- The first format that parses the text.
  first_format : String → List String → Option String
  first_format s [] = py.fromisoformat s
  first_format s (f ∷ fs) = elim (py.strptime s f) [ none ↦ first_format s fs | some d ↦ some d ]

  coerce_date : Value → Coerced
  coerce_date (datetime d) = (date (py.date_of d), none)
  coerce_date (date d) = (date d, none)
  coerce_date v = elim (first_format (strip (to_str py v)) date_formats) [
    | none ↦ (null, some not_a_date)
    | some d ↦ (date (py.date_of d), none)
  ]

  coerce_timestamp : Value → Coerced
  coerce_timestamp (datetime d) = (datetime d, none)
  coerce_timestamp v = elim (first_format (replace_zulu (strip (to_str py v))) datetime_formats) [
    | none ↦ (null, some not_a_timestamp)
    | some d ↦ (datetime d, none)
  ]

  coerce_json : Value → Coerced
  coerce_json (arr vs) = (arr vs, none)
  coerce_json (obj fs) = (obj fs, none)
  coerce_json v = elim (py.json_loads (to_str py v)) [
    | none ↦ (null, some cannot_convert)
    | some w ↦ (w, none)
  ]

  -- The branches of the `try` block, on a value that is neither None nor blank.
  coerce_as : Value → String → Coerced
  coerce_as v dt =
      if member dt ("string" ∷ "text" ∷ "url" ∷ "enum" ∷ [])
      then coerce_text v
      else if dt == "email"
      then coerce_email (strip (to_str py v))
      else if dt == "integer" || dt == "bigint"
      then coerce_int v dt
      else if dt == "decimal"
      then parsed decimal (py.decimal_of (remove_commas (strip (to_str py v))))
      else if dt == "float"
      then parsed float (py.float_of (remove_commas (strip (to_str py v))))
      else if dt == "boolean"
      then coerce_bool v
      else if dt == "date"
      then coerce_date v
      else if dt == "timestamp"
      then coerce_timestamp v
      else if dt == "uuid"
      then parsed uuid (py.uuid_of (strip (to_str py v)))
      else if dt == "json"
      then coerce_json v
      else (str (to_str py v), none)

  unfoldable pub coerce_value : Value → String → Coerced
  unfolding coerce_as coerce_text coerce_email email_re coerce_int coerce_bool coerce_date
      first_format coerce_timestamp coerce_json
  coerce_value v data_type = if is_blank v then (null, none) else coerce_as v (lower py data_type)
