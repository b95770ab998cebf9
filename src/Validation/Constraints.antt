-- ===== src/Validation/Constraints.antt =====
-- `check_constraints`: the rules of an attribute, on a coerced value. A rule's setting is a value
-- of the `validation` column, of any type; where it has the wrong one the code raises.
use open_mdm.Base.{
  String, Bool, true, false, not, ◌&&◌, Option, none, some, List, [], ◌∷◌, ◌++◌, map, lookup, keys,
  member, ◌==◌, if◌then◌else◌,
}
use open_mdm.Base.Int.{ℤ, pos, le_int, is_zero_int}
use open_mdm.Base.Results.{Result, ok, err, ◌>>=◌}
use open_mdm.Base.Text.{text_length, is_empty_text}
use open_mdm.Models.{Attribute}
use open_mdm.Python.{
  Python, Value, null, bool, int, float, str, decimal, arr, obj, nil, end, items, fields, or_null,
}
use open_mdm.Python.Str.{to_str}
use open_mdm.Validation.{FieldError}

-- The exceptions that a wrong setting raises.
pub data Failure : Type 0 where
  bad_number bad_pattern_type not_iterable bad_comparison : Failure

abbrev pub Errors : Type 0
Errors = List FieldError

-- The characters of a text, each as a text: what iterating over it gives.
abbrev characters : String → List String
characters String.[] = []
characters (String.◌∷◌ c s) = String.◌∷◌ c String.[] ∷ characters s

abbrev report : String → String → Bool → Errors
report name code true = record { at = name; code = code } ∷ []
report name code false = []

module _ (py : Python) where
  -- `bool(v)`
  unfoldable pub truthy : Value → Bool
  truthy null = false
  truthy (bool b) = b
  truthy (int z) = not (is_zero_int z)
  truthy (float f) = not (py.is_zero f)
  truthy (decimal d) = not (py.is_zero d)
  truthy (str s) = not (is_empty_text s)
  truthy (arr nil) = false
  truthy (obj end) = false
  truthy _ = true

  abbrev either : Value → Value → Value
  either a b = if truthy a then a else b

  abbrev rule : Attribute → String → Value
  rule attr key = or_null (lookup key attr.validation)

  abbrev length_value : Option ℤ → Value
  length_value none = null
  length_value (some z) = int z

  -- `int(v)`
  abbrev whole : Value → Result Failure ℤ
  whole (int z) = ok z
  whole (str s) = elim (py.int_of s) [ none ↦ err bad_number | some z ↦ ok z ]
  whole v = elim (py.int_of_value v) [ none ↦ err bad_number | some z ↦ ok z ]

  check_max : String → String → Value → Result Failure Errors
  check_max name s limit =
      if truthy limit
      then (whole limit >>= λ n.
          ok (report name "max_length" (not (le_int (pos (text_length s)) n))))
      else ok []

  check_min : String → String → Value → Result Failure Errors
  check_min name s limit =
      if truthy limit
      then (whole limit >>= λ n.
          ok (report name "min_length" (not (le_int n (pos (text_length s))))))
      else ok []

  check_regex : String → String → Value → Result Failure Errors
  check_regex name s (str p) = if is_empty_text p then ok [] else elim (py.re_match p s) [
    | none ↦ ok (report name "bad_pattern" true)
    | some b ↦ ok (report name "regex" (not b))
  ]
  check_regex name s p = if truthy p then err bad_pattern_type else ok []

  check_text : String → Value → Attribute → Result Failure Errors
  unfolding check_max check_min check_regex
  check_text name (str s) attr = do
    longest ← check_max name s (either (rule attr "max_length") (length_value attr.length))
    shortest ← check_min name s (rule attr "min_length")
    shape ← check_regex name s (either (rule attr "regex") (rule attr "pattern"))
    ok (longest ++ shortest ++ shape)
  check_text name v attr = ok []

  -- `{str(a) for a in allowed}`
  abbrev elements : Value → Result Failure (List String)
  elements (arr vs) = ok (map (to_str py) (items vs))
  elements (obj fs) = ok (keys (fields fs))
  elements (str s) = ok (characters s)
  elements v = err not_iterable

  check_enum : String → Value → Attribute → Result Failure Errors
  check_enum name v attr =
      let allowed = either (rule attr "enum") (rule attr "allowed_values") in
      if truthy allowed
      then (elements allowed >>= λ names.
          ok (report name "enum" (not (member (to_str py v) names))))
      else ok []

  abbrev is_number : Value → Bool
  is_number (int z) = true
  is_number (float f) = true
  is_number (decimal d) = true
  is_number _ = false

  abbrev compared : String → String → Option Bool → Result Failure Errors
  compared name code none = err bad_comparison
  compared name code (some b) = ok (report name code b)

  check_bound :
      String → String → (Value → Value → Option Bool) → Value → Value → Result Failure Errors
  check_bound name code test v null = ok []
  check_bound name code test v bound = compared name code (test v bound)

  check_range : String → Value → Attribute → Result Failure Errors
  unfolding check_bound
  check_range name v attr =
      if is_number v
      then (do
        low ← check_bound name "min" py.less v (rule attr "min")
        high ← check_bound name "max" py.greater v (rule attr "max")
        ok (low ++ high))
      else ok []

  -- `URL_RE.match(s)`, whose IGNORECASE flag is written into the pattern.
  url_re : String → Bool
  url_re s = elim (py.re_match "(?i)^https?://[^\\s]+$" s) [ none ↦ false | some b ↦ b ]

  check_url : String → Value → Attribute → Errors
  unfolding url_re
  check_url name v attr = report name "url" (attr.data_type == "url" && not (url_re (to_str py v)))

  unfoldable pub check_constraints : String → Value → Attribute → Result Failure Errors
  unfolding check_text check_enum check_range check_url
  check_constraints name null attr = ok (report name "required" attr.is_required)
  check_constraints name v attr = do
    texts ← check_text name v attr
    enums ← check_enum name v attr
    ranges ← check_range name v attr
    ok (texts ++ enums ++ ranges ++ check_url name v attr)
