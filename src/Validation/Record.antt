-- ===== src/Validation/Record.antt =====
-- `validate_record`: coerce, normalise and check one inbound record.
pub mod Laws
use text.Mathlib.Text.{starts_with}
use open_mdm.Base.{
  String, Bool, true, false, not, ◌&&◌, ◌||◌, Option, none, some, List, [], ◌∷◌, ◌++◌, Dict, lookup,
  has_key, insert, is_empty, if◌then◌else◌,
}
use open_mdm.Base.Results.{Result, ok, err}
use open_mdm.Base.Text.{is_empty_text}
use open_mdm.Models.{Attribute, Entity}
use open_mdm.Python.{Python, Value, null, str, is_null, or_null}
use open_mdm.Validation.{FieldError, CoerceError, Coerced, normalize_value, coerce_value}
use open_mdm.Validation.Constraints.{Failure, Errors, check_constraints}

pub record Outcome : Type 0 where
  pub values : Dict Value
  pub errors : Errors
  pub is_valid : Bool

-- `{a.name: a for a in entity.attributes}`
known_from : Dict Attribute → List Attribute → Dict Attribute
known_from d [] = d
known_from d (a ∷ attrs) = known_from (insert a.name a d) attrs

unfoldable pub known : Entity → Dict Attribute
unfolding known_from
known entity = known_from [] entity.attributes

unfoldable pub unknown_fields : Dict Attribute → Dict Value → Errors
unknown_fields attrs [] = []
unknown_fields attrs ((key, v) ∷ payload) =
    let rest = unknown_fields attrs payload in
    if not (has_key key attrs) && not (starts_with key "mdm_")
    then record { at = key; code = "unknown_field" } ∷ rest
    else rest

-- What one attribute adds: its value, unless the attribute is skipped, and its errors.
abbrev pub Step : Type 0
Step = Option Value × Errors

abbrev add_value : String → Option Value → Dict Value → Dict Value
add_value name none values = values
add_value name (some v) values = (name, v) ∷ values

abbrev pub join :
    String
    → Result Failure Step
    → Result Failure (Dict Value × Errors)
    → Result Failure (Dict Value × Errors)
join name (err f) later = err f
join name (ok (v, e)) (err f) = err f
join name (ok (v, e)) (ok (values, errors)) = ok (add_value name v values, e ++ errors)

abbrev pub keep_value : Value → Result Failure Errors → Result Failure Step
keep_value w (ok errors) = ok (some w, errors)
keep_value w (err f) = err f

abbrev pub outcome : Errors → Result Failure (Dict Value × Errors) → Result Failure Outcome
outcome unknown (err f) = err f
outcome unknown (ok (values, errors)) = ok (record {
  values = values;
  errors = unknown ++ errors;
  is_valid = is_empty (unknown ++ errors);
})

module _ (py : Python) where
  -- `attr.default_value`, coerced; its error is dropped.
  default_of : Option String → String → Value
  default_of none data_type = null
  default_of (some s) data_type =
      if is_empty_text s then null else (coerce_value py (str s) data_type).0

  with_default : Attribute → Bool → Value → Value
  unfolding default_of
  with_default attr present value =
      if is_null value && not present then default_of attr.default_value attr.data_type else value

  checked : String → Attribute → Value → Result Failure Step
  checked name attr value = keep_value value (check_constraints py name value attr)

  after_coercion : String → Attribute → Bool → Coerced → Result Failure Step
  unfolding checked with_default
  after_coercion name attr present (value, some e) =
      ok (some null, record { at = name; code = "type" } ∷ [])
  after_coercion name attr present (value, none) =
      checked name attr (with_default attr present value)

  -- The payload's value, normalised and coerced.
  abbrev pub coerced_input : Dict Value → String → Attribute → Coerced
  coerced_input payload name attr =
      coerce_value py (normalize_value py (or_null (lookup name payload)) attr.normalization)
        attr.data_type

  unfoldable pub field_step : Dict Value → Bool → String → Attribute → Result Failure Step
  unfolding after_coercion
  field_step payload partial name attr =
      let present = has_key name payload in
      if partial && not present
      then ok (none, [])
      else after_coercion name attr present (coerced_input payload name attr)

  unfoldable pub field_values :
      Dict Value → Bool → Dict Attribute → Result Failure (Dict Value × Errors)
  field_values payload partial [] = ok ([], [])
  field_values payload partial ((name, attr) ∷ attrs) =
      join name (field_step payload partial name attr) (field_values payload partial attrs)

  unfoldable pub validate_record : Dict Value → Entity → Bool → Result Failure Outcome
  unfolding unknown_fields field_values
  validate_record payload entity partial =
      outcome (unknown_fields (known entity) payload) (field_values payload partial (known entity))
