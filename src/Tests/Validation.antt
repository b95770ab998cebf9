-- ===== src/Tests/Validation.antt =====
-- Witnesses for the validation of records.
use open_mdm.Base.{
  ℕ, ◌≡◌, refl, String, Bool, true, false, not, ◌&&◌, ◌||◌, none, some, [], ◌∷◌, has_key, lookup,
}
use open_mdm.Python.{Value, is_null, str}
use open_mdm.Validation.{coerce_value}
use open_mdm.Validation.Ranges.{InRange, coerce_value-InRange}
use open_mdm.Validation.Record.{Outcome, validate_record}
use open_mdm.Validation.Record.Laws.{validate_record-required}
use open_mdm.Tests.Fixtures.{py, acme, entity, name_column}

abbrev accepted : Outcome
accepted = record { values = acme; errors = []; is_valid = true }

coerce_value-InRange_example : InRange 2147483647 (coerce_value py (str "2147483648") "INTEGER").0
unfolding open_mdm.Python.Str.lower open_mdm.Base.Text.lower_ascii
coerce_value-InRange_example = coerce_value-InRange py (str "2147483648") "INTEGER" 2147483647 refl

validate_record-required_example :
    (w : Value) × (lookup "name" accepted.values ≡ some w) × (is_null w ≡ false)
unfolding validate_record open_mdm.Validation.Record.known open_mdm.Validation.Record.field_step
    coerce_value open_mdm.Validation.normalize_value open_mdm.Base.Text.strip
    open_mdm.Python.Str.lower open_mdm.Base.Text.lower_ascii
    open_mdm.Validation.Constraints.check_constraints open_mdm.Validation.Constraints.truthy
    open_mdm.Python.Str.to_str
validate_record-required_example =
    validate_record-required py acme entity false accepted "name" name_column refl refl refl refl
      refl
