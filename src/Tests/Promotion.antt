-- ===== src/Tests/Promotion.antt =====
-- A witness for the promotion of a row with a malformed target.
use open_mdm.Base.{ℕ, ◌≡◌, refl, true, false, none, some, [], ◌∷◌}
use open_mdm.Base.Results.{err}
use open_mdm.Pipeline.Promotion.{promote_landing_to_staging}
use open_mdm.Pipeline.Promotion.Poison.{promotion_poisoned}
use open_mdm.Python.{str}
use open_mdm.Sql.{Exc, State, begin}
use open_mdm.Tests.Fixtures.{py, pg, entity, landed_row, state}
use open_mdm.Tiers.{Operation, LandingStatus, LandingRow, Postgres}
use open_mdm.Validation.Record.{Outcome}

-- A database that takes no text for a UUID.
abbrev strict : Postgres
strict = record pg { cast_uuid = λ s. none }

abbrev malformed : LandingRow
malformed = record (landed_row none LandingStatus.pending none) {
  operation = Operation.update;
  payload = ("city", str "Oslo") ∷ [];
  target_id = some "42";
}

abbrev checked : Outcome
checked = record { values = ("city", str "Oslo") ∷ []; errors = []; is_valid = true }

abbrev waiting : State
waiting = state (malformed ∷ []) [] [] []

promotion_poisoned_example :
    (e : Exc) × (s' : State) × (begin
        (promote_landing_to_staging strict py entity "b2" [] 10 "cron")
        waiting
      ≡ (err e, s'))
    × (s'.tables.landing ≡ malformed ∷ [])
    × (s'.tables.staging ≡ [])
unfolding open_mdm.Validation.Record.validate_record open_mdm.Validation.Record.known
    open_mdm.Validation.Record.field_step open_mdm.Validation.coerce_value
    open_mdm.Validation.normalize_value open_mdm.Base.Text.strip open_mdm.Python.Str.lower
    open_mdm.Base.Text.lower_ascii open_mdm.Validation.Constraints.check_constraints
    open_mdm.Validation.Constraints.truthy open_mdm.Python.Str.to_str
promotion_poisoned_example =
    promotion_poisoned strict py entity "b2" malformed "42" refl refl refl checked [] 10 "cron" []
      [] waiting refl refl refl
