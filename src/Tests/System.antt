-- ===== src/Tests/System.antt =====
-- Witnesses for promotion and for sequences of transactions.
use open_mdm.Base.{
  ℕ, ◌+◌, ◌≤◌, ◌≡◌, refl, String, Bool, true, false, none, some, List, [], ◌∷◌, All, find_first,
  is_empty, length, take, keep, arith,
}
use open_mdm.Base.Results.{Result}
use open_mdm.Pipeline.Promotion.{Promotion, promote_landing_to_staging, wanted, staged}
use open_mdm.Pipeline.Promotion.Laws.{Balanced, promotion_accounts}
use open_mdm.Pipeline.Review.{Reviewed, apply_staging_to_live, has_id}
use open_mdm.Pipeline.Review.Golden.{inserted}
use open_mdm.Sql.{Exc, State}
use open_mdm.System.{Event, write, promote, approve, reject, edit, run_all}
use open_mdm.System.Golden.{golden_only_by_approval, history_append_only, Starts}
use open_mdm.System.Landing.{run_all-Extends, Extends}
use open_mdm.System.Staging.{applied_without_errors}
use open_mdm.Tests.Fixtures.{
  cfg, py, pg, entity, create, request, landed_row, staged_row, golden, state,
}
use open_mdm.Tiers.{Operation, LandingStatus, ChangeType, StagingRow}

-- A pending landing row, a staged one and a golden record.
abbrev start : State
start =
    state (landed_row (some "k0") LandingStatus.pending none ∷ [])
      (staged_row Operation.insert none ∷ []) (golden ∷ []) []

abbrev quiet_events : List Event
quiet_events = write create ∷ promote "b2" [] 10 "cron" ∷ reject 8 "8" "bob" [] "late" ∷ []

abbrev events : List Event
events =
    write (request "DELETE" [] (some "g1") (some "k2"))
    ∷ promote "b2" [] 10 "cron"
    ∷ approve 9 "bob" [] none none
    ∷ edit 7 [] "bob" [] "7"
    ∷ []

golden_only_by_approval_example :
    ((run_all cfg pg py entity quiet_events start).tables.live ≡ golden ∷ [])
    × ((run_all cfg pg py entity quiet_events start).tables.history ≡ [])
golden_only_by_approval_example = golden_only_by_approval pg py entity cfg quiet_events start refl

history_append_only_example : Starts [] (run_all cfg pg py entity events start).tables.history
history_append_only_example = history_append_only pg py entity cfg events start

run_all-Extends_example :
    Extends start.tables.landing (run_all cfg pg py entity events start).tables.landing
run_all-Extends_example = run_all-Extends cfg pg py entity events start

abbrev approved_after : Result Exc Reviewed × State
approved_after = apply_staging_to_live cfg pg entity 8 "bob" [] none none (
    run_all cfg pg py entity (promote "b2" [] 10 "cron" ∷ [])
      (state (landed_row none LandingStatus.pending none ∷ []) [] [] []))

applied_without_errors_example :
    (row : StagingRow) × (find_first
        (has_id 8)
        (run_all cfg pg py entity
          (promote "b2" [] 10 "cron" ∷ [])
          (state (landed_row none LandingStatus.pending none ∷ []) [] [] [])).tables.staging
      ≡ some row)
    × (is_empty row.errors ≡ true)
unfolding apply_staging_to_live open_mdm.Sql.◌>>=◌ open_mdm.Sql.statement run_all
    open_mdm.System.transaction open_mdm.Sql.begin promote_landing_to_staging
    open_mdm.Pipeline.Promotion.select_pending open_mdm.Pipeline.Promotion.promote_rows
    open_mdm.Pipeline.Promotion.promote_row open_mdm.Sql.try_except
    open_mdm.Validation.Record.validate_record open_mdm.Validation.Record.known
    open_mdm.Validation.Record.field_step open_mdm.Validation.coerce_value
    open_mdm.Validation.normalize_value open_mdm.Base.Text.strip open_mdm.Base.Text.is_space
    open_mdm.Base.Text.lower_ascii open_mdm.Base.Text.lstrip open_mdm.Base.Text.rstrip
    open_mdm.Python.Str.lower open_mdm.Python.Str.to_str
    open_mdm.Pipeline.Promotion.Target.resolve_target open_mdm.Pipeline.Promotion.insert_staging
    open_mdm.Pipeline.Promotion.mark_landing open_mdm.Pipeline.Review.Golden.apply_change
    open_mdm.Pipeline.Review.Golden.insert_live open_mdm.Pipeline.Review.apply_row
    open_mdm.Pipeline.Review.check_row open_mdm.Pipeline.Review.mark_applied
    open_mdm.Pipeline.Review.select_staging open_mdm.Sql.add_audit open_mdm.Sql.add_batch
    open_mdm.Sql.guard open_mdm.Sql.pure open_mdm.Sql.raise
    open_mdm.Validation.Constraints.check_constraints open_mdm.Validation.Constraints.truthy
    open_mdm.Validation.MatchKey.build_match_key open_mdm.Validation.Record.field_values
applied_without_errors_example =
    applied_without_errors cfg pg py entity (promote "b2" [] 10 "cron" ∷ [])
      (state (landed_row none LandingStatus.pending none ∷ []) [] [] []) approved_after.1 8 "bob" []
      none none (record { staging_id = 8; applied = inserted "g1" }) tt refl

abbrev promoted_one : Promotion
promoted_one = record {
  rows_in = 1;
  promoted = 1;
  failures = 0;
  results =
      staged (record {
        landing_id = 4;
        staging_id = 8;
        is_valid = true;
        change_type = ChangeType.insert;
        errors = 0;
      })
      ∷ [];
}

promotion_accounts_example :
    (1 ≡ length (take 10 (keep (wanted []) start.tables.landing)))
    × Balanced (4 ∷ []) 1 0 promoted_one.results
    × (1 ≤ 10)
unfolding open_mdm.Sql.◌>>=◌ open_mdm.Sql.statement promote_landing_to_staging
    open_mdm.Pipeline.Promotion.select_pending open_mdm.Pipeline.Promotion.promote_rows
    open_mdm.Pipeline.Promotion.promote_row open_mdm.Sql.try_except
    open_mdm.Validation.Record.validate_record open_mdm.Validation.Record.known
    open_mdm.Validation.Record.field_step open_mdm.Validation.coerce_value
    open_mdm.Validation.normalize_value open_mdm.Base.Text.strip open_mdm.Base.Text.is_space
    open_mdm.Base.Text.lower_ascii open_mdm.Base.Text.lstrip open_mdm.Base.Text.rstrip
    open_mdm.Python.Str.lower open_mdm.Python.Str.to_str
    open_mdm.Pipeline.Promotion.Target.resolve_target open_mdm.Pipeline.Promotion.insert_staging
    open_mdm.Pipeline.Promotion.mark_landing open_mdm.Sql.add_batch open_mdm.Sql.pure
    open_mdm.Sql.raise open_mdm.Validation.Constraints.check_constraints
    open_mdm.Validation.Constraints.truthy open_mdm.Validation.MatchKey.build_match_key
    open_mdm.Validation.Record.field_values
promotion_accounts_example =
    promotion_accounts pg py entity "b2" [] 10 "cron" start
      (promote_landing_to_staging pg py entity "b2" [] 10 "cron" start).1 promoted_one refl
