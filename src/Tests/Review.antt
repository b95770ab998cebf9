-- ===== src/Tests/Review.antt =====
-- Witnesses for the steward's review.
use open_mdm.Base.{◌≡◌, refl, true, false, none, some, [], ◌∷◌, lookup}
use open_mdm.Base.Results.{Result, err}
use open_mdm.Pipeline.Review.{Reviewed, Edited, edit_staging, reject_staging, apply_staging_to_live}
use open_mdm.Pipeline.Review.Editing.{Revised, edit_staging-Revised}
use open_mdm.Pipeline.Review.Approval.{Approved, approval_checked}
use open_mdm.Pipeline.Review.Golden.{
  no_change, inserted, hard_deleted, supplied_values, as_updated, apply_change,
}
use open_mdm.Pipeline.Review.Refusal.{approval_refused, approval_once}
use open_mdm.Python.{str}
use open_mdm.Sql.{Exc, State}
use open_mdm.Tests.Fixtures.{cfg, py, pg, entity, staged_row, golden, state}
use open_mdm.Tiers.{Operation, StagingStatus, StagingRow}

abbrev submitted : State
submitted = state [] (staged_row Operation.insert none ∷ []) [] []

-- What the approval by "bob" returns, and the state that it leaves.
abbrev bob_approves : Result Exc Reviewed × State
bob_approves = apply_staging_to_live cfg pg entity 7 "bob" [] none none submitted

abbrev reviewed : Reviewed
reviewed = record { staging_id = 7; applied = inserted "g1" }

approval_checked_example : Approved cfg pg entity true "bob" none 7 submitted bob_approves.1
unfolding apply_staging_to_live open_mdm.Sql.◌>>=◌ open_mdm.Sql.statement
    open_mdm.Pipeline.Review.select_staging open_mdm.Sql.guard apply_change
    open_mdm.Pipeline.Review.Golden.insert_live open_mdm.Sql.pure
    open_mdm.Pipeline.Review.mark_applied open_mdm.Sql.add_audit
approval_checked_example =
    approval_checked cfg pg entity 7 "bob" [] none none submitted bob_approves.1 reviewed refl

approval_refused_example :
    apply_staging_to_live cfg pg entity 7 "ann" [] none none submitted
    ≡ (err Exc.segregation_of_duties, submitted)
approval_refused_example =
    approval_refused cfg pg entity 7 "ann" [] none none submitted Exc.segregation_of_duties refl
      refl

approval_once_example :
    apply_staging_to_live cfg pg entity 7 "eve" [] none (some false) bob_approves.1
    ≡ (err (Exc.already_final StagingStatus.applied), bob_approves.1)
unfolding apply_staging_to_live open_mdm.Sql.◌>>=◌ open_mdm.Sql.statement
    open_mdm.Pipeline.Review.select_staging open_mdm.Sql.guard apply_change
    open_mdm.Pipeline.Review.Golden.insert_live open_mdm.Sql.pure
    open_mdm.Pipeline.Review.mark_applied open_mdm.Sql.add_audit
approval_once_example =
    approval_once cfg pg entity 7 "bob" "eve" [] [] none none none (some false) submitted
      bob_approves.1 reviewed refl

abbrev renaming : StagingRow
renaming = staged_row Operation.update (some "g1")

abbrev deletion : StagingRow
deletion = staged_row Operation.delete (some "g1")

abbrev stored : State
stored = state [] [] (golden ∷ []) []

abbrev edited : Edited pg py entity
edited = record { staging_id = 7; is_valid = true; errors = [] }

abbrev renames : Result Exc (Edited pg py entity) × State
renames = edit_staging pg py entity 7 (("name", str "Apex") ∷ []) "bob" [] "7" submitted

edit_staging-Revised_example :
    Revised pg py entity (("name", str "Apex") ∷ []) "bob" 7 submitted renames.1 edited
unfolding edit_staging open_mdm.Sql.◌>>=◌ open_mdm.Sql.statement
    open_mdm.Pipeline.Review.select_staging open_mdm.Sql.guard
    open_mdm.Validation.Record.validate_record open_mdm.Validation.Record.known
    open_mdm.Validation.Record.field_step open_mdm.Validation.coerce_value
    open_mdm.Validation.normalize_value open_mdm.Base.Text.strip open_mdm.Python.Str.lower
    open_mdm.Base.Text.lower_ascii open_mdm.Validation.Constraints.check_constraints
    open_mdm.Validation.Constraints.truthy open_mdm.Pipeline.Review.update_staging
    open_mdm.Sql.add_audit open_mdm.Base.Text.is_space open_mdm.Base.Text.lstrip
    open_mdm.Base.Text.rstrip open_mdm.Sql.pure open_mdm.Validation.Record.field_values
    open_mdm.Validation.Record.unknown_fields open_mdm.Validation.MatchKey.build_match_key
edit_staging-Revised_example =
    edit_staging-Revised pg py entity (("name", str "Apex") ∷ []) "bob" 7 [] "7" submitted renames.1
      edited refl

-- A staged update that supplies nothing.
abbrev idle : StagingRow
idle = record renaming { supplied_fields = []; values = [] }
