-- ===== src/Tests/Batches.antt =====
-- Witnesses for bulk loads and bulk approvals: two suppliers are loaded; of two rows, one is approved
-- and one does not exist.
use open_mdm.Base.{◌≡◌, refl, true, none, some, [], ◌∷◌}
use open_mdm.Base.Results.{Result, ok, err}
use open_mdm.Models.{User, UserSource}
use open_mdm.Sql.{Exc, State, pure, ◌>>◌}
use open_mdm.System.{approve, run_all}
use open_mdm.System.Batches.{BulkReview, Reviewed, Reports, bulk_approve, bulk_approve-run_all}
use open_mdm.System.Bulk.{
  BulkWrite, auto_promote, reported, bulk_write, with_rows, bulk_write_captures,
}
use open_mdm.Tests.Fixtures.{cfg, pg, py, entity, acme, state, staged_row, golden}
use open_mdm.Tiers.{Operation}

abbrev bob : User
bob = record {
  username = "bob";
  email = none;
  display_name = none;
  source = UserSource.local;
  password_hash = none;
  dn = none;
  roles = "steward" ∷ [];
  entity_permissions = [];
  is_active = true;
  last_login_at = none;
}

abbrev batch : BulkWrite
batch = record { records = acme ∷ [] ∷ []; operation = "UPSERT"; source_system = some "erp" }

abbrev empty_state : State
empty_state = state [] [] [] []

abbrev staged : State
staged = state [] (staged_row Operation.update (some "g1") ∷ []) (golden ∷ []) []

abbrev review : BulkReview
review = record { staging_ids = 7 ∷ 9 ∷ []; note = none }

abbrev nothing : Reviewed
nothing = record { done = []; failed = [] }

abbrev outcome : Result Exc Reviewed → Reviewed
outcome (ok r) = r
outcome (err e) = nothing

abbrev reviewed : Reviewed
reviewed = outcome (bulk_approve cfg pg py entity review bob staged).0

bulk_write_captures_example :
    bulk_write py cfg pg entity batch bob "b1" "b2" empty_state
    ≡ reported py cfg pg entity (
        (auto_promote py cfg pg entity "b2" "bob"
            >> pure (record { rows_received = 2; landing_ids = 5 ∷ 6 ∷ [] }))
          (with_rows py pg batch Operation.upsert bob "b1" batch.records empty_state))
bulk_write_captures_example =
    bulk_write_captures py pg batch Operation.upsert bob "b1" cfg entity "b2" empty_state refl refl
      refl (refl, (refl, tt)) refl

bulk_approve-run_all_example :
    ((bulk_approve cfg pg py entity review bob staged).1
      ≡ run_all cfg pg py entity
          (approve 7 "bob" ("steward" ∷ []) none none
            ∷ approve 9 "bob" ("steward" ∷ []) none none
            ∷ [])
          staged)
    × Reports cfg pg py entity
        (λ id. approve id "bob" ("steward" ∷ []) none none)
        (7 ∷ 9 ∷ [])
        staged
        (7 ∷ [])
        ((9, Exc.staging_not_found) ∷ [])
        (bulk_approve cfg pg py entity review bob staged).1
unfolding bulk_approve open_mdm.System.transaction open_mdm.Sql.begin open_mdm.Sql.◌>>=◌
    open_mdm.Pipeline.Review.apply_staging_to_live open_mdm.Sql.statement
    open_mdm.Pipeline.Review.select_staging open_mdm.Sql.guard
    open_mdm.Pipeline.Review.Golden.apply_change open_mdm.Pipeline.Promotion.Target.select_by_id
    open_mdm.Pipeline.Review.Golden.write_history open_mdm.Pipeline.Review.Golden.update_live pure
    open_mdm.Pipeline.Review.mark_applied open_mdm.Sql.add_audit open_mdm.Sql.raise
bulk_approve-run_all_example = bulk_approve-run_all cfg pg py entity review bob staged reviewed refl
