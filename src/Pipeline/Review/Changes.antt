-- ===== src/Pipeline/Review/Changes.antt =====
-- The only changes that a review makes. Rejecting and editing rewrite staged rows; approving also
-- appends to the history and rewrites the live table. Whatever these keep, the operations keep.
use open_mdm.Base.{ℕ, String, Bool, not, ◌&&◌, Option, none, some, List, Dict, update_where}
use open_mdm.Base.Results.{Result, ok, err}
use open_mdm.Models.{Entity}
use open_mdm.Pipeline.Promotion.Target.Reads.{read-same}
use open_mdm.Pipeline.Review.{
  business_row, has_id, is_applied, as_reviewed, as_edited, select_staging, mark_applied, check_row,
  apply_row, apply_staging_to_live, mark_rejected, reject_staging, update_staging, edit_validated,
  edit_row, edit_staging,
}
use open_mdm.Pipeline.Review.Golden.{apply_change}
use open_mdm.Pipeline.Review.Golden.Changes.{GoldenStable, apply_change-Keeps}
use open_mdm.Python.{Python, Value}
use open_mdm.Settings.{Settings}
use open_mdm.Sql.{statement}
use open_mdm.Sql.Keeps.{Keeps, Keeps-bind, Keeps-statement, accept-same, keeps_rules}
use open_mdm.Tiers.{StagingStatus, StagingRow, Tables, Postgres}
use open_mdm.Validation.Constraints.{Failure}
use open_mdm.Validation.Record.{Outcome}

abbrev pub restaged : (StagingRow → Bool) → (StagingRow → StagingRow) → Tables → Tables
restaged test change t = record t { staging = update_where test change t.staging }

-- What a review needs of a property of the tables.
pub record StagingStable (P : Tables → Type 0) : Type 0 where
  pub review :
      (test : StagingRow → Bool) (status : StagingStatus) (actor : String) (remark : Option String)
      (now : ℕ) (t : Tables)
      → P t
      → P (restaged test (as_reviewed status actor remark now) t)
  pub edit :
      (pg : Postgres) (py : Python) (entity : Entity) (id : ℕ) (o : Outcome) (fields : List String)
      (actor : String) (now : ℕ) (t : Tables)
      → P t
      → P (restaged (has_id id) (as_edited pg py entity o fields actor now) t)

module _ {P : Tables → Type 0} where
  select_staging-Keeps : (id : ℕ) → Keeps P (statement (select_staging id))
  unfolding select_staging
  select_staging-Keeps id = Keeps-statement (select_staging id) (λ n t a t' h p. read-same P h p)

module _ {P : Tables → Type 0} (stable : StagingStable P) where
  mark_rejected-Keeps :
      (id : ℕ) (actor : String) (remark : Option String)
      → Keeps P (statement (mark_rejected id actor remark))
  unfolding mark_rejected
  mark_rejected-Keeps id actor remark =
      Keeps-statement (mark_rejected id actor remark) (λ n t a t' h p. read-same P h (
        stable.review (λ (x : StagingRow). has_id id x && not (is_applied x.status))
          StagingStatus.rejected actor remark n t p))

  mark_applied-Keeps :
      (id : ℕ) (actor : String) (remark : Option String)
      → Keeps P (statement (mark_applied id actor remark))
  unfolding mark_applied
  mark_applied-Keeps id actor remark =
      Keeps-statement (mark_applied id actor remark) (λ n t a t' h p.
        read-same P h (stable.review (has_id id) StagingStatus.applied actor remark n t p))

  pub reject_staging-Keeps :
      (entity : Entity) (id : ℕ) (shown actor : String) (roles : List String) (reason : String)
      → Keeps P (reject_staging entity id shown actor roles reason)
  unfolding reject_staging
  reject_staging-Keeps entity id shown actor roles reason =
      search (keeps_rules, mark_rejected-Keeps)

  module _ (pg : Postgres) (py : Python) (entity : Entity) where
    update_staging-Keeps :
        (row : StagingRow) (o : Outcome) (fields : List String) (actor : String)
        → Keeps P (statement (update_staging pg py entity row o fields actor))
    unfolding update_staging
    update_staging-Keeps row o fields actor =
        Keeps-statement (update_staging pg py entity row o fields actor) (λ n t a t' h p.
          accept-same P _ _ a _ t' h (stable.edit pg py entity row.id o fields actor n t p))

    edit_validated-Keeps :
        (row : StagingRow) (updates : Dict Value) (actor : String) (roles : List String)
        (shown : String) (v : Result Failure Outcome)
        → Keeps P (edit_validated pg py entity row updates actor roles shown v)
    unfolding edit_validated
    edit_validated-Keeps row updates actor roles shown (err f) = search keeps_rules
    edit_validated-Keeps row updates actor roles shown (ok o) =
        search (keeps_rules, update_staging-Keeps)

    edit_row-Keeps :
        (updates : Dict Value) (actor : String) (roles : List String) (shown : String)
        (o : Option StagingRow)
        → Keeps P (edit_row pg py entity updates actor roles shown o)
    unfolding edit_row
    edit_row-Keeps updates actor roles shown none = search keeps_rules
    edit_row-Keeps updates actor roles shown (some row) = search (keeps_rules, edit_validated-Keeps)

    pub edit_staging-Keeps :
        (id : ℕ) (updates : Dict Value) (actor : String) (roles : List String) (shown : String)
        → Keeps P (edit_staging pg py entity id updates actor roles shown)
    unfolding edit_staging
    edit_staging-Keeps id updates actor roles shown =
        search (keeps_rules, select_staging-Keeps, edit_row-Keeps)

  module _ (cfg : Settings) (pg : Postgres) (entity : Entity) (golden : GoldenStable P) where
    check_row-Keeps :
        (sod : Bool) (actor : String) (row : StagingRow)
        → Keeps P (check_row cfg pg entity sod actor row)
    unfolding check_row
    check_row-Keeps sod actor row = search keeps_rules

    apply_row-Keeps :
        (sod : Bool) (actor : String) (roles : List String) (remark : Option String) (id : ℕ)
        (o : Option StagingRow)
        → Keeps P (apply_row cfg pg entity sod actor roles remark id o)
    unfolding apply_row
    apply_row-Keeps sod actor roles remark id none = search keeps_rules
    apply_row-Keeps sod actor roles remark id (some row) =
        Keeps-bind (check_row cfg pg entity sod actor row) _ (check_row-Keeps sod actor row) (λ u.
          Keeps-bind (apply_change cfg pg entity actor id (business_row entity row)) _
            (apply_change-Keeps cfg pg entity golden actor id (business_row entity row))
            (λ result. search (keeps_rules, mark_applied-Keeps)))

    pub apply_staging_to_live-Keeps :
        (id : ℕ) (actor : String) (roles : List String) (remark : Option String)
        (enforce_sod : Option Bool)
        → Keeps P (apply_staging_to_live cfg pg entity id actor roles remark enforce_sod)
    unfolding apply_staging_to_live
    apply_staging_to_live-Keeps id actor roles remark enforce_sod =
        search (keeps_rules, select_staging-Keeps, apply_row-Keeps)
