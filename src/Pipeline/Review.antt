-- ===== src/Pipeline/Review.antt =====
-- Tier 2 to 3 of app/services/pipeline.py: `apply_staging_to_live` with its three ways to change a
-- golden record, and `reject_staging` and `edit_staging`.
pub mod Golden
pub mod Approval
pub mod Refusal
pub mod Editing
pub mod Rejection
pub mod Changes
use open_mdm.Base.{
  ℕ, String, Bool, true, false, not, ◌&&◌, ◌||◌, Option, none, some, List, [], ◌∷◌, ◌++◌, Dict, all,
  any, find_first, update_where, keep, lookup, update, keys, member, is_empty, eqb, ◌==◌,
  if◌then◌else◌,
}
use open_mdm.Base.Results.{Result, ok, err}
use open_mdm.Base.Int.{pos}
use open_mdm.Models.{Attribute, Entity, AuditEvent}
use open_mdm.Pipeline.Landing.{truthy_text}
use open_mdm.Pipeline.Promotion.{attr_names, is_partial, staged_values}
use open_mdm.Python.{Python, Value, null, int, str}
use open_mdm.Settings.{Settings}
use open_mdm.Sql.{accept, Exc, State, M, pure, raise, statement, guard, add_audit, ◌>>=◌, ◌>>◌}
use open_mdm.Tiers.{Operation, StagingStatus, StagingRow, Tables, Postgres}
use open_mdm.Validation.{FieldError}
use open_mdm.Validation.Constraints.{Failure}
use open_mdm.Validation.MatchKey.{build_match_key}
use open_mdm.Validation.Record.{Outcome, validate_record}
use Golden.{Applied, apply_change, applied_name, shown_id}

abbrev pub is_final : StagingStatus → Bool
is_final StagingStatus.applied = true
is_final StagingStatus.rejected = true
is_final _ = false

abbrev pub is_applied : StagingStatus → Bool
is_applied StagingStatus.applied = true
is_applied _ = false

-- `a or b` of two optional texts.
abbrev pub or_text : Option String → Option String → Option String
or_text a b = if truthy_text a then a else b

-- `row["mdm_edited_by"] or row["mdm_submitted_by"]`
abbrev pub originator : StagingRow → Option String
originator row = or_text row.edited_by row.submitted_by

-- `originator and originator == actor`
abbrev pub is_originator : Option String → String → Bool
is_originator none actor = false
is_originator (some name) actor = truthy_text (some name) && name == actor

abbrev pub has_id : ℕ → StagingRow → Bool
has_id id row = eqb row.id id

unfoldable pub select_staging : ℕ → ℕ → Tables → Result Exc (Option StagingRow × Tables)
select_staging id now t = ok (find_first (has_id id) t.staging, t)

abbrev pub as_reviewed : StagingStatus → String → Option String → ℕ → StagingRow → StagingRow
as_reviewed status actor remark now row = record row {
  status = status;
  reviewed_by = some actor;
  reviewed_at = some now;
  review_note = remark;
}

-- The UPDATE that marks the row applied.
unfoldable pub mark_applied :
    ℕ → String → Option String → ℕ → Tables → Result Exc (Unit {0} × Tables)
mark_applied id actor remark now t = ok (
  tt,
  record t {
    staging =
        update_where (has_id id) (as_reviewed StagingStatus.applied actor remark now) t.staging;
  },
)

abbrev pub staging_event :
    Entity → String → List String → String → String → String → Dict Value → AuditEvent
staging_event entity actor roles action id tier detail = record {
  actor = actor;
  actor_roles = roles;
  action = action;
  entity_name = some entity.name;
  record_id = some id;
  tier = some tier;
  detail = detail;
  success = true;
}

-- An optional text as a value of the event's detail.
abbrev pub text_or_null : Option String → Value
text_or_null none = null
text_or_null (some s) = str s

-- The columns of the row that are attributes.
abbrev pub attribute_values : List String → Dict Value → Dict Value
attribute_values names values = keep (λ (k, v). member k names) values

-- The row with the values that are applied.
abbrev pub business_row : Entity → StagingRow → StagingRow
business_row entity row = record row { values = attribute_values (attr_names entity) row.values }

pub record Reviewed : Type 0 where
  pub staging_id : ℕ
  pub applied : Applied

module _ (cfg : Settings) (pg : Postgres) (entity : Entity) where
  -- The checks before a row is applied, in their order.
  unfoldable pub check_row : Bool → String → StagingRow → M (Unit {0})
  check_row sod actor row = do
    guard (not (is_final row.status)) (Exc.already_final row.status)
    guard row.is_valid Exc.validation_unresolved
    guard (not (sod && is_originator (originator row) actor)) Exc.segregation_of_duties

  unfoldable pub apply_row :
      Bool → String → List String → Option String → ℕ → Option StagingRow → M Reviewed
  unfolding check_row
  apply_row sod actor roles remark id none = raise Exc.staging_not_found
  apply_row sod actor roles remark id (some row) = do
    check_row sod actor row
    result ← apply_change cfg pg entity actor id (business_row entity row)
    statement (mark_applied id actor remark)
    add_audit (
        staging_event entity actor roles (applied_name result) (shown_id result) "live"
          (("staging_id", int (pos id)) ∷ ("note", text_or_null remark) ∷ []))
    pure (record { staging_id = id; applied = result })

  -- `enforce_sod` overrides the setting.
  abbrev pub sod_enforced : Option Bool → Bool
  sod_enforced none = cfg.enforce_segregation_of_duties
  sod_enforced (some b) = b

  unfoldable pub apply_staging_to_live :
      ℕ → String → List String → Option String → Option Bool → M Reviewed
  unfolding apply_row
  apply_staging_to_live id actor roles remark enforce_sod = do
    row ← statement (select_staging id)
    apply_row (sod_enforced enforce_sod) actor roles remark id row

-- The UPDATE of `reject_staging`, and whether a row was updated.
unfoldable pub mark_rejected : ℕ → String → Option String → ℕ → Tables → Result Exc (Bool × Tables)
mark_rejected id actor remark now t =
    let open_row = λ (row : StagingRow). has_id id row && not (is_applied row.status) in
    ok (
      any open_row t.staging,
      record t {
        staging =
            update_where open_row (as_reviewed StagingStatus.rejected actor remark now) t.staging;
      },
    )

unfoldable pub reject_staging : Entity → ℕ → String → String → List String → String → M (Unit {0})
reject_staging entity id shown actor actor_roles reason = do
  updated ← statement (mark_rejected id actor (some reason))
  guard updated Exc.not_found_or_applied
  add_audit (
      staging_event entity actor actor_roles "reject" shown "staging" (("reason", str reason) ∷ []))

-- `set(previously) | set(updates)`; the sorting is left out.
abbrev pub union : List String → List String → List String
union previously added = previously ++ keep (λ k. not (member k previously)) added

module _ (pg : Postgres) (py : Python) (entity : Entity) where
  abbrev pub as_edited : Outcome → List String → String → ℕ → StagingRow → StagingRow
  as_edited o fields actor now row = record row {
    values = update row.values o.values;
    errors = o.errors;
    is_valid = is_empty o.errors;
    match_key = build_match_key py o.values entity;
    edited_by = some actor;
    edited_at = some now;
    status = StagingStatus.pending_review;
    supplied_fields = union row.supplied_fields fields;
  }

  -- The UPDATE of `edit_staging`.
  unfoldable pub update_staging :
      StagingRow → Outcome → List String → String → ℕ → Tables → Result Exc (Unit {0} × Tables)
  update_staging row o fields actor now t =
      accept (pg.accepts_staging (as_edited o fields actor now row)) tt (record t {
        staging = update_where (has_id row.id) (as_edited o fields actor now) t.staging;
      })

  pub record Edited : Type 0 where
    pub staging_id : ℕ
    pub is_valid : Bool
    pub errors : List FieldError

  edit_validated :
      StagingRow → Dict Value → String → List String → String → Result Failure Outcome → M Edited
  edit_validated row updates actor roles shown (err f) = raise (Exc.raised f)
  edit_validated row updates actor roles shown (ok o) = do
    statement (update_staging row o (keys updates) actor)
    add_audit (staging_event entity actor roles "edit_staging" shown "staging" [])
    pure (record { staging_id = row.id; is_valid = is_empty o.errors; errors = o.errors })

  edit_row : Dict Value → String → List String → String → Option StagingRow → M Edited
  unfolding edit_validated
  edit_row updates actor roles shown none = raise Exc.staging_not_found
  edit_row updates actor roles shown (some row) = do
    guard (not (is_applied row.status)) Exc.already_applied
    guard (all (λ k. member k (attr_names entity)) (keys updates)) Exc.unknown_fields
    edit_validated row updates actor roles shown (
        validate_record py (update (attribute_values (attr_names entity) row.values) updates) entity
          (is_partial row.operation))

  -- `shown` is `str(staging_id)`, which the audit event records.
  unfoldable pub edit_staging : ℕ → Dict Value → String → List String → String → M Edited
  unfolding edit_row
  edit_staging id updates actor roles shown = do
    row ← statement (select_staging id)
    edit_row updates actor roles shown row
