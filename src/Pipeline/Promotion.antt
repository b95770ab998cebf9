-- ===== src/Pipeline/Promotion.antt =====
-- Tier 1 to 2 of app/services/pipeline.py: `_resolve_target` and `promote_landing_to_staging`.
pub mod Target
pub mod Changes
pub mod Laws
pub mod Poison
use open_mdm.Base.{
  ℕ, zero, suc, ◌+◌, String, Bool, true, false, not, ◌&&◌, ◌||◌, Option, none, some, List, [], ◌∷◌,
  ◌++◌, map, Dict, any, keep, take, length, lookup, has_key, keys, update_where, is_empty, eqb,
  if◌then◌else◌,
}
use open_mdm.Base.Results.{Result, ok, err}
use open_mdm.Models.{Attribute, Entity, PromotionBatch}
use open_mdm.Python.{Python, Value, or_null}
use open_mdm.Sql.{
  accept, Exc, raised, State, M, pure, raise, statement, try_except, add_batch, ◌>>=◌, ◌>>◌,
}
use open_mdm.Tiers.{
  Operation, LandingStatus, LandingRow, StagingStatus, StagingRow, ChangeType, Tables, Postgres,
}
use open_mdm.Validation.{FieldError}
use open_mdm.Validation.Constraints.{Failure}
use open_mdm.Validation.MatchKey.{build_match_key}
use open_mdm.Validation.Record.{Outcome, validate_record}
use Target.{Resolved, resolve_target}

abbrev pub is_pending : LandingRow → Bool
is_pending row = elim row.status [ LandingStatus.pending ↦ true | _ ↦ false ]

abbrev pub wanted : List ℕ → LandingRow → Bool
wanted ids row = is_pending row && (is_empty ids || any (eqb row.id) ids)

unfoldable pub select_pending : List ℕ → ℕ → ℕ → Tables → Result Exc (List LandingRow × Tables)
select_pending ids limit now t = ok (take limit (keep (wanted ids) t.landing), t)

-- UPDATE and DELETE are validated as partial records.
abbrev pub is_partial : Operation → Bool
is_partial Operation.update = true
is_partial Operation.delete = true
is_partial _ = false

abbrev pub attr_names : Entity → List String
attr_names entity = map (λ a. a.name) entity.attributes

-- A staged row's business columns: the values that are written, and the DEFAULT of every other.
abbrev pub staged_values : Postgres → List Attribute → Dict Value → Dict Value
staged_values pg [] values = []
staged_values pg (a ∷ attrs) values = elim (lookup a.name values) [
  | none ↦ (a.name, pg.column_default a) ∷ staged_values pg attrs values
  | some v ↦ (a.name, v) ∷ staged_values pg attrs values
]

-- What DELETE makes of the resolution: it must have found a golden record.
abbrev pub for_delete : Operation → Resolved → Resolved
for_delete Operation.delete r = record r {
  change_type = ChangeType.delete;
  errors = elim r.target [
    | none ↦ r.errors ++ record { at = "_record"; code = "not_found" } ∷ []
    | some id ↦ r.errors
  ];
}
for_delete _ r = r

pub record Staged : Type 0 where
  pub landing_id : ℕ
  pub staging_id : ℕ
  pub is_valid : Bool
  pub change_type : ChangeType
  pub errors : ℕ

-- An entry of the `results` list.
pub data RowResult : Type 0 where
  staged : Staged → RowResult
  failed : ℕ → Exc → RowResult

-- `mdm_errors` as an exception leaves it; a promotion does not touch it.
abbrev pub noted_errors : Option Exc → Option Exc → Option Exc
noted_errors none old = old
noted_errors (some e) old = some e

abbrev pub as_marked : LandingStatus → Option Exc → ℕ → LandingRow → LandingRow
as_marked status raised_by now row = record row {
  status = status;
  errors = noted_errors raised_by row.errors;
  processed_at = some now;
}

-- The UPDATE of a row that was promoted, or that raised.
unfoldable pub mark_landing :
    LandingStatus → Option Exc → ℕ → ℕ → Tables → Result Exc (Unit {0} × Tables)
mark_landing status raised_by id now t = ok (
  tt,
  record t {
    landing = update_where (λ row. eqb row.id id) (as_marked status raised_by now) t.landing;
  },
)

pub record Promotion : Type 0 where
  pub rows_in : ℕ
  pub promoted : ℕ
  pub failures : ℕ
  pub results : List RowResult

-- `ok`, `failed` and `results` in the course of the loop.
pub record Tally : Type 0 where
  pub promoted : ℕ
  pub failures : ℕ
  pub results : List RowResult

-- `ok += 1` in the `try` block, `failed += 1` in the handler.
abbrev pub counted : RowResult → Tally → Tally
counted (staged x) t = record {
  promoted = suc t.promoted;
  failures = t.failures;
  results = t.results ++ staged x ∷ [];
}
counted (failed id e) t = record {
  promoted = t.promoted;
  failures = suc t.failures;
  results = t.results ++ failed id e ∷ [];
}

abbrev pub promotion_of : List LandingRow → Tally → Promotion
promotion_of rows t = record {
  rows_in = length rows;
  promoted = t.promoted;
  failures = t.failures;
  results = t.results;
}

module _ (pg : Postgres) (py : Python) (entity : Entity) (batch_id : String) where
  abbrev pub staging_row : LandingRow → Outcome → Resolved → ℕ → StagingRow
  staging_row r o found id = record {
    id = id;
    landing_id = r.id;
    operation = r.operation;
    target_id = found.target;
    match_key = build_match_key py o.values entity;
    source_system = r.source_system;
    batch_id = batch_id;
    status = StagingStatus.pending_review;
    errors = found.errors;
    is_valid = is_empty found.errors;
    change_type = found.change_type;
    submitted_by = r.submitted_by;
    edited_by = none;
    edited_at = none;
    reviewed_by = none;
    reviewed_at = none;
    review_note = none;
    supplied_fields = keep (λ a. has_key a r.payload) (attr_names entity);
    values = staged_values pg entity.attributes o.values;
  }

  -- The INSERT of the staged row.
  unfoldable pub insert_staging :
      LandingRow → Outcome → Resolved → ℕ → Tables → Result Exc (ℕ × Tables)
  insert_staging r o found now t =
      let row = staging_row r o found t.next_staging in
      accept (pg.accepts_staging row) t.next_staging
        (record t { staging = t.staging ++ row ∷ []; next_staging = suc t.next_staging })

  stage : LandingRow → Outcome → Resolved → M RowResult
  stage r o found = do
    id ← statement (insert_staging r o found)
    statement (mark_landing LandingStatus.promoted none r.id)
    pure (
        staged (record {
          landing_id = r.id;
          staging_id = id;
          is_valid = is_empty found.errors;
          change_type = found.change_type;
          errors = length found.errors;
        }))

  validated : LandingRow → Result Failure Outcome → M RowResult
  unfolding stage
  validated r (err f) = raise (raised f)
  validated r (ok o) = do
    found ← resolve_target pg py entity o.values r.target_id r.operation o.errors
    stage r o (for_delete r.operation found)

  -- The `try` block of the loop, and its handler.
  unfoldable pub promote_row : LandingRow → M RowResult
  unfolding validated
  promote_row r =
      try_except (validated r (validate_record py r.payload entity (is_partial r.operation)))
        (λ e. statement (mark_landing LandingStatus.error (some e) r.id) >> pure (failed r.id e))

  unfoldable pub promote_rows : List LandingRow → Tally → M Tally
  promote_rows [] t = pure t
  promote_rows (r ∷ rows) t = do result ← promote_row r; promote_rows rows (counted result t)

  abbrev pub batch_of : String → Promotion → PromotionBatch
  batch_of actor p = record {
    entity_name = entity.name;
    stage = "landing_to_staging";
    status = if eqb p.failures 0 then "completed" else "completed_with_errors";
    rows_in = p.rows_in;
    rows_ok = p.promoted;
    rows_failed = p.failures;
    triggered_by = actor;
  }

  -- The batch is added when it is finished: a run that raises leaves none, since the session is
  -- rolled back with it.
  unfoldable pub promote_landing_to_staging : List ℕ → ℕ → String → M Promotion
  promote_landing_to_staging ids limit actor = do
    rows ← statement (select_pending ids limit)
    t ← promote_rows rows (record { promoted = 0; failures = 0; results = [] })
    add_batch (batch_of actor (promotion_of rows t))
    pure (promotion_of rows t)
