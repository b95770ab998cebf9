-- ===== src/Tiers.antt =====
-- The four tables of one published entity, as app/services/ddl.py creates them, and the rows that
-- app/services/pipeline.py reads and writes. Rows stand in the order of their ids. A row's business
-- columns are a dict from the attribute's name. Left out: the submission time of a staged row and the
-- serial number of a history row, which only reports read.
use open_mdm.Base.{ℕ, String, Bool, Option, List, Dict}
use open_mdm.Models.{Attribute}
use open_mdm.Python.{Value}
use open_mdm.Validation.{FieldError}
use open_mdm.Validation.Constraints.{Failure}

pub data Operation : Type 0 where
  insert update delete upsert : Operation

pub data LandingStatus : Type 0 where
  pending promoted rejected error : LandingStatus

pub data StagingStatus : Type 0 where
  pending_review changes_requested approved rejected applied error : StagingStatus

pub data ChangeType : Type 0 where
  insert update delete : ChangeType

-- The exceptions that leave a service function, each message of a `PipelineError` by a name.
pub data Exc : Type 0 where
  unsupported_operation staging_not_found validation_unresolved golden_gone : Exc
  not_found_or_applied already_applied unknown_fields : Exc
  already_final : StagingStatus → Exc
  segregation_of_duties : Exc
  sql_error transaction_aborted : Exc
  raised : Failure → Exc

pub record LandingRow : Type 0 where
  pub id : ℕ
  pub operation : Operation
  pub payload : Dict Value
  pub target_id : Option String
  pub source_system : Option String
  pub batch_id : Option String
  pub idempotency_key : Option String
  pub submitted_by : Option String
  pub received_at : ℕ
  pub status : LandingStatus
  -- What the handler of a failed promotion has written; NULL before.
  pub errors : Option Exc
  pub processed_at : Option ℕ

pub record StagingRow : Type 0 where
  pub id : ℕ
  pub landing_id : ℕ
  pub operation : Operation
  pub target_id : Option String
  pub match_key : Option String
  pub source_system : Option String
  pub batch_id : String
  pub status : StagingStatus
  pub errors : List FieldError
  pub is_valid : Bool
  pub change_type : ChangeType
  pub submitted_by : Option String
  pub edited_by : Option String
  pub edited_at : Option ℕ
  pub reviewed_by : Option String
  pub reviewed_at : Option ℕ
  pub review_note : Option String
  pub supplied_fields : List String
  pub values : Dict Value

pub record LiveRow : Type 0 where
  pub id : String
  pub version : ℕ
  pub source_system : Option String
  pub is_deleted : Bool
  pub deleted_at : Option ℕ
  pub created_at : ℕ
  pub created_by : Option String
  pub updated_at : ℕ
  pub updated_by : Option String
  pub approved_by : Option String
  pub staging_id : Option ℕ
  pub values : Dict Value

pub record HistoryRow : Type 0 where
  pub id : String
  pub version : ℕ
  pub change_type : ChangeType
  pub valid_from : ℕ
  pub valid_to : ℕ
  pub changed_by : String
  pub source_system : Option String
  pub is_deleted : Bool
  pub staging_id : Option ℕ
  pub values : Dict Value

pub record Tables : Type 0 where
  pub landing : List LandingRow
  pub staging : List StagingRow
  pub live : List LiveRow
  pub history : List HistoryRow
  -- The next values of the `bigserial` sequences.
  pub next_landing : ℕ
  pub next_staging : ℕ

-- What Postgres decides, given the row: the value of a column's DEFAULT, the canonical text of a
-- UUID, comparisons in SQL, and the constraints that are not written out below.
pub record Postgres : Type 0 where
  pub column_default : Attribute → Value
  pub cast_uuid : String → Option String
  pub new_uuid : Tables → String
  pub equal : Value → Value → Bool
  -- `lower(trim(v::text))`
  pub folded : Value → String
  pub accepts_landing : LandingRow → Bool
  pub accepts_staging : StagingRow → Bool
  pub accepts_live : List LiveRow → LiveRow → Bool
