-- ===== src/Tests/Fixtures.antt =====
-- One entity, one instance of each parameter, and the states of a short history: a supplier is
-- written, promoted, approved, renamed and deleted.
use open_mdm.Base.{ℕ, String, Bool, true, false, Option, none, some, List, [], ◌∷◌, Dict}
use open_mdm.Models.{EntityStatus, Attribute, Entity}
use open_mdm.Pipeline.Landing.{WriteRequest}
use open_mdm.Python.{Python, Value, null, str}
use open_mdm.Settings.{Settings}
use open_mdm.Sql.{State}
use open_mdm.Tiers.{
  Operation, LandingStatus, StagingStatus, ChangeType, LandingRow, StagingRow, LiveRow, HistoryRow,
  Postgres,
}

abbrev pub cfg : Settings
cfg = record {
  enforce_segregation_of_duties = true;
  auto_promote_landing = true;
  soft_delete = true;
  max_bulk_rows = 5000;
  ldap_enabled = false;
  ldap_nested_groups = false;
  ldap_admin_group_dn = none;
  ldap_steward_group_dn = none;
  ldap_reader_group_dn = none;
  local_admin_enabled = true;
  local_admin_username = "admin";
  local_admin_password = none;
}

abbrev pub py : Python
py = record {
  lower_at = λ s i. "";
  upper_of = λ c. "";
  title_of = λ c. "";
  is_cased = λ c. false;
  is_word = λ c. false;
  is_decimal = λ c. false;
  text_of = λ v. "";
  int_of = λ s. none;
  decimal_of = λ s. some s;
  float_of = λ s. some s;
  int_of_value = λ v. none;
  is_integer = λ s. false;
  is_zero = λ s. false;
  strptime = λ s f. none;
  fromisoformat = λ s. none;
  date_of = λ s. s;
  uuid_of = λ s. some s;
  json_loads = λ s. none;
  json_dumps = λ v. none;
  re_match = λ p s. some true;
  less = λ a b. some false;
  greater = λ a b. some false;
}

-- One golden record has the id "g1".
abbrev pub pg : Postgres
pg = record {
  column_default = λ a. null;
  cast_uuid = λ s. some s;
  new_uuid = λ t. "g1";
  equal = λ a b. false;
  folded = λ v. "";
  accepts_landing = λ row. true;
  accepts_staging = λ row. true;
  accepts_live = λ rows row. true;
}

abbrev column : String → ℕ → Bool → Attribute
column name position required = record {
  name = name;
  display_name = name;
  description = none;
  position = position;
  data_type = "string";
  length = none;
  numeric_precision = none;
  numeric_scale = none;
  is_required = required;
  is_unique = false;
  is_business_key = false;
  is_match_key = false;
  is_indexed = false;
  is_pii = false;
  default_value = none;
  validation = [];
  normalization = [];
  ref_entity = none;
  ref_attribute = none;
}

abbrev pub name_column : Attribute
name_column = column "name" 0 true

abbrev pub entity : Entity
entity = record {
  name = "supplier";
  display_name = "Supplier";
  description = none;
  domain = none;
  status = EntityStatus.published;
  version = 1;
  published_version = some 1;
  published_at = none;
  requires_approval = true;
  soft_delete = true;
  auto_approve_threshold = none;
  retention_days = none;
  attributes = name_column ∷ column "city" 1 false ∷ [];
}

abbrev pub request : String → Dict Value → Option String → Option String → WriteRequest
request operation payload target key = record {
  operation = operation;
  payload = payload;
  target_id = target;
  source_system = none;
  submitted_by = some "ann";
  batch_id = none;
  idempotency_key = key;
}

abbrev pub acme : Dict Value
acme = ("name", str "Acme") ∷ ("city", str "Rome") ∷ []

abbrev pub create : WriteRequest
create = request "INSERT" acme none (some "k1")

-- A state at time 100 with the given tables.
abbrev pub state : List LandingRow → List StagingRow → List LiveRow → List HistoryRow → State
state landing staging live history = record {
  tables = record {
    landing = landing;
    staging = staging;
    live = live;
    history = history;
    next_landing = 5;
    next_staging = 8;
  };
  aborted = false;
  now = 100;
  audit = [];
  batches = [];
}

abbrev pub landed_row : Option String → LandingStatus → Option ℕ → LandingRow
landed_row key status at_time = record {
  id = 4;
  operation = Operation.insert;
  payload = acme;
  target_id = none;
  source_system = none;
  batch_id = none;
  idempotency_key = key;
  submitted_by = some "ann";
  received_at = 90;
  status = status;
  errors = none;
  processed_at = at_time;
}

-- Row 7 of the staging tier.
abbrev pub staged_row : Operation → Option String → StagingRow
staged_row operation target = record {
  id = 7;
  landing_id = 4;
  operation = operation;
  target_id = target;
  match_key = none;
  source_system = none;
  batch_id = "b1";
  status = StagingStatus.pending_review;
  errors = [];
  is_valid = true;
  change_type = ChangeType.insert;
  submitted_by = some "ann";
  edited_by = none;
  edited_at = none;
  reviewed_by = none;
  reviewed_at = none;
  review_note = none;
  supplied_fields = "city" ∷ [];
  values = ("name", null) ∷ ("city", str "Oslo") ∷ [];
}

-- The golden record "g1".
abbrev pub golden : LiveRow
golden = record {
  id = "g1";
  version = 3;
  source_system = none;
  is_deleted = false;
  deleted_at = none;
  created_at = 10;
  created_by = some "bob";
  updated_at = 20;
  updated_by = some "bob";
  approved_by = some "bob";
  staging_id = some 2;
  values = acme;
}
