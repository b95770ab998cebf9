-- ===== src/Models.antt =====
-- app/models/meta.py: the metadata of an entity, the accounts and keys, the audit trail and the
-- promotion batches. Timestamps are numbers; `created_by`, `updated_by`, the record ids of these
-- tables and the before and after values of an audit event are left out.
use open_mdm.Base.{ℕ, String, Bool, true, false, Option, List, Dict, keep}
use open_mdm.Base.Int.{ℤ}
use open_mdm.Python.{Value}

pub data EntityStatus : Type 0 where
  draft published modified deprecated : EntityStatus

pub data UserSource : Type 0 where
  ldap local service : UserSource

pub record Attribute : Type 0 where
  pub name : String
  pub display_name : String
  pub description : Option String
  pub position : ℕ
  pub data_type : String
  pub length : Option ℤ
  pub numeric_precision : Option ℤ
  pub numeric_scale : Option ℤ
  pub is_required : Bool
  pub is_unique : Bool
  pub is_business_key : Bool
  pub is_match_key : Bool
  pub is_indexed : Bool
  pub is_pii : Bool
  pub default_value : Option String
  pub validation : Dict Value
  pub normalization : List String
  pub ref_entity : Option String
  pub ref_attribute : Option String

pub record Entity : Type 0 where
  pub name : String
  pub display_name : String
  pub description : Option String
  pub domain : Option String
  pub status : EntityStatus
  pub version : ℕ
  pub published_version : Option ℕ
  pub published_at : Option ℕ
  pub requires_approval : Bool
  pub soft_delete : Bool
  pub auto_approve_threshold : Option ℤ
  pub retention_days : Option ℤ
  pub attributes : List Attribute

abbrev pub match_keys : Entity → List Attribute
match_keys e = keep (λ a. a.is_match_key) e.attributes

abbrev pub business_key : Entity → List Attribute
business_key e = keep (λ a. a.is_business_key) e.attributes

abbrev pub deployed_status : EntityStatus → Bool
deployed_status EntityStatus.published = true
deployed_status EntityStatus.modified = true
deployed_status _ = false

abbrev pub is_deployed : Entity → Bool
is_deployed e = deployed_status e.status

pub record User : Type 0 where
  pub username : String
  pub email : Option String
  pub display_name : Option String
  pub source : UserSource
  pub password_hash : Option String
  pub dn : Option String
  pub roles : List String
  pub entity_permissions : Dict (List String)
  pub is_active : Bool
  pub last_login_at : Option ℕ

pub record ApiKey : Type 0 where
  pub name : String
  pub key_prefix : String
  pub key_hash : String
  pub source_system : Option String
  pub allowed_entities : List String
  pub is_active : Bool
  pub expires_at : Option ℕ
  pub last_used_at : Option ℕ

pub record AuditEvent : Type 0 where
  pub actor : String
  pub actor_roles : List String
  pub action : String
  pub entity_name : Option String
  pub record_id : Option String
  pub tier : Option String
  pub detail : Dict Value
  pub success : Bool

pub record PromotionBatch : Type 0 where
  pub entity_name : String
  pub stage : String
  pub status : String
  pub rows_in : ℕ
  pub rows_ok : ℕ
  pub rows_failed : ℕ
  pub triggered_by : String
