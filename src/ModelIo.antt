-- ===== src/ModelIo.antt =====
-- app/services/model_io.py: the portable definition of an entity, as exports and snapshots hold it.
-- JSON and YAML, and the runtime part of an export, are left out.
pub mod Import
use open_mdm.Base.{String, Bool, Option, List, Dict, map}
use open_mdm.Base.Int.{ℤ}
use open_mdm.Ddl.{by_position}
use open_mdm.Models.{Attribute, Entity}
use open_mdm.Python.{Value}

-- ATTR_FIELDS
pub record AttributeFields : Type 0 where
  pub name : String
  pub display_name : String
  pub description : Option String
  pub data_type : String
  pub length : Option ℤ
  pub numeric_precision : Option ℤ
  pub numeric_scale : Option ℤ
  pub is_required : Bool
  pub is_unique : Bool
  pub is_business_key : Bool
  pub is_match_key : Bool
  pub is_indexed : Bool
  pub is_pii : Bool
  pub default_value : Option String
  pub validation : Dict Value
  pub normalization : List String
  pub ref_entity : Option String
  pub ref_attribute : Option String

-- ENTITY_FIELDS and the attributes.
pub record Definition : Type 0 where
  pub name : String
  pub display_name : String
  pub description : Option String
  pub domain : Option String
  pub requires_approval : Bool
  pub soft_delete : Bool
  pub auto_approve_threshold : Option ℤ
  pub retention_days : Option ℤ
  pub attributes : List AttributeFields

unfoldable pub fields_of : Attribute → AttributeFields
fields_of a = record {
  name = a.name;
  display_name = a.display_name;
  description = a.description;
  data_type = a.data_type;
  length = a.length;
  numeric_precision = a.numeric_precision;
  numeric_scale = a.numeric_scale;
  is_required = a.is_required;
  is_unique = a.is_unique;
  is_business_key = a.is_business_key;
  is_match_key = a.is_match_key;
  is_indexed = a.is_indexed;
  is_pii = a.is_pii;
  default_value = a.default_value;
  validation = a.validation;
  normalization = a.normalization;
  ref_entity = a.ref_entity;
  ref_attribute = a.ref_attribute;
}

unfoldable pub entity_to_dict : Entity → Definition
unfolding fields_of by_position
entity_to_dict e = record {
  name = e.name;
  display_name = e.display_name;
  description = e.description;
  domain = e.domain;
  requires_approval = e.requires_approval;
  soft_delete = e.soft_delete;
  auto_approve_threshold = e.auto_approve_threshold;
  retention_days = e.retention_days;
  attributes = map fields_of (by_position e.attributes);
}
