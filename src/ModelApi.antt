-- ===== src/ModelApi.antt =====
-- app/api/v1/models_api.py: the handlers that create, change, publish and delete an entity. A
-- handler that raises leaves the metadata as they were (`get_db` rolls back); the permission of the
-- caller is checked before, see Auth/Access. Request bodies have passed the schemas of
-- app/schemas/models.py.
pub mod Publish
pub mod Lifecycle
pub mod Versions
pub mod Events
pub mod Registered
pub mod Publishing
pub mod Laws
pub mod Naming
pub mod Supplied
pub mod Merging
pub mod Revision
use Prim.Native.String
use Prim.Native.Char.{code}
use open_mdm.Base.{
  ℕ, suc, ◌+◌, String, Bool, true, false, not, ◌||◌, Option, none, some, List, [], ◌∷◌, ◌++◌, Dict,
  lookup, has_key, insert, any, is_empty, length, eqb, ◌==◌, if◌then◌else◌,
}
use open_mdm.Base.Int.{ℤ, pos}
use open_mdm.Base.Results.{Result, ok, err, ◌>>=◌, ◌>>◌, raise_if}
use open_mdm.Base.Text.{is_empty_text}
use open_mdm.Ddl.{by_position}
use open_mdm.Identifiers.{IdentifierError, validate_ident, validate_column_name}
use open_mdm.ModelIo.{entity_to_dict}
use open_mdm.Models.{Attribute, Entity, EntityStatus, User, AuditEvent}
use open_mdm.Python.{Python, Value, int}
use open_mdm.Python.Str.{lower, title}
use open_mdm.Registry.{
  ApiError, invalid, no_attributes, entity_exists, entity_not_found, integrity_error, is_named,
  Stored, Registry, ModelVersion, find_entity, insert_version, checked_entity, insert_stored,
  replace_stored, log,
}

-- AttributeIn and EntityIn.
pub record AttributeIn : Type 0 where
  pub name : String
  pub display_name : Option String
  pub description : Option String
  pub data_type : String
  pub length : Option ℤ
  pub numeric_precision : Option ℤ
  pub numeric_scale : Option ℤ
  pub is_required : Bool
  pub is_unique : Bool
  pub is_business_key : Bool
  pub is_match_key : Bool
  pub is_indexed : Bool
  pub is_pii : Bool
  pub default_value : Option String
  pub validation : Dict Value
  pub normalization : List String
  pub ref_entity : Option String
  pub ref_attribute : Option String
  pub position : ℕ

pub record EntityIn : Type 0 where
  pub name : String
  pub display_name : Option String
  pub description : Option String
  pub domain : Option String
  pub requires_approval : Bool
  pub soft_delete : Bool
  pub auto_approve_threshold : Option ℤ
  pub retention_days : Option ℤ
  pub attributes : List AttributeIn

abbrev pub rejected : {A : Type 0} → Result IdentifierError A → Result ApiError A
rejected (ok a) = ok a
rejected (err e) = err (invalid e)

-- `name.replace("_", " ")`
spaced : String → String
spaced String.[] = String.[]
spaced (String.◌∷◌ c s) =
    let rest = spaced s in String.◌∷◌ (if eqb (code c) b'_' then " " else c) rest

-- `display_name or name.replace("_", " ").title()`
unfoldable pub or_title : Python → String → Option String → String
unfolding spaced
or_title py name none = title py (spaced name)
or_title py name (some d) = if is_empty_text d then title py (spaced name) else d

-- `display_name or entity.display_name`
pub or_old : String → Option String → String
or_old old none = old
or_old old (some d) = if is_empty_text d then old else d

-- `position or idx`
pub or_index : ℕ → ℕ → ℕ
or_index idx position = if eqb position 0 then idx else position

unfoldable pub attribute_of : AttributeIn → ℕ → String → Attribute
unfolding or_index
attribute_of a idx display_name = record {
  name = a.name;
  display_name = display_name;
  description = a.description;
  position = or_index idx a.position;
  data_type = a.data_type;
  length = a.length;
  numeric_precision = a.numeric_precision;
  numeric_scale = a.numeric_scale;
  is_required = a.is_required;
  is_unique = a.is_unique;
  is_business_key = a.is_business_key;
  is_match_key = a.is_match_key;
  is_indexed = a.is_indexed;
  is_pii = a.is_pii;
  default_value = a.default_value;
  validation = a.validation;
  normalization = a.normalization;
  ref_entity = a.ref_entity;
  ref_attribute = a.ref_attribute;
}

unfoldable pub check_columns : Python → List AttributeIn → Result IdentifierError (Unit {0})
check_columns py [] = ok tt
check_columns py (a ∷ as') = validate_column_name py a.name >>= λ _. check_columns py as'

unfoldable pub new_attributes : Python → ℕ → List AttributeIn → List Attribute
unfolding attribute_of or_title
new_attributes py idx [] = []
new_attributes py idx (a ∷ as') =
    attribute_of a idx (or_title py a.name a.display_name) ∷ new_attributes py (suc idx) as'

unfoldable pub new_entity : Python → String → EntityIn → Entity
unfolding new_attributes or_title
new_entity py name p = record {
  name = name;
  display_name = or_title py name p.display_name;
  description = p.description;
  domain = p.domain;
  status = EntityStatus.draft;
  version = 1;
  published_version = none;
  published_at = none;
  requires_approval = p.requires_approval;
  soft_delete = p.soft_delete;
  auto_approve_threshold = p.auto_approve_threshold;
  retention_days = p.retention_days;
  attributes = by_position (new_attributes py 0 p.attributes);
}

abbrev pub version_row : Entity → String → String → ModelVersion
version_row e note actor = record {
  version = e.version;
  snapshot = entity_to_dict e;
  change_note = some note;
  applied_ddl = none;
  created_by = actor;
}

abbrev pub event : User → String → String → Dict Value → AuditEvent
event principal action entity_name detail = record {
  actor = principal.username;
  actor_roles = principal.roles;
  action = action;
  entity_name = some entity_name;
  record_id = none;
  tier = some "meta";
  detail = detail;
  success = true;
}

-- `{a.name: a for a in payload.attributes}`
unfoldable pub incoming_from : Dict AttributeIn → List AttributeIn → Dict AttributeIn
incoming_from d [] = d
incoming_from d (a ∷ as') = incoming_from (insert a.name a d) as'

-- A value of the dict with its place among the keys.
unfoldable pub numbered : ℕ → Dict AttributeIn → Dict (ℕ × AttributeIn)
numbered idx [] = []
numbered idx ((k, a) ∷ d) = (k, (idx, a)) ∷ numbered (suc idx) d

-- The fields of a payload, set on an attribute that exists. `display_name` is set as it came, and
-- the column takes no NULL.
unfoldable pub overwrite : ℕ → AttributeIn → Result ApiError Attribute
unfolding attribute_of
overwrite idx a = elim a.display_name [
  | none ↦ err integrity_error
  | some d ↦ ok (attribute_of a idx d)
]

-- The attributes that were there: those that the payload names are overwritten, others deleted.
unfoldable pub kept : Dict (ℕ × AttributeIn) → List Attribute → Result ApiError (List Attribute)
unfolding overwrite
kept d [] = ok []
kept d (c ∷ cs) =
    let rest = kept d cs in
    elim (lookup c.name d) [
      | none ↦ rest
      | some (idx, a) ↦ overwrite idx a >>= λ x. rest >>= λ xs. ok (x ∷ xs)
    ]

-- The attributes that only the payload names.
pub added : Python → List Attribute → Dict (ℕ × AttributeIn) → List Attribute
unfolding attribute_of or_title
added py current [] = []
added py current ((k, (idx, a)) ∷ d) =
    let rest = added py current d in
    if any (λ (c : Attribute). c.name == k) current
    then rest
    else attribute_of a idx (or_title py k a.display_name) ∷ rest

unfoldable pub merged :
    Python → List Attribute → List AttributeIn → Result ApiError (List Attribute)
unfolding incoming_from numbered kept added
merged py current payload =
    let d = numbered 0 (incoming_from [] payload) in
    kept d current >>= λ old. ok (by_position (old ++ added py current d))

-- A change of a published entity waits for the next publish.
abbrev pub changed_status : EntityStatus → EntityStatus
changed_status EntityStatus.published = EntityStatus.modified
changed_status status = status

unfoldable pub with_payload : EntityIn → List Attribute → Entity → Entity
unfolding or_old
with_payload p attributes e = record e {
  display_name = or_old e.display_name p.display_name;
  description = p.description;
  domain = p.domain;
  requires_approval = p.requires_approval;
  soft_delete = p.soft_delete;
  retention_days = p.retention_days;
  version = suc e.version;
  status = changed_status e.status;
  attributes = attributes;
}

-- The rows of a new entity, with its first version.
unfoldable pub register : User → ℕ → Entity → Registry → Result ApiError Registry
unfolding insert_version insert_stored
register principal count e r = do
  s ←
      insert_version (version_row e "Created" principal.username)
        (record { entity = e; versions = [] })
  stored ← insert_stored s r
  ok (log (event principal "model_create" e.name (("attributes", int (pos count)) ∷ [])) stored)

module _ (py : Python) (accepts : Entity → Bool) where
  unfoldable pub create_entity : EntityIn → User → Registry → Result ApiError Registry
  unfolding check_columns new_entity checked_entity register
  create_entity p principal r = do
    name ← rejected (validate_ident py p.name)
    _ ← rejected (check_columns py p.attributes)
    _ ← raise_if (any (is_named name) r.entities) entity_exists
    _ ← raise_if (is_empty p.attributes) no_attributes
    e ← checked_entity accepts (new_entity py name p)
    register principal (length p.attributes) e r

  -- The row of `entity` and its new version.
  unfoldable pub updated : EntityIn → User → Stored → Result ApiError Stored
  unfolding check_columns merged with_payload checked_entity insert_version
  updated p principal s = do
    _ ← rejected (check_columns py p.attributes)
    attributes ← merged py s.entity.attributes p.attributes
    e ← checked_entity accepts (with_payload p attributes s.entity)
    insert_version (version_row e "Updated via API" principal.username) (record s { entity = e })

  unfoldable pub update_entity : String → EntityIn → User → Registry → Result ApiError Registry
  unfolding updated replace_stored
  update_entity name p principal r = elim (find_entity (lower py name) r) [
    | none ↦ err entity_not_found
    | some s ↦ updated p principal s >>= λ s'. ok (replace_stored (lower py name) s' r)
  ]
