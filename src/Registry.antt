-- ===== src/Registry.antt =====
-- app/models/meta.py: the metadata tables that the model API changes, with their unique
-- constraints. An entity is kept with its attributes and its versions, which the database deletes
-- with it; its name, which never changes, identifies it. The other constraints on an entity and its
-- attributes are a parameter.
use open_mdm.Base.{
  ℕ, String, Bool, false, not, ◌||◌, Option, List, [], ◌∷◌, ◌++◌, any, keep, find_first,
  update_where, eqb, ◌==◌, if◌then◌else◌,
}
use open_mdm.Base.Results.{Result, ok, err}
use open_mdm.Ddl.{Statement, Destructive, DdlError}
use open_mdm.Identifiers.{IdentifierError}
use open_mdm.ModelIo.{Definition}
use open_mdm.Models.{Attribute, Entity, AuditEvent}

-- The responses other than success: 422, 409, 400, 404, and what no handler catches.
pub data ApiError : Type 0 where
  invalid : IdentifierError → ApiError
  no_attributes entity_exists not_confirmed entity_not_found : ApiError
  destructive_changes : List Destructive → ApiError
  ddl_failed unplanned : DdlError → ApiError
  integrity_error : ApiError

-- The SQL text of `applied_ddl` stands by its statements.
pub record ModelVersion : Type 0 where
  pub version : ℕ
  pub snapshot : Definition
  pub change_note : Option String
  pub applied_ddl : Option (List Statement)
  pub created_by : String

pub record Stored : Type 0 where
  pub entity : Entity
  pub versions : List ModelVersion

pub record Registry : Type 0 where
  pub entities : List Stored
  pub audit : List AuditEvent

abbrev pub is_named : String → Stored → Bool
is_named name s = s.entity.name == name

-- `db.query(Entity).filter(Entity.name == name).first()`
abbrev pub find_entity : String → Registry → Option Stored
find_entity name r = find_first (is_named name) r.entities

abbrev pub is_version : ℕ → ModelVersion → Bool
is_version version v = eqb v.version version

-- uq_attribute_entity_name
abbrev pub repeats : List Attribute → Bool
repeats [] = false
repeats (a ∷ as') = any (λ (b : Attribute). b.name == a.name) as' || repeats as'

-- A new row of model_version, under uq_model_version.
unfoldable pub insert_version : ModelVersion → Stored → Result ApiError Stored
insert_version v s =
    if any (is_version v.version) s.versions
    then err integrity_error
    else ok (record s { versions = s.versions ++ v ∷ [] })

abbrev pub log : AuditEvent → Registry → Registry
log event r = record r { audit = r.audit ++ event ∷ [] }

-- The constraints on an entity and its attributes when a session is flushed.
unfoldable pub checked_entity : (Entity → Bool) → Entity → Result ApiError Entity
checked_entity accepts e =
    if repeats e.attributes || not (accepts e) then err integrity_error else ok e

-- A new row of entity, under uq_entity_name.
unfoldable pub insert_stored : Stored → Registry → Result ApiError Registry
insert_stored s r =
    if any (is_named s.entity.name) r.entities
    then err integrity_error
    else ok (record r { entities = r.entities ++ s ∷ [] })

unfoldable pub replace_stored : String → Stored → Registry → Registry
replace_stored name s r = record r { entities = update_where (is_named name) (λ _. s) r.entities }

-- `cascade="all, delete-orphan"`
unfoldable pub delete_stored : String → Registry → Registry
delete_stored name r = record r { entities = keep (λ s. not (is_named name s)) r.entities }
