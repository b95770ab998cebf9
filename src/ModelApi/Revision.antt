-- ===== src/ModelApi/Revision.antt =====
-- app/api/v1/models_api.py, `update_entity`: the next version of an entity.
use open_mdm.Base.{suc, String, Option, none, some, List, [], ◌∷◌, ◌++◌, if◌then◌else◌}
use open_mdm.Base.Text.{is_empty_text}
use open_mdm.ModelApi.{EntityIn}
use open_mdm.ModelApi.Lifecycle.{Lifecycle}
use open_mdm.ModelIo.{entity_to_dict}
use open_mdm.Models.{Attribute, Entity, EntityStatus, User}
use open_mdm.Python.{Python}
use open_mdm.Registry.{Registry, Stored}

-- The name that is shown: the one that is given, if it is not empty.
abbrev pub shown_name : String → Option String → String
shown_name old none = old
shown_name old (some name) = if is_empty_text name then old else name

-- A published entity is modified; another keeps its status.
abbrev pub revised_status : EntityStatus → EntityStatus
revised_status EntityStatus.draft = EntityStatus.draft
revised_status EntityStatus.published = EntityStatus.modified
revised_status EntityStatus.modified = EntityStatus.modified
revised_status EntityStatus.deprecated = EntityStatus.deprecated

abbrev pub revised_entity : EntityIn → List Attribute → Entity → Entity
revised_entity p attributes e = record {
  name = e.name;
  display_name = shown_name e.display_name p.display_name;
  description = p.description;
  domain = p.domain;
  status = revised_status e.status;
  version = suc e.version;
  published_version = e.published_version;
  published_at = e.published_at;
  requires_approval = p.requires_approval;
  soft_delete = p.soft_delete;
  auto_approve_threshold = e.auto_approve_threshold;
  retention_days = p.retention_days;
  attributes = attributes;
}

-- The row of the entity, with one more version, which has a snapshot of it.
abbrev pub revised_row : EntityIn → List Attribute → User → Stored → Stored
revised_row p attributes u s =
    let e = revised_entity p attributes s.entity in
    record {
      entity = e;
      versions =
          s.versions
          ++ record {
            version = suc s.entity.version;
            snapshot = entity_to_dict e;
            change_note = some "Updated via API";
            applied_ddl = none;
            created_by = u.username;
          }
            ∷ [];
    }
