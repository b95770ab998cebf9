-- ===== src/ModelApi/Publish.antt =====
-- app/api/v1/models_api.py: preview_ddl, publish_entity, delete_entity and list_versions. The tables
-- are changed in a transaction of their own, which is committed before the metadata are.
use Prim.Native.String
use open_mdm.Base.{
  ℕ, String, Bool, true, not, ◌&&◌, ◌||◌, Option, none, some, [], ◌∷◌, any, update_where, length,
  if◌then◌else◌,
}
use open_mdm.Base.Int.{pos}
use open_mdm.Base.Results.{Result, ok, err, ◌>>=◌}
use open_mdm.Base.Text.{is_empty_text}
use open_mdm.Ddl.{DdlPlan, DdlError, Statement, is_destructive}
use open_mdm.Ddl.Alter.{build_alter_plan, build_drop_plan}
use open_mdm.Ddl.Catalog.{Catalog, apply_plan}
use open_mdm.Ddl.Create.{build_create_plan}
use open_mdm.ModelApi.{event, version_row}
use open_mdm.Models.{Entity, EntityStatus, User, AuditEvent, is_deployed}
use open_mdm.Python.{Python, int, bool}
use open_mdm.Python.Str.{lower}
use open_mdm.Registry.{
  ApiError, not_confirmed, entity_not_found, destructive_changes, ddl_failed, unplanned, Stored,
  Registry, ModelVersion, find_entity, is_version, insert_version, replace_stored, delete_stored,
  log,
}
use text.Mathlib.Text.{starts_with}

pub record PublishRequest : Type 0 where
  pub confirm_destructive : Bool
  pub dry_run : Bool
  pub change_note : Option String

-- The tables, and the metadata or the error.
pub record Outcome : Type 0 where
  pub catalog : Catalog
  pub result : Result ApiError Registry

-- The plan that a preview shows and a publish applies.
unfoldable pub plan_for : Python → Catalog → Entity → Result DdlError DdlPlan
plan_for py db e = if is_deployed e then build_alter_plan py db e else build_create_plan py e

abbrev pub published_entity : Entity → ℕ → Entity
published_entity e now = record e {
  status = EntityStatus.published;
  published_version = some e.version;
  published_at = some now;
}

-- `note in text`
within : String → String → Bool
within note String.[] = is_empty_text note
within note (String.◌∷◌ c s) = let rest = within note s in starts_with (String.◌∷◌ c s) note || rest

-- `payload.change_note or "Published"`
unfoldable pub published_note : Option String → String
published_note none = "Published"
published_note (some note) = if is_empty_text note then "Published" else note

-- `" · ".join(filter(None, [old, note]))`, where `note` is not empty.
joined_note : Option String → String → String
joined_note none note = note
joined_note (some old) note =
    if is_empty_text old then note else String.◌++◌ old (String.◌++◌ " · " note)

unfoldable pub with_note : Option String → String → Option String
unfolding within joined_note
with_note none note = some (joined_note none note)
with_note (some old) note = if within note old then some old else some (joined_note (some old) note)

-- The row of a version that was published.
abbrev pub with_ddl : DdlPlan → String → ModelVersion → ModelVersion
with_ddl plan note v = record v {
  applied_ddl = some plan.statements;
  change_note = with_note v.change_note note;
}

-- The applied DDL goes to the version's row; one is inserted only if there is none.
unfoldable pub record_ddl : Entity → DdlPlan → String → String → Stored → Result ApiError Stored
unfolding insert_version with_note
record_ddl e plan note actor s =
    if any (is_version e.version) s.versions
    then ok (record s {
      versions = update_where (is_version e.version) (with_ddl plan note) s.versions;
    })
    else insert_version (record (version_row e note actor) { applied_ddl = some plan.statements }) s

-- The metadata after the tables were changed.
unfoldable pub publish_stored :
    PublishRequest → DdlPlan → User → ℕ → Stored → Result ApiError Stored
unfolding record_ddl published_note
publish_stored req plan principal now s =
    let e = published_entity s.entity now in
    record_ddl e plan (published_note req.change_note) principal.username (record s { entity = e })

-- The destructive items stand by their number.
abbrev pub publish_event : User → String → DdlPlan → AuditEvent
publish_event principal name plan = event principal "model_publish" name (
    ("statements", int (pos (length plan.statements)))
    ∷ ("destructive", int (pos (length plan.destructive)))
    ∷ [])

module _ (accepts : Catalog → Statement → Bool) (py : Python) where
  unfoldable pub publish_applied :
      PublishRequest → DdlPlan → User → ℕ → String → Stored → Registry → Result ApiError Registry
  unfolding publish_stored replace_stored
  publish_applied req plan principal now name s r = do
    s' ← publish_stored req plan principal now s
    ok (log (publish_event principal name plan) (replace_stored name s' r))

  unfoldable pub publish_plan :
      PublishRequest → DdlPlan → User → ℕ → String → Stored → Catalog → Registry → Outcome
  unfolding publish_applied
  publish_plan req plan principal now name s db r =
      if req.dry_run
      then record { catalog = db; result = ok r }
      else if is_destructive plan && not req.confirm_destructive
      then record { catalog = db; result = err (destructive_changes plan.destructive) }
      else elim (apply_plan accepts plan req.confirm_destructive db) [
        | err e ↦ record { catalog = db; result = err (ddl_failed e) }
        | ok db' ↦ record {
          catalog = db';
          result = publish_applied req plan principal now name s r;
        }
      ]

  unfoldable pub publish_found :
      PublishRequest → User → ℕ → String → Stored → Catalog → Registry → Outcome
  unfolding plan_for publish_plan
  publish_found req principal now name s db r = elim (plan_for py db s.entity) [
    | err e ↦ record { catalog = db; result = err (unplanned e) }
    | ok plan ↦ publish_plan req plan principal now name s db r
  ]

  unfoldable pub publish_entity : String → PublishRequest → User → ℕ → Catalog → Registry → Outcome
  unfolding publish_found
  publish_entity name req principal now db r = elim (find_entity (lower py name) r) [
    | none ↦ record { catalog = db; result = err entity_not_found }
    | some s ↦ publish_found req principal now (lower py name) s db r
  ]

  -- The tables after a deletion that may drop them.
  unfoldable pub drop_tables_of : Bool → Entity → Catalog → Result DdlError Catalog
  drop_tables_of drop_tables e db =
      if drop_tables && is_deployed e
      then (build_drop_plan py e.name true >>= λ plan. apply_plan accepts plan true db)
      else ok db

  unfoldable pub delete_found : Bool → User → Stored → Catalog → Registry → Outcome
  unfolding drop_tables_of delete_stored
  delete_found drop_tables principal s db r = elim (drop_tables_of drop_tables s.entity db) [
    | err e ↦ record { catalog = db; result = err (unplanned e) }
    | ok db' ↦ record {
      catalog = db';
      result = ok (
          log
            (event principal "model_delete" s.entity.name
              (("dropped_tables", bool (drop_tables && is_deployed s.entity)) ∷ []))
            (delete_stored s.entity.name r));
    }
  ]

  unfoldable pub delete_entity : String → Bool → Bool → User → Catalog → Registry → Outcome
  unfolding delete_found
  delete_entity name drop_tables confirm principal db r = elim (find_entity (lower py name) r) [
    | none ↦ record { catalog = db; result = err entity_not_found }
    | some s ↦
        if drop_tables && not confirm
        then record { catalog = db; result = err not_confirmed }
        else delete_found drop_tables principal s db r
  ]
