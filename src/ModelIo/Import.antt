-- ===== src/ModelIo/Import.antt =====
-- app/services/model_io.py: apply_import, and import_models of app/api/v1/models_api.py from the
-- validated definitions on. An import changes metadata only. The reports on each
-- definition are left out.
use Prim.Native.String
use open_mdm.Base.{
  suc, String, Bool, Option, none, some, List, [], ◌∷◌, ◌++◌, Dict, lookup, insert, any, ◌==◌,
  if◌then◌else◌,
}
use open_mdm.Base.Int.{ℤ}
use open_mdm.Base.Results.{Result, ok, ◌>>=◌}
use open_mdm.Ddl.{by_position}
use open_mdm.ModelApi.{changed_status, event, version_row}
use open_mdm.Models.{Attribute, Entity, EntityStatus, User}
use open_mdm.Registry.{
  ApiError, Stored, Registry, find_entity, insert_version, checked_entity, insert_stored,
  replace_stored, log,
}

-- A cleaned definition of `validate_document`.
pub record ImportDef : Type 0 where
  pub name : String
  pub display_name : String
  pub description : Option String
  pub domain : Option String
  pub requires_approval : Bool
  pub soft_delete : Bool
  pub auto_approve_threshold : Option ℤ
  pub retention_days : Option ℤ
  pub attributes : List Attribute

abbrev pub imported_entity : ImportDef → Entity
imported_entity d = record {
  name = d.name;
  display_name = d.display_name;
  description = d.description;
  domain = d.domain;
  status = EntityStatus.draft;
  version = 1;
  published_version = none;
  published_at = none;
  requires_approval = d.requires_approval;
  soft_delete = d.soft_delete;
  auto_approve_threshold = d.auto_approve_threshold;
  retention_days = d.retention_days;
  attributes = by_position d.attributes;
}

-- `{a["name"]: a for a in attrs}`
abbrev incoming_from : Dict Attribute → List Attribute → Dict Attribute
incoming_from d [] = d
incoming_from d (a ∷ as') = incoming_from (insert a.name a d) as'

-- The attributes that were there: overwritten by the file, or else deleted if `replace`.
unfoldable pub kept_attributes : Bool → Dict Attribute → List Attribute → List Attribute
kept_attributes replace d [] = []
kept_attributes replace d (c ∷ cs) =
    let rest = kept_attributes replace d cs in
    elim (lookup c.name d) [ some a ↦ a ∷ rest | none ↦ if replace then rest else c ∷ rest ]

unfoldable pub added_attributes : List Attribute → Dict Attribute → List Attribute
added_attributes current [] = []
added_attributes current ((k, a) ∷ d) =
    let rest = added_attributes current d in
    if any (λ (c : Attribute). c.name == k) current then rest else a ∷ rest

unfoldable pub merge_attributes : Bool → List Attribute → List Attribute → List Attribute
unfolding kept_attributes added_attributes
merge_attributes replace current attrs =
    let d = incoming_from [] attrs in
    by_position (kept_attributes replace d current ++ added_attributes current d)

unfoldable pub with_import : Bool → ImportDef → Entity → Entity
unfolding merge_attributes
with_import replace d e = record e {
  name = d.name;
  display_name = d.display_name;
  description = d.description;
  domain = d.domain;
  requires_approval = d.requires_approval;
  soft_delete = d.soft_delete;
  auto_approve_threshold = d.auto_approve_threshold;
  retention_days = d.retention_days;
  version = suc e.version;
  status = changed_status e.status;
  attributes = merge_attributes replace e.attributes d.attributes;
}

abbrev pub note : String → String → String
note action actor = String.◌++◌ "Imported (" (String.◌++◌ action (String.◌++◌ ") by " actor))

module _ (accepts : Entity → Bool) where
  unfoldable pub import_new : ImportDef → String → Result ApiError Stored
  unfolding checked_entity insert_version
  import_new d actor = do
    e ← checked_entity accepts (imported_entity d)
    insert_version (version_row e (note "created" actor) actor)
        (record { entity = e; versions = [] })

  unfoldable pub import_existing : Bool → ImportDef → String → Stored → Result ApiError Stored
  unfolding with_import checked_entity insert_version
  import_existing replace d actor s = do
    e ← checked_entity accepts (with_import replace d s.entity)
    insert_version (version_row e (note "updated" actor) actor) (record s { entity = e })

  unfoldable pub import_one : Bool → ImportDef → String → Registry → Result ApiError Registry
  unfolding import_new import_existing insert_stored replace_stored
  import_one replace d actor r = elim (find_entity d.name r) [
    | none ↦ import_new d actor >>= λ s. insert_stored s r
    | some s ↦ import_existing replace d actor s >>= λ s'. ok (replace_stored d.name s' r)
  ]

  unfoldable pub apply_import : Bool → List ImportDef → String → Registry → Result ApiError Registry
  unfolding import_one
  apply_import replace [] actor r = ok r
  apply_import replace (d ∷ ds) actor r =
      import_one replace d actor r >>= λ r'. apply_import replace ds actor r'

  -- `import_models` after the document was validated.
  unfoldable pub import_models :
      Bool → Bool → List ImportDef → User → Registry → Result ApiError Registry
  unfolding apply_import
  import_models dry_run replace defs principal r =
      if dry_run
      then ok r
      else (apply_import replace defs principal.username r >>= λ r'.
          ok (log (record (event principal "model_import" "" []) { entity_name = none }) r'))
