-- ===== src/Tests/ModelApi.antt =====
-- Witnesses for the model API: the supplier is changed, published, imported and deleted.
use open_mdm.Base.{
  ℕ, String, Bool, true, false, ◌≡◌, refl, ◌≤◌, ◌<◌, inl, inr, arith, Option, none, some, List, [],
  ◌∷◌, Dict,
}
use open_mdm.Base.Results.{Result, ok, err}
use open_mdm.Ddl.{Tier, Statement, Destructive, DdlPlan, plan_of, columns_from_entity}
use open_mdm.Ddl.Alter.{build_alter_plan}
use open_mdm.Ddl.Catalog.{Catalog, reported}
use open_mdm.Ddl.Deployed.{Deployed}
use open_mdm.Identifiers.Types.{bare}
use open_mdm.ModelApi.{AttributeIn, EntityIn, merged, update_entity}
use open_mdm.ModelApi.Events.{Request, create, change, publish, remove, import, Platform, serve}
use open_mdm.ModelApi.Laws.{serve-WellFormed, publish_deploys, publish_succeeds, publish_stale}
use open_mdm.ModelApi.Naming.{update_needs_display_names}
use open_mdm.ModelApi.Publish.{PublishRequest, Outcome, publish_entity}
use open_mdm.ModelApi.Publishing.{Published}
use open_mdm.ModelApi.Registered.{WellFormed}
use open_mdm.ModelIo.{entity_to_dict}
use open_mdm.ModelIo.Import.{ImportDef}
use open_mdm.Models.{Attribute, Entity, EntityStatus, User, UserSource}
use open_mdm.Python.Str.{lower}
use open_mdm.Registry.{ApiError, integrity_error, ModelVersion, Stored, Registry, find_entity}
use open_mdm.Tests.Ddl.{accepts, deployed, cols, cols-Distinct, name_column}
use open_mdm.Tests.Fixtures.{py, entity}

abbrev ann : User
ann = record {
  username = "ann";
  email = none;
  display_name = none;
  source = UserSource.local;
  password_hash = none;
  dn = none;
  roles = "admin" ∷ [];
  entity_permissions = [];
  is_active = true;
  last_login_at = none;
}

abbrev accepts_entity : Entity → Bool
accepts_entity e = true

abbrev attribute_in : String → Option String → AttributeIn
attribute_in name display_name = record {
  name = name;
  display_name = display_name;
  description = none;
  data_type = "string";
  length = none;
  numeric_precision = none;
  numeric_scale = none;
  is_required = false;
  is_unique = false;
  is_business_key = false;
  is_match_key = false;
  is_indexed = false;
  is_pii = false;
  default_value = none;
  validation = [];
  normalization = [];
  ref_entity = none;
  ref_attribute = none;
  position = 0;
}

abbrev payload : List AttributeIn → EntityIn
payload attributes = record {
  name = "supplier";
  display_name = none;
  description = none;
  domain = some "purchasing";
  requires_approval = true;
  soft_delete = true;
  auto_approve_threshold = none;
  retention_days = none;
  attributes = attributes;
}

-- The city is dropped, the country is new.
abbrev relocated : EntityIn
relocated = payload (attribute_in "name" (some "Name") ∷ attribute_in "country" none ∷ [])

abbrev nameless : EntityIn
nameless = payload (attribute_in "name" none ∷ [])

abbrev version_one : ModelVersion
version_one = record {
  version = 1;
  snapshot = entity_to_dict entity;
  change_note = some "Created";
  applied_ddl = none;
  created_by = "ann";
}

abbrev registry : Entity → Registry
registry e = record {
  entities = record { entity = e; versions = version_one ∷ [] } ∷ [];
  audit = [];
}

abbrev supplier : Stored
supplier = record { entity = entity; versions = version_one ∷ [] }

abbrev draft : Entity
draft = record entity { status = EntityStatus.draft; published_version = none }

abbrev draft_row : Stored
draft_row = record { entity = draft; versions = version_one ∷ [] }

published_one : WellFormed (registry entity)
published_one = record {
  sound = (
    record { lifecycle = refl; bounded = (omega arith, tt); current = refl; distinct = refl },
    tt,
  );
  names = refl;
}

drafted_one : WellFormed (registry draft)
drafted_one = record {
  sound = (
    record { lifecycle = refl; bounded = (omega arith, tt); current = refl; distinct = refl },
    tt,
  );
  names = refl;
}

abbrev publish_request : PublishRequest
publish_request = record {
  confirm_destructive = false;
  dry_run = false;
  change_note = some "Created";
}

abbrev taken {ℓ} : {E A : Type ℓ} → Result E A → A → A
taken (ok a) other = a
taken (err e) other = other

abbrev published_registry : Registry
published_registry =
    taken
      (publish_entity accepts py "supplier" publish_request ann 7 deployed (registry entity)).result
      (registry entity)

-- Tables that an earlier entity of the name left.
abbrev leftover : Catalog
leftover t = ("supplier", name_column) ∷ []

abbrev republished : Registry
republished =
    taken
      (publish_entity accepts py "supplier" publish_request ann 7 leftover (registry draft)).result
      (registry draft)

abbrev relocated_attributes : List Attribute
relocated_attributes = taken (merged py entity.attributes relocated.attributes) []

abbrev imported : ImportDef
imported = record {
  name = "customer";
  display_name = "Customer";
  description = none;
  domain = none;
  requires_approval = true;
  soft_delete = true;
  auto_approve_threshold = none;
  retention_days = none;
  attributes = entity.attributes;
}

abbrev requests : List (User × Request)
requests =
    (ann, create (payload (attribute_in "name" none ∷ [])))
    ∷ (ann, publish "supplier" publish_request 7)
    ∷ (ann, change "supplier" relocated)
    ∷ (ann, import false true (imported ∷ []))
    ∷ (ann, remove "supplier" true true)
    ∷ []

abbrev nothing_yet : Platform
nothing_yet = record { catalog = λ t. []; registry = record { entities = []; audit = [] } }

serve-WellFormed_example :
    WellFormed (serve py accepts_entity accepts requests nothing_yet).registry
serve-WellFormed_example =
    serve-WellFormed py accepts_entity accepts requests nothing_yet
      (record { sound = tt; names = refl })

publish_deploys_example :
    Deployed py "supplier" cols
      (publish_entity accepts py "supplier" publish_request ann 7 deployed
        (registry entity)).catalog
unfolding open_mdm.Identifiers.validate_ident open_mdm.Python.Str.lower
    open_mdm.Base.Text.lower_ascii columns_from_entity open_mdm.Identifiers.validate_column_name
    publish_entity build_alter_plan open_mdm.Identifiers.Types.pg_type
    open_mdm.Identifiers.Types.logical_type open_mdm.Ddl.Alter.render_pg
    open_mdm.Identifiers.Types.is_safe_widening open_mdm.Ddl.Catalog.apply_plan
publish_deploys_example =
    publish_deploys accepts py "supplier" publish_request ann 7 deployed (registry entity)
      published_registry supplier "supplier" cols published_one refl refl refl cols-Distinct
      (inl refl) refl refl refl

publish_succeeds_example :
    Published accepts py
      (lower py "supplier")
      publish_request
      7
      deployed
      (publish_entity accepts py "supplier" publish_request ann 7 deployed
        (registry entity)).catalog
      (registry entity)
      published_registry
unfolding publish_entity build_alter_plan open_mdm.Identifiers.validate_ident
    open_mdm.Python.Str.lower open_mdm.Base.Text.lower_ascii columns_from_entity
    open_mdm.Identifiers.validate_column_name open_mdm.Identifiers.Types.pg_type
    open_mdm.Identifiers.Types.logical_type open_mdm.Ddl.Alter.render_pg
    open_mdm.Identifiers.Types.is_safe_widening open_mdm.Ddl.Catalog.apply_plan
publish_succeeds_example =
    publish_succeeds accepts py "supplier" publish_request ann 7 deployed (registry entity)
      published_registry published_one refl refl

publish_stale_example :
    (s' : Stored) × (find_entity (lower py "supplier") republished ≡ some s')
    × (s'.entity.status ≡ EntityStatus.published)
    × ((publish_entity accepts py "supplier" publish_request ann 7 leftover
          (registry draft)).catalog
        ≡ leftover)
unfolding open_mdm.Identifiers.validate_ident open_mdm.Python.Str.lower
    open_mdm.Base.Text.lower_ascii publish_entity open_mdm.Ddl.Create.build_create_plan
    columns_from_entity open_mdm.Identifiers.validate_column_name open_mdm.Identifiers.Types.pg_type
    open_mdm.Identifiers.Types.logical_type open_mdm.Ddl.Catalog.apply_plan
publish_stale_example =
    publish_stale accepts py "supplier" publish_request ann 7 leftover (registry draft) republished
      draft_row "supplier" drafted_one refl refl refl (λ tier. (name_column, refl, tt)) refl refl

update_needs_display_names_example :
    update_entity py accepts_entity "supplier" nameless ann (registry entity) ≡ err integrity_error
unfolding open_mdm.ModelApi.check_columns open_mdm.Identifiers.validate_column_name
    open_mdm.Python.Str.lower open_mdm.Base.Text.lower_ascii open_mdm.ModelApi.numbered
    open_mdm.ModelApi.incoming_from
update_needs_display_names_example =
    update_needs_display_names py accepts_entity "supplier" nameless ann (registry entity) supplier
      refl refl refl

-- A database that refuses every statement.
abbrev refuses : Catalog → Statement → Bool
refuses db s = false

abbrev refusal : {A : Type 0} → Result ApiError A → ApiError
refusal (ok a) = integrity_error
refusal (err e) = e

abbrev refused_publish : Outcome
refused_publish =
    publish_entity refuses py "supplier" publish_request ann 7 deployed (registry entity)
