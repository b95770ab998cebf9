-- ===== src/ModelApi/Events.antt =====
-- app/api/v1/models_api.py: requests to the model API one after another, on the metadata and the
-- tables. A request that fails leaves the metadata as they were.
use open_mdm.Base.{ℕ, String, Bool, List, [], ◌∷◌}
use open_mdm.Base.Results.{Result, ok, err}
use open_mdm.Ddl.{Statement}
use open_mdm.Ddl.Catalog.{Catalog}
use open_mdm.ModelApi.{EntityIn, create_entity, update_entity}
use open_mdm.ModelApi.Publish.{PublishRequest, Outcome, publish_entity, delete_entity}
use open_mdm.ModelIo.Import.{ImportDef, import_models}
use open_mdm.Models.{Entity, User}
use open_mdm.Python.{Python}
use open_mdm.Registry.{ApiError, Registry}

pub data Request : Type 0 where
  create : EntityIn → Request
  change : String → EntityIn → Request
  publish : String → PublishRequest → ℕ → Request
  remove : String → Bool → Bool → Request
  import : Bool → Bool → List ImportDef → Request

pub record Platform : Type 0 where
  pub catalog : Catalog
  pub registry : Registry

-- The commit of `get_db`, or its rollback.
abbrev pub committed : Registry → Result ApiError Registry → Registry
committed before (ok r) = r
committed before (err e) = before

module _ (py : Python) (accepts_entity : Entity → Bool) (accepts : Catalog → Statement → Bool) where
  -- The outcome of a request of a user.
  unfoldable pub respond : User → Request → Platform → Outcome
  respond u (create p) s = record {
    catalog = s.catalog;
    result = create_entity py accepts_entity p u s.registry;
  }
  respond u (change name p) s = record {
    catalog = s.catalog;
    result = update_entity py accepts_entity name p u s.registry;
  }
  respond u (publish name req now) s = publish_entity accepts py name req u now s.catalog s.registry
  respond u (remove name drop_tables confirm) s =
      delete_entity accepts py name drop_tables confirm u s.catalog s.registry
  respond u (import dry_run replace defs) s = record {
    catalog = s.catalog;
    result = import_models accepts_entity dry_run replace defs u s.registry;
  }

  unfoldable pub serve : List (User × Request) → Platform → Platform
  unfolding respond
  serve [] s = s
  serve ((u, request) ∷ more) s =
      let o = respond u request s in
      serve more (record { catalog = o.catalog; registry = committed s.registry o.result })
