-- ===== src/System/Steps.antt =====
-- What every transaction keeps: a property that the changes of the tables keep.
use open_mdm.Base.{ℕ, arith, String, Bool, Option, Dict, List, [], ◌∷◌}
use open_mdm.Models.{Entity}
use open_mdm.Pipeline.Landing.{WriteRequest}
use open_mdm.Pipeline.Landing.Changes.{LandingStable, write-Keeps}
use open_mdm.Pipeline.Promotion.Changes.{Stable, promote-Keeps}
use open_mdm.Pipeline.Review.Changes.{
  StagingStable, apply_staging_to_live-Keeps, reject_staging-Keeps, edit_staging-Keeps,
}
use open_mdm.Pipeline.Review.Golden.Changes.{GoldenStable}
use open_mdm.Python.{Python, Value}
use open_mdm.Settings.{Settings}
use open_mdm.Sql.{State}
use open_mdm.Sql.Keeps.{Keeps, Keeps-begin, keeps_rules, Grown, Sequenced}
use open_mdm.System.{Event, write, promote, approve, reject, edit, transaction, run_all}
use open_mdm.Tiers.{Tables, Postgres}

module _ (pg : Postgres) (py : Python) (entity : Entity) where
  -- What the transactions that leave the golden tier alone need of a property.
  pub record Pending (P : Tables → Type 0) : Type 0 where
    pub sequenced : Sequenced P
    pub landing : LandingStable P
    pub promotion : Stable pg py entity P
    pub staging : StagingStable P

  Grown-landing : (t0 : Tables) → LandingStable (Grown t0)
  Grown-landing t0 = record { add = λ op req now t k g. (omega (arith, g.0), g.1) }

  Grown-promotion : (t0 : Tables) → Stable pg py entity (Grown t0)
  Grown-promotion t0 = record {
    mark = λ status raised_by id now t g. g;
    add = λ batch_id r o found t g. (g.0, omega (arith, g.1));
  }

  Grown-staging : (t0 : Tables) → StagingStable (Grown t0)
  Grown-staging t0 = record {
    review = λ test status actor remark now t g. g;
    edit = λ pg py entity id o fields actor now t g. g;
  }

  Grown-golden : (t0 : Tables) → GoldenStable (Grown t0)
  Grown-golden t0 = record {
    insert = λ golden t k g. g;
    change = λ id change t same bump g. g;
    remove = λ id t g. g;
    history = λ row t g. g;
  }

  module _ (cfg : Settings) {P : Tables → Type 0} (pending : Pending P) where
    pub write_event-Keeps :
        (req : WriteRequest) → Keeps P (transaction cfg pg py entity (write req))
    unfolding transaction
    write_event-Keeps req =
        Keeps-begin pending.sequenced _ (search (keeps_rules, write-Keeps pg pending.landing))
          (λ t0. search (keeps_rules, write-Keeps pg (Grown-landing t0)))

    pub promote_event-Keeps :
        (batch_id : String) (ids : List ℕ) (limit : ℕ) (actor : String)
        → Keeps P (transaction cfg pg py entity (promote batch_id ids limit actor))
    unfolding transaction
    promote_event-Keeps batch_id ids limit actor =
        Keeps-begin pending.sequenced _
          (search (keeps_rules, promote-Keeps pg py entity pending.promotion))
          (λ t0. search (keeps_rules, promote-Keeps pg py entity (Grown-promotion t0)))

    pub reject_event-Keeps :
        (id : ℕ) (shown actor : String) (roles : List String) (reason : String)
        → Keeps P (transaction cfg pg py entity (reject id shown actor roles reason))
    unfolding transaction
    reject_event-Keeps id shown actor roles reason =
        Keeps-begin pending.sequenced _
          (reject_staging-Keeps pending.staging entity id shown actor roles reason)
          (λ t0. reject_staging-Keeps (Grown-staging t0) entity id shown actor roles reason)

    pub edit_event-Keeps :
        (id : ℕ) (updates : Dict Value) (actor : String) (roles : List String) (shown : String)
        → Keeps P (transaction cfg pg py entity (edit id updates actor roles shown))
    unfolding transaction
    edit_event-Keeps id updates actor roles shown =
        Keeps-begin pending.sequenced _
          (search (keeps_rules, edit_staging-Keeps pending.staging pg py entity))
          (λ t0.
            search (keeps_rules, edit_staging-Keeps {P = Grown t0} (Grown-staging t0) pg py entity))

    approve_event-Keeps :
        GoldenStable P
        → (id : ℕ) (actor : String) (roles : List String) (remark : Option String)
          (enforce_sod : Option Bool)
        → Keeps P (transaction cfg pg py entity (approve id actor roles remark enforce_sod))
    unfolding transaction
    approve_event-Keeps golden id actor roles remark enforce_sod =
        Keeps-begin pending.sequenced _
          (search (keeps_rules, apply_staging_to_live-Keeps pending.staging cfg pg entity golden))
          (λ t0. search (
            keeps_rules,
            apply_staging_to_live-Keeps {P = Grown t0} (Grown-staging t0) cfg pg entity
                (Grown-golden t0),
          ))

    pub transaction-Keeps :
        GoldenStable P → (event : Event) → Keeps P (transaction cfg pg py entity event)
    transaction-Keeps golden (write req) = write_event-Keeps req
    transaction-Keeps golden (promote batch_id ids limit actor) =
        promote_event-Keeps batch_id ids limit actor
    transaction-Keeps golden (approve id actor roles remark enforce_sod) =
        approve_event-Keeps golden id actor roles remark enforce_sod
    transaction-Keeps golden (reject id shown actor roles reason) =
        reject_event-Keeps id shown actor roles reason
    transaction-Keeps golden (edit id updates actor roles shown) =
        edit_event-Keeps id updates actor roles shown

    pub run_all-keeps :
        GoldenStable P
        → (events : List Event) (s : State) → P s.tables
        → P (run_all cfg pg py entity events s).tables
    unfolding run_all
    run_all-keeps golden [] s p = p
    run_all-keeps golden (event ∷ events) s p =
        run_all-keeps golden events (transaction cfg pg py entity event s).1
          ((transaction-Keeps golden event).at s p)
