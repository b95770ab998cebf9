-- ===== src/System.antt =====
-- The transactions that app/api/v1/data.py and app/api/v1/stewardship.py run on the tiers of one
-- entity, each a `with get_engine().begin() as conn`, and their sequences.
pub mod Steps
pub mod Landing
pub mod Golden
pub mod Staging
pub mod Bulk
pub mod Batches
use open_mdm.Base.{ℕ, String, Bool, Option, List, [], ◌∷◌, Dict}
use open_mdm.Models.{Entity}
use open_mdm.Pipeline.Landing.{WriteRequest, write_to_landing}
use open_mdm.Pipeline.Promotion.{promote_landing_to_staging}
use open_mdm.Pipeline.Review.{apply_staging_to_live, reject_staging, edit_staging}
use open_mdm.Python.{Python, Value}
use open_mdm.Settings.{Settings}
use open_mdm.Sql.{State, M, begin, pure, ◌>>◌}
use open_mdm.Tiers.{Postgres}

pub data Event : Type 0 where
  write : WriteRequest → Event
  -- The batch's id, the landing ids (all of them when empty), the limit and the actor.
  promote : String → List ℕ → ℕ → String → Event
  approve : ℕ → String → List String → Option String → Option Bool → Event
  reject : ℕ → String → String → List String → String → Event
  edit : ℕ → Dict Value → String → List String → String → Event

module _ (cfg : Settings) (pg : Postgres) (py : Python) (entity : Entity) where
  -- The transaction of `_write`.
  abbrev pub write_transaction : WriteRequest → M (Unit {0})
  write_transaction req = begin (write_to_landing pg req >> pure tt)

  -- That of `run_promotion` and of `_auto_promote`.
  abbrev pub promote_transaction : String → List ℕ → ℕ → String → M (Unit {0})
  promote_transaction batch_id ids limit actor =
      begin (promote_landing_to_staging pg py entity batch_id ids limit actor >> pure tt)

  -- That of `approve_record`, and of each row in `bulk_approve`.
  abbrev pub approve_transaction :
      ℕ → String → List String → Option String → Option Bool → M (Unit {0})
  approve_transaction id actor roles remark enforce_sod =
      begin (apply_staging_to_live cfg pg entity id actor roles remark enforce_sod >> pure tt)

  -- That of `reject_record`, and of each row in `bulk_reject`.
  abbrev pub reject_transaction : ℕ → String → String → List String → String → M (Unit {0})
  reject_transaction id shown actor roles reason =
      begin (reject_staging entity id shown actor roles reason)

  -- That of `edit_staging_record`.
  abbrev pub edit_transaction : ℕ → Dict Value → String → List String → String → M (Unit {0})
  edit_transaction id updates actor roles shown =
      begin (edit_staging pg py entity id updates actor roles shown >> pure tt)

  unfoldable pub transaction : Event → M (Unit {0})
  transaction (write req) = write_transaction req
  transaction (promote batch_id ids limit actor) = promote_transaction batch_id ids limit actor
  transaction (approve id actor roles remark enforce_sod) =
      approve_transaction id actor roles remark enforce_sod
  transaction (reject id shown actor roles reason) = reject_transaction id shown actor roles reason
  transaction (edit id updates actor roles shown) = edit_transaction id updates actor roles shown

  -- The state after the transactions, whether each returned or raised.
  unfoldable pub run_all : List Event → State → State
  run_all [] s = s
  run_all (event ∷ events) s = run_all events (transaction event s).1
