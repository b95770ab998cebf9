-- ===== src/Sql.antt =====
-- The connection and the ORM session that a service function is handed, as a state monad with
-- exceptions. A statement that the database refuses raises, and aborts the transaction: until it is
-- rolled back every later statement raises too. What was done before an exception stays done until
-- `begin`, the model of `with get_engine().begin() as conn`, rolls it back.
pub mod Keeps
pub mod Inversion
use open_mdm.Base.{ℕ, Bool, true, false, List, [], ◌∷◌, ◌++◌, if◌then◌else◌}
use open_mdm.Base.Results.{Result, ok, err}
use open_mdm.Models.{AuditEvent, PromotionBatch}
use open_mdm.Tiers.{Tables}
pub use open_mdm.Tiers.{
  Exc, unsupported_operation, staging_not_found, validation_unresolved, golden_gone,
  not_found_or_applied, already_applied, unknown_fields, already_final, segregation_of_duties,
  sql_error, transaction_aborted, raised,
}

pub record State : Type 0 where
  pub tables : Tables
  pub aborted : Bool
  -- `now()` in the running transaction.
  pub now : ℕ
  -- What was added to the ORM session.
  pub audit : List AuditEvent
  pub batches : List PromotionBatch

abbrev pub M : Type 0 → Type 0
M A = State → Result Exc A × State

abbrev pub continue : {A B : Type 0} → Result Exc A × State → (A → M B) → Result Exc B × State
continue (ok a, s) f = f a s
continue (err e, s) f = (err e, s)

module _ {A B : Type 0} where
  infixl 5 ◌>>=◌ ◌>>◌
  unfoldable pub ◌>>=◌ : M A → (A → M B) → M B
  ◌>>=◌ m f s = continue (m s) f

  abbrev pub ◌>>◌ : M A → M B → M B
  m >> k = m >>= λ _. k

-- A rollback keeps the sequences where they are.
abbrev pub rolled_back : State → State → State
rolled_back before after = record after {
  tables = record before.tables {
    next_landing = after.tables.next_landing;
    next_staging = after.tables.next_staging;
  };
  aborted = false;
}

module _ {A : Type 0} where
  unfoldable pub pure : A → M A
  pure a s = (ok a, s)

  unfoldable pub raise : Exc → M A
  raise e s = (err e, s)

  abbrev pub recover : Result Exc A × State → (Exc → M A) → Result Exc A × State
  recover (ok a, s) handler = (ok a, s)
  recover (err e, s) handler = handler e s

  -- `try: m except Exception: handler`
  unfoldable pub try_except : M A → (Exc → M A) → M A
  try_except m handler s = recover (m s) handler

  abbrev pub settle : State → Result Exc (A × Tables) → Result Exc A × State
  settle s (ok (a, t)) = (ok a, record s { tables = t })
  settle s (err e) = (err e, record s { aborted = true })

  -- A statement that the database may refuse: its result and the tables after it.
  abbrev pub accept : Bool → A → Tables → Result Exc (A × Tables)
  accept true a t = ok (a, t)
  accept false a t = err sql_error

  -- One statement.
  unfoldable pub statement : (ℕ → Tables → Result Exc (A × Tables)) → M A
  statement run s =
      if s.aborted then (err transaction_aborted, s) else settle s (run s.now s.tables)

  abbrev pub commit_or_rollback : State → Result Exc A × State → Result Exc A × State
  commit_or_rollback before (ok a, s) = (ok a, s)
  commit_or_rollback before (err e, s) = (err e, rolled_back before s)

  unfoldable pub begin : M A → M A
  begin m s = commit_or_rollback s (m s)

unfoldable pub guard : Bool → Exc → M (Unit {0})
guard true e s = (ok tt, s)
guard false e s = (err e, s)

-- `db.add(AuditEvent(...))`
unfoldable pub add_audit : AuditEvent → M (Unit {0})
add_audit event s = (ok tt, record s { audit = s.audit ++ event ∷ [] })

unfoldable pub add_batch : PromotionBatch → M (Unit {0})
add_batch batch s = (ok tt, record s { batches = s.batches ++ batch ∷ [] })
