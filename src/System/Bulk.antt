-- ===== src/System/Bulk.antt =====
-- app/api/v1/data.py: `bulk_write`. The check of the caller is in Auth/Access, and the
-- validation counts of its response are left out.
use open_mdm.Base.{
  true, false, ℕ, suc, String, false, not, ◌≡◌, refl, ap, ◌∙◌, Option, none, some, List, [], ◌∷◌,
  ◌++◌, Dict, append_assoc, append-nil, All, lookup, take, has_key, has_key-lookup, length, map,
  ltb, if◌then◌else◌,
}
use open_mdm.Base.Results.{Result, ok, err}
use open_mdm.Base.Text.{is_empty_text}
use open_mdm.Models.{Entity, User}
use open_mdm.Pipeline.Landing.{operations, text_or_none, WriteRequest, new_row, write_to_landing}
use open_mdm.Pipeline.Landing.Laws.{write_to_landing_captures}
use open_mdm.Python.{Python, Value, str}
use open_mdm.Settings.{Settings}
use open_mdm.Sql.{Exc, State, M, begin, commit_or_rollback, pure, ◌>>=◌, ◌>>◌}
use open_mdm.Sql.Inversion.{bind-run}
use open_mdm.System.{promote_transaction}
use open_mdm.Tiers.{Operation, LandingRow, LandingStatus, Postgres}
use open_mdm.Validation.Constraints.{truthy}

pub record BulkWrite : Type 0 where
  pub records : List (Dict Value)
  pub operation : String
  pub source_system : Option String

-- Statuses 413 and 422, and what the pipeline raises.
pub data BulkError : Type 0 where
  too_many_rows unsupported : BulkError
  pipeline : Exc → BulkError

pub record BulkWritten : Type 0 where
  pub rows_received : ℕ
  pub landing_ids : List ℕ

-- The ids of the rows that the statements of one transaction insert.
unfoldable pub land_all : Postgres → List WriteRequest → M (List ℕ)
land_all pg [] = pure []
land_all pg (req ∷ reqs) =
    write_to_landing pg req >>= λ l. land_all pg reqs >>= λ ids. pure (l.landing_id ∷ ids)

module _ (py : Python) where
  -- `rec.get("mdm_id")`, as `str(target_id) if target_id else None` writes it.
  abbrev pub target_of : Option Value → Option String
  target_of none = none
  target_of (some (str s)) = some s
  target_of (some v) = if truthy py v then some (py.text_of v) else none

  abbrev pub bulk_request : BulkWrite → User → String → Dict Value → WriteRequest
  bulk_request p principal batch_id rec = record {
    operation = p.operation;
    payload = rec;
    target_id = target_of (lookup "mdm_id" rec);
    source_system = p.source_system;
    submitted_by = some principal.username;
    batch_id = some batch_id;
    idempotency_key = none;
  }

  module _ (cfg : Settings) (pg : Postgres) (entity : Entity) where
    abbrev pub bulk_transaction : BulkWrite → User → String → M (List ℕ)
    bulk_transaction p principal batch_id =
        begin (land_all pg (map (bulk_request p principal batch_id) p.records))

    -- `_auto_promote`, up to the default limit of a promotion.
    abbrev pub auto_promote : String → String → M (Unit {0})
    auto_promote batch_id actor =
        if cfg.auto_promote_landing
        then promote_transaction cfg pg py entity batch_id [] 1000 actor
        else pure tt

    abbrev pub reported : {A : Type 0} → Result Exc A × State → Result BulkError A × State
    reported (ok a, s) = (ok a, s)
    reported (err e, s) = (err (pipeline e), s)

    -- The landing rows are committed before the promotion begins. The response names the first
    -- hundred of their ids.
    unfoldable pub bulk_write :
        BulkWrite → User → String → String → State → Result BulkError BulkWritten × State
    unfolding land_all
    bulk_write p principal batch_id promotion_id s =
        if ltb cfg.max_bulk_rows (length p.records)
        then (err too_many_rows, s)
        else if not (has_key p.operation operations)
        then (err unsupported, s)
        else reported (
            (bulk_transaction p principal batch_id >>= λ ids.
            auto_promote promotion_id principal.username
            >> pure (record { rows_received = length ids; landing_ids = take 100 ids }))
              s)

-- The row of a record, field by field.
abbrev pub landed_record :
    Python → BulkWrite → Operation → User → String → ℕ → ℕ → Dict Value → LandingRow
landed_record py p op principal batch_id id now rec = record {
  id = id;
  operation = op;
  payload = rec;
  target_id = text_or_none (target_of py (lookup "mdm_id" rec));
  source_system = p.source_system;
  batch_id = some batch_id;
  idempotency_key = none;
  submitted_by = some principal.username;
  received_at = now;
  status = LandingStatus.pending;
  errors = none;
  processed_at = none;
}

module _ (py : Python) (pg : Postgres) (p : BulkWrite) (op : Operation) (principal : User)
    (batch_id : String) where
  -- The rows of records, the first with the given id.
  abbrev pub bulk_rows : List (Dict Value) → ℕ → ℕ → List LandingRow
  bulk_rows [] id now = []
  bulk_rows (rec ∷ records) id now =
      landed_record py p op principal batch_id id now rec ∷ bulk_rows records (suc id) now

  abbrev pub ids_from : ℕ → List (Dict Value) → List ℕ
  ids_from id [] = []
  ids_from id (rec ∷ records) = id ∷ ids_from (suc id) records

  abbrev pub next_id : ℕ → List (Dict Value) → ℕ
  next_id id [] = id
  next_id id (rec ∷ records) = next_id (suc id) records

  -- The state with the rows behind the others.
  abbrev pub with_rows : List (Dict Value) → State → State
  with_rows records s = record s {
    tables = record s.tables {
      landing = s.tables.landing ++ bulk_rows records s.tables.next_landing s.now;
      next_landing = next_id s.tables.next_landing records;
    };
  }

  -- The table accepts each row.
  abbrev pub Accepted : List LandingRow → Type 0
  Accepted rows = All (λ row. pg.accepts_landing row ≡ true) rows

  with_rows-step :
      (rec : Dict Value) (records : List (Dict Value)) (s : State)
      → with_rows records (with_rows (rec ∷ []) s) ≡ with_rows (rec ∷ records) s
  with_rows-step rec records s =
      ap
        (λ rows. record s {
          tables = record s.tables {
            landing = rows;
            next_landing = next_id (suc s.tables.next_landing) records;
          };
        })
        (append_assoc s.tables.landing (bulk_rows (rec ∷ []) s.tables.next_landing s.now)
          (bulk_rows records (suc s.tables.next_landing) s.now))

  module _ (known : lookup p.operation operations ≡ some op)
      (named : is_empty_text batch_id ≡ false) where
    record-row :
        (id now : ℕ) (rec : Dict Value)
        → new_row op (bulk_request py p principal batch_id rec) id now
          ≡ landed_record py p op principal batch_id id now rec
    record-row id now rec = rw named refl

    land_one :
        (rec : Dict Value) (s : State)
        → s.aborted ≡ false
        → pg.accepts_landing
            (landed_record py p op principal batch_id s.tables.next_landing s.now rec)
          ≡ true
        → write_to_landing pg (bulk_request py p principal batch_id rec) s ≡ (
          ok (record {
            landing_id = s.tables.next_landing;
            status = LandingStatus.pending;
            deduplicated = false;
          }),
          with_rows (rec ∷ []) s,
        )
    land_one rec s live fits =
        let same = record-row s.tables.next_landing s.now rec in
        write_to_landing_captures pg (bulk_request py p principal batch_id rec) op s known live refl
          (ap pg.accepts_landing same ∙ fits)
        ∙ ap
            (λ row. (
              ok (record {
                landing_id = s.tables.next_landing;
                status = LandingStatus.pending;
                deduplicated = false;
              }),
              record s {
                tables = record s.tables {
                  landing = s.tables.landing ++ row ∷ [];
                  next_landing = suc s.tables.next_landing;
                };
              },
            ))
            same

    land_all-run :
        (records : List (Dict Value)) (s : State)
        → Accepted (bulk_rows records s.tables.next_landing s.now)
        → s.aborted ≡ false
        → land_all pg (map (bulk_request py p principal batch_id) records) s
          ≡ (ok (ids_from s.tables.next_landing records), with_rows records s)
    unfolding land_all pure
    land_all-run [] s fits live =
        ap (λ rows. (ok [], record s { tables = record s.tables { landing = rows } }))
          (append-nil s.tables.landing)
    land_all-run (rec ∷ records) s (fit, fits) live =
        let s1 = with_rows (rec ∷ []) s in
        bind-run _ _ s s1 _ (land_one rec s live fit)
        ∙ (bind-run (land_all pg (map (bulk_request py p principal batch_id) records)) _ s1
              (with_rows records s1) (ids_from s1.tables.next_landing records)
              (land_all-run records s1 fits live)
            ∙ ap (λ x. (ok (s.tables.next_landing ∷ ids_from s1.tables.next_landing records), x))
                (with_rows-step rec records s))

  -- A batch of at most the permitted number of records and of a supported operation, on a live
  -- transaction, lands whole before the promotion begins, if the table accepts each of its rows:
  -- each record becomes one pending row behind the others, in order and with consecutive ids. If
  -- the promotion returns, the response has the number of the records and the first hundred ids.
  pub bulk_write_captures :
      (cfg : Settings) (entity : Entity) (promotion_id : String) (s : State)
      → ltb cfg.max_bulk_rows (length p.records) ≡ false
      → lookup p.operation operations ≡ some op
      → is_empty_text batch_id ≡ false
      → Accepted (bulk_rows p.records s.tables.next_landing s.now)
      → s.aborted ≡ false
      → bulk_write py cfg pg entity p principal batch_id promotion_id s
        ≡ reported py cfg pg entity (
            (auto_promote py cfg pg entity promotion_id principal.username
                >> pure (record {
                  rows_received = length p.records;
                  landing_ids = take 100 (ids_from s.tables.next_landing p.records);
                }))
              (with_rows p.records s))
  unfolding bulk_write begin
  bulk_write_captures cfg entity promotion_id s few known named fits live =
      rw (bulk_write, few, has_key-lookup p.operation operations known)
        (ap (reported py cfg pg entity) (
          bind-run (bulk_transaction py cfg pg entity p principal batch_id) _ s _ _
            (ap (commit_or_rollback s) (land_all-run known named p.records s fits live))
          ∙ ap
              (λ n.
                (auto_promote py cfg pg entity promotion_id principal.username
                    >> pure (record {
                      rows_received = n;
                      landing_ids = take 100 (ids_from s.tables.next_landing p.records);
                    }))
                  (with_rows p.records s))
              (length-ids_from s.tables.next_landing p.records)))
    where
      length-ids_from :
          (id : ℕ) (records : List (Dict Value)) → length (ids_from id records) ≡ length records
      length-ids_from id [] = refl
      length-ids_from id (rec ∷ records) = ap suc (length-ids_from (suc id) records)
