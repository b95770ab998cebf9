-- ===== src/Pipeline/Landing.antt =====
-- Tier 1 of app/services/pipeline.py: `write_to_landing`.
pub mod Changes
pub mod Laws
use open_mdm.Base.{
  ℕ, suc, String, Bool, true, false, not, ◌&&◌, Option, none, some, List, [], ◌∷◌, ◌++◌, Dict, any,
  find_first, lookup, ◌==◌, if◌then◌else◌,
}
use open_mdm.Base.Results.{Result, ok}
use open_mdm.Base.Text.{is_empty_text}
use open_mdm.Python.{Value}
use open_mdm.Sql.{Exc, unsupported_operation, accept, M, pure, raise, statement, ◌>>=◌}
use open_mdm.Tiers.{Operation, LandingStatus, LandingRow, Tables, Postgres}

-- `if s:` of an optional text.
abbrev pub truthy_text : Option String → Bool
truthy_text none = false
truthy_text (some s) = not (is_empty_text s)

-- `s if s else None`
abbrev pub text_or_none : Option String → Option String
text_or_none none = none
text_or_none (some s) = if is_empty_text s then none else some s

abbrev pub operations : Dict Operation
operations =
    ("INSERT", Operation.insert)
    ∷ ("UPDATE", Operation.update)
    ∷ ("DELETE", Operation.delete)
    ∷ ("UPSERT", Operation.upsert)
    ∷ []

pub record WriteRequest : Type 0 where
  pub operation : String
  pub payload : Dict Value
  pub target_id : Option String
  pub source_system : Option String
  pub submitted_by : Option String
  pub batch_id : Option String
  pub idempotency_key : Option String

pub record Landed : Type 0 where
  pub landing_id : ℕ
  pub status : LandingStatus
  pub deduplicated : Bool

-- `mdm_idempotency_key = :k`, false for NULL.
abbrev pub has_idempotency_key : String → LandingRow → Bool
has_idempotency_key k row = elim row.idempotency_key [ none ↦ false | some j ↦ j == k ]

-- The partial unique index on the key: the insertion of a key that stands in the table is refused.
abbrev pub key_taken : Option String → List LandingRow → Bool
key_taken none rows = false
key_taken (some k) rows = any (has_idempotency_key k) rows

abbrev pub new_row : Operation → WriteRequest → ℕ → ℕ → LandingRow
new_row op req id now = record {
  id = id;
  operation = op;
  payload = req.payload;
  target_id = text_or_none req.target_id;
  source_system = req.source_system;
  batch_id = text_or_none req.batch_id;
  idempotency_key = req.idempotency_key;
  submitted_by = req.submitted_by;
  received_at = now;
  status = LandingStatus.pending;
  errors = none;
  processed_at = none;
}

-- The SELECT of the row that has the key.
unfoldable pub select_key : Option String → ℕ → Tables → Result Exc (Option LandingRow × Tables)
select_key none now t = ok (none, t)
select_key (some k) now t = ok (find_first (has_idempotency_key k) t.landing, t)

module _ (pg : Postgres) where
  -- The INSERT, which the index on the keys and the table's other constraints may refuse.
  unfoldable pub insert_landing :
      Operation → WriteRequest → ℕ → Tables → Result Exc (Landed × Tables)
  insert_landing op req now t =
      accept
        (not (key_taken req.idempotency_key t.landing)
          && pg.accepts_landing (new_row op req t.next_landing now))
        (record {
          landing_id = t.next_landing;
          status = LandingStatus.pending;
          deduplicated = false;
        })
        (record t {
          landing = t.landing ++ new_row op req t.next_landing now ∷ [];
          next_landing = suc t.next_landing;
        })

  land_new : Operation → WriteRequest → Option LandingRow → M Landed
  land_new op req (some row) =
      pure (record { landing_id = row.id; status = row.status; deduplicated = true })
  land_new op req none = statement (insert_landing op req)

  land_keyed : Operation → WriteRequest → Option String → M Landed
  unfolding land_new
  land_keyed op req key =
      if truthy_text key
      then (statement (select_key key) >>= land_new op req)
      else statement (insert_landing op req)

  land : WriteRequest → Option Operation → M Landed
  unfolding land_keyed
  land req none = raise unsupported_operation
  land req (some op) = land_keyed op req req.idempotency_key

  unfoldable pub write_to_landing : WriteRequest → M Landed
  unfolding land
  write_to_landing req = land req (lookup req.operation operations)
