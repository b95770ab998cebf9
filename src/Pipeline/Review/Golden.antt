-- ===== src/Pipeline/Review/Golden.antt =====
-- `_apply_insert`, `_apply_update`, `_apply_delete` and `_write_history`: what an approved row does
-- to the golden record and its history.
pub mod Changes
pub mod Laws
use open_mdm.Base.{
  ℕ, ◌+◌, String, Bool, true, false, not, ◌&&◌, ◌||◌, Option, none, some, List, [], ◌∷◌, ◌++◌, Dict,
  any, update_where, keep, lookup, update, is_empty, ◌==◌, if◌then◌else◌,
}
use open_mdm.Base.Results.{Result, ok, err}
use open_mdm.Models.{Entity}
use open_mdm.Pipeline.Landing.{truthy_text}
use open_mdm.Pipeline.Promotion.Target.{select_by_id}
use open_mdm.Python.{Value, is_null}
use open_mdm.Settings.{Settings}
use open_mdm.Sql.{Exc, accept, golden_gone, M, pure, raise, statement, ◌>>=◌, ◌>>◌}
use open_mdm.Tiers.{Operation, StagingRow, LiveRow, HistoryRow, ChangeType, Tables, Postgres}

-- The result dict of the three functions, without its list of changed fields.
pub data Applied : Type 0 where
  inserted : String → Applied
  updated : String → ℕ → Applied
  no_change : String → ℕ → Applied
  soft_deleted : String → Applied
  hard_deleted : String → Applied

-- `f"approve_{result['change_type']}"`
abbrev pub applied_name : Applied → String
applied_name (inserted id) = "approve_insert"
applied_name (updated id version) = "approve_update"
applied_name (no_change id version) = "approve_no_change"
applied_name (soft_deleted id) = "approve_soft_delete"
applied_name (hard_deleted id) = "approve_hard_delete"

-- `result.get("mdm_id")`
abbrev pub shown_id : Applied → String
shown_id (inserted id) = id
shown_id (updated id version) = id
shown_id (no_change id version) = id
shown_id (soft_deleted id) = id
shown_id (hard_deleted id) = id

abbrev pub has_live_id : String → LiveRow → Bool
has_live_id id row = row.id == id

-- `_write_history`: the state before the change.
abbrev pub snapshot : LiveRow → ChangeType → String → ℕ → HistoryRow
snapshot current change actor now = record {
  id = current.id;
  version = current.version;
  change_type = change;
  valid_from = current.updated_at;
  valid_to = now;
  changed_by = actor;
  source_system = current.source_system;
  is_deleted = current.is_deleted;
  staging_id = current.staging_id;
  values = current.values;
}

unfoldable pub write_history :
    LiveRow → ChangeType → String → ℕ → Tables → Result Exc (Unit {0} × Tables)
write_history current change actor now t =
    ok (tt, record t { history = t.history ++ snapshot current change actor now ∷ [] })

-- `{k: values[k] for k in supplied_fields if k in values}`
abbrev pub only_supplied : Dict Value → List String → Dict Value
only_supplied values [] = []
only_supplied values (k ∷ ks) = elim (lookup k values) [
  | none ↦ only_supplied values ks
  | some v ↦ (k, v) ∷ only_supplied values ks
]

-- Without a record of what was supplied, every value that is not null.
abbrev pub not_null : Dict Value → Dict Value
not_null values = keep (λ (k, v). not (is_null v)) values

abbrev pub supplied_values : Dict Value → List String → Dict Value
supplied_values values fields =
    if is_empty fields then not_null values else only_supplied values fields

abbrev pub is_delete : Operation → Bool
is_delete Operation.delete = true
is_delete _ = false

-- `str(target_id)`
abbrev pub shown_target : Option String → String
shown_target none = "None"
shown_target (some id) = id

abbrev pub others : String → List LiveRow → List LiveRow
others id rows = keep (λ row. not (row.id == id)) rows

module _ (pg : Postgres) where
  abbrev pub new_golden : StagingRow → String → ℕ → ℕ → Tables → LiveRow
  new_golden row actor staging_id now t = record {
    id = pg.new_uuid t;
    version = 1;
    source_system = row.source_system;
    is_deleted = false;
    deleted_at = none;
    created_at = now;
    created_by = some actor;
    updated_at = now;
    updated_by = some actor;
    approved_by = some actor;
    staging_id = some staging_id;
    values = row.values;
  }

  -- The INSERT, which the primary key and the table's other constraints may refuse.
  unfoldable pub insert_live : StagingRow → String → ℕ → ℕ → Tables → Result Exc (String × Tables)
  insert_live row actor staging_id now t =
      let golden = new_golden row actor staging_id now t in
      accept (not (any (has_live_id golden.id) t.live) && pg.accepts_live t.live golden) golden.id
        (record t { live = t.live ++ golden ∷ [] })

  apply_insert : StagingRow → String → ℕ → M Applied
  apply_insert row actor staging_id =
      statement (insert_live row actor staging_id) >>= λ id. pure (inserted id)

  abbrev pub as_updated : Dict Value → String → ℕ → ℕ → LiveRow → LiveRow
  as_updated values actor staging_id now row = record row {
    version = row.version + 1;
    updated_at = now;
    updated_by = some actor;
    approved_by = some actor;
    staging_id = some staging_id;
    values = update row.values values;
  }

  -- The UPDATE of the golden record that was read.
  unfoldable pub update_live :
      LiveRow → Dict Value → String → ℕ → ℕ → Tables → Result Exc (ℕ × Tables)
  update_live current values actor staging_id now t =
      accept
        (pg.accepts_live (others current.id t.live)
          (as_updated values actor staging_id now current))
        (current.version + 1)
        (record t {
          live =
              update_where (has_live_id current.id) (as_updated values actor staging_id now) t.live;
        })

  change_golden : LiveRow → String → Dict Value → String → ℕ → M Applied
  change_golden current id [] actor staging_id = pure (no_change id current.version)
  change_golden current id (v ∷ values) actor staging_id =
      statement (update_live current (v ∷ values) actor staging_id) >>= λ version.
      pure (updated id version)

  update_found : String → Dict Value → List String → String → ℕ → Option LiveRow → M Applied
  unfolding change_golden
  update_found id values fields actor staging_id none = raise golden_gone
  update_found id values fields actor staging_id (some current) = do
    statement (write_history current ChangeType.update actor)
    change_golden current id (supplied_values values fields) actor staging_id

  apply_update : String → Dict Value → List String → String → ℕ → M Applied
  unfolding update_found
  apply_update id values fields actor staging_id = do
    current ← statement (select_by_id pg id)
    update_found id values fields actor staging_id current

  abbrev pub as_deleted : String → ℕ → LiveRow → LiveRow
  as_deleted actor now row = record row {
    is_deleted = true;
    deleted_at = some now;
    version = row.version + 1;
    updated_at = now;
    updated_by = some actor;
    approved_by = some actor;
  }

  unfoldable pub soft_delete_live : LiveRow → String → ℕ → Tables → Result Exc (Unit {0} × Tables)
  soft_delete_live current actor now t =
      ok (
        tt,
        record t { live = update_where (has_live_id current.id) (as_deleted actor now) t.live },
      )

  unfoldable pub hard_delete_live : LiveRow → ℕ → Tables → Result Exc (Unit {0} × Tables)
  hard_delete_live current now t = ok (tt, record t { live = others current.id t.live })

  delete_found : Bool → String → String → Option LiveRow → M Applied
  delete_found soft id actor none = raise golden_gone
  delete_found soft id actor (some current) =
      statement (write_history current ChangeType.delete actor)
      >> (if soft
          then statement (soft_delete_live current actor) >> pure (soft_deleted id)
          else statement (hard_delete_live current) >> pure (hard_deleted id))

  apply_delete : Bool → String → String → M Applied
  unfolding delete_found
  apply_delete soft id actor = do
    current ← statement (select_by_id pg id)
    delete_found soft id actor current

  insert_or_update : StagingRow → String → ℕ → Option String → M Applied
  unfolding apply_insert apply_update
  insert_or_update row actor staging_id none = apply_insert row actor staging_id
  insert_or_update row actor staging_id (some id) =
      if truthy_text (some id)
      then apply_update id row.values row.supplied_fields actor staging_id
      else apply_insert row actor staging_id

-- The dispatch of `apply_staging_to_live`.
unfoldable pub apply_change : Settings → Postgres → Entity → String → ℕ → StagingRow → M Applied
unfolding apply_delete insert_or_update
apply_change cfg pg entity actor staging_id row =
    if is_delete row.operation
    then apply_delete pg (entity.soft_delete && cfg.soft_delete) (shown_target row.target_id) actor
    else insert_or_update pg row actor staging_id row.target_id
