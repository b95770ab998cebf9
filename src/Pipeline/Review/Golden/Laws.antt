-- ===== src/Pipeline/Review/Golden/Laws.antt =====
-- What an approved update and an approved deletion make of the golden record and its history.
use open_mdm.Base.{
  ℕ, ◌+◌, String, ◌≡◌, refl, ap, ◌∙◌, Bool, true, false, Option, none, some, [], ◌∷◌, ◌++◌, Dict,
  lookup, member, update, update_where, keep, not, is_empty, ◌==◌, if◌then◌else◌,
}
use open_mdm.Base.Results.{ok}
use open_mdm.Models.{Entity}
use open_mdm.Pipeline.Landing.{truthy_text}
use open_mdm.Pipeline.Promotion.Target.{select_by_id}
use open_mdm.Pipeline.Review.Golden.{
  no_change, snapshot, write_history, supplied_values, is_delete, change_golden, update_found,
  apply_update, insert_or_update, apply_change,
}
use open_mdm.Python.{Value}
use open_mdm.Settings.{Settings}
use open_mdm.Sql.{State, pure}
use open_mdm.Sql.Inversion.{bind-run, statement-accepted}
use open_mdm.Tiers.{ChangeType, StagingRow, LiveRow, Postgres}

-- `a` where it is there, and `b` where it is not.
abbrev pub or_else {ℓ} : {A : Type ℓ} → Option A → Option A → Option A
or_else none b = b
or_else (some a) b = some a

-- The state when the snapshot has been written.
abbrev pub after_history : LiveRow → ChangeType → String → State → State
after_history current change actor s = record s {
  tables = record s.tables {
    history = s.tables.history ++ snapshot current change actor s.now ∷ [];
  };
}

module _ (cfg : Settings) (pg : Postgres) (entity : Entity) (row : StagingRow) (actor : String)
    (staging_id : ℕ) (id : String) (current : LiveRow) (s : State) where
  -- The state after an update of the golden record, field by field: the record with these values
  -- written over its own, and the record as it was behind the history.
  abbrev pub after_update : Dict Value → State
  after_update values = record s {
    tables = record s.tables {
      live =
          update_where (λ x. x.id == current.id)
            (λ x. record {
              id = x.id;
              version = x.version + 1;
              source_system = x.source_system;
              is_deleted = x.is_deleted;
              deleted_at = x.deleted_at;
              created_at = x.created_at;
              created_by = x.created_by;
              updated_at = s.now;
              updated_by = some actor;
              approved_by = some actor;
              staging_id = some staging_id;
              values = update x.values values;
            })
            s.tables.live;
      history =
          s.tables.history
          ++ record {
            id = current.id;
            version = current.version;
            change_type = ChangeType.update;
            valid_from = current.updated_at;
            valid_to = s.now;
            changed_by = actor;
            source_system = current.source_system;
            is_deleted = current.is_deleted;
            staging_id = current.staging_id;
            values = current.values;
          }
            ∷ [];
    };
  }

  -- What a field of the record becomes: its staged value if it was supplied and staged, and
  -- itself if not. (Without a list of what was supplied, every staged value that is not null counts.)
  abbrev pub WritesSupplied : Dict Value → Type 0
  WritesSupplied values =
      is_empty row.supplied_fields ≡ false
      → (k : String)
      → lookup k (update current.values values) ≡ (
          if member k row.supplied_fields
          then or_else (lookup k row.values) (lookup k current.values)
          else lookup k current.values)

  -- An approved update for which nothing was supplied leaves the golden record and its version as
  -- they are, but appends a snapshot of that version to the history all the same.
  pub approved_no_change :
      s.aborted ≡ false
      → is_delete row.operation ≡ false
      → row.target_id ≡ some id
      → truthy_text (some id) ≡ true
      → select_by_id pg id s.now s.tables ≡ ok (some current, s.tables)
      → supplied_values row.values row.supplied_fields ≡ []
      → apply_change cfg pg entity actor staging_id row s
        ≡ (ok (no_change id current.version), after_history current ChangeType.update actor s)
  unfolding apply_change insert_or_update apply_update update_found write_history change_golden pure
  approved_no_change live op target text found supplied =
      rw (op, target, text)
        (bind-run _ _ s s (some current)
            (statement-accepted (select_by_id pg id) s (some current) s.tables live found)
          ∙ (bind-run _ _ s _ tt (
                statement-accepted (write_history current ChangeType.update actor) s tt _ live refl)
              ∙ ap
                  (λ v.
                    change_golden pg current id v actor staging_id
                      (after_history current ChangeType.update actor s))
                  supplied))

  -- The state after a deletion of the golden record, field by field.
  abbrev pub after_delete : Bool → State
  after_delete soft = record s {
    tables = record s.tables {
      live =
          if soft
          then update_where (λ x. x.id == current.id)
              (λ x. record {
                id = x.id;
                version = x.version + 1;
                source_system = x.source_system;
                is_deleted = true;
                deleted_at = some s.now;
                created_at = x.created_at;
                created_by = x.created_by;
                updated_at = s.now;
                updated_by = some actor;
                approved_by = some actor;
                staging_id = x.staging_id;
                values = x.values;
              })
              s.tables.live
          else keep (λ x. not (x.id == current.id)) s.tables.live;
      history =
          s.tables.history
          ++ record {
            id = current.id;
            version = current.version;
            change_type = ChangeType.delete;
            valid_from = current.updated_at;
            valid_to = s.now;
            changed_by = actor;
            source_system = current.source_system;
            is_deleted = current.is_deleted;
            staging_id = current.staging_id;
            values = current.values;
          }
            ∷ [];
    };
  }
