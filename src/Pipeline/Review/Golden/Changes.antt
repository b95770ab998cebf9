-- ===== src/Pipeline/Review/Golden/Changes.antt =====
-- The only changes that an approved row makes to the golden tier and its history.
use open_mdm.Base.{
  ◌+◌, any, not, ◌&&◌, subst, refl, update_where, ℕ, String, ◌≡◌, Bool, true, false, Option, none,
  some, List, [], ◌∷◌, ◌++◌, Dict,
}
use open_mdm.Models.{Entity}
use open_mdm.Pipeline.Promotion.Target.Reads.{read-same, select_by_id-Keeps}
use open_mdm.Pipeline.Review.Golden.{
  has_live_id, others, as_updated, as_deleted, write_history, insert_live, apply_insert,
  update_live, change_golden, update_found, apply_update, soft_delete_live, hard_delete_live,
  delete_found, apply_delete, insert_or_update, apply_change,
}
use open_mdm.Python.{Value}
use open_mdm.Settings.{Settings}
use open_mdm.Sql.{statement}
use open_mdm.Sql.Keeps.{Keeps, Keeps-statement, accept-ok, keeps_rules}
use open_mdm.Tiers.{StagingRow, LiveRow, HistoryRow, ChangeType, Tables, Postgres}

absent : (taken fits : Bool) → not taken && fits ≡ true → taken ≡ false
absent true fits h = absurd (cc)
absent false fits h = refl

-- What an approval needs of a property of the tables.
pub record GoldenStable (P : Tables → Type 0) : Type 0 where
  pub insert :
      (golden : LiveRow) (t : Tables)
      → any (has_live_id golden.id) t.live ≡ false
      → P t
      → P (record t { live = t.live ++ golden ∷ [] })
  pub change :
      (id : String) (change : LiveRow → LiveRow) (t : Tables)
      → ((row : LiveRow) → (change row).id ≡ row.id)
      → ((row : LiveRow) → (change row).version ≡ row.version + 1)
      → P t
      → P (record t { live = update_where (has_live_id id) change t.live })
  pub remove : (id : String) (t : Tables) → P t → P (record t { live = others id t.live })
  pub history :
      (row : HistoryRow) (t : Tables) → P t → P (record t { history = t.history ++ row ∷ [] })

module _ {P : Tables → Type 0} (pg : Postgres) (stable : GoldenStable P) where
  write_history-Keeps :
      (current : LiveRow) (change : ChangeType) (actor : String)
      → Keeps P (statement (write_history current change actor))
  unfolding write_history
  write_history-Keeps current change actor =
      Keeps-statement (write_history current change actor)
        (λ n t a t' h p. read-same P h (stable.history _ t p))

  insert_live-Keeps :
      (row : StagingRow) (actor : String) (id : ℕ)
      → Keeps P (statement (insert_live pg row actor id))
  unfolding insert_live
  insert_live-Keeps row actor id = Keeps-statement (insert_live pg row actor id) (λ n t a t' h p.
      let (fits, same) = accept-ok _ _ a _ t' h in
      subst P same (stable.insert _ t (absent _ _ fits) p))

  update_live-Keeps :
      (current : LiveRow) (values : Dict Value) (actor : String) (id : ℕ)
      → Keeps P (statement (update_live pg current values actor id))
  unfolding update_live
  update_live-Keeps current values actor id =
      Keeps-statement (update_live pg current values actor id) (λ n t a t' h p.
        subst P (accept-ok _ _ a _ t' h).1 (
          stable.change current.id (as_updated pg values actor id n) t (λ row. refl) (λ row. refl)
            p))

  soft_delete_live-Keeps :
      (current : LiveRow) (actor : String) → Keeps P (statement (soft_delete_live pg current actor))
  unfolding soft_delete_live
  soft_delete_live-Keeps current actor =
      Keeps-statement (soft_delete_live pg current actor) (λ n t a t' h p.
        read-same P h
          (stable.change current.id (as_deleted pg actor n) t (λ row. refl) (λ row. refl) p))

  hard_delete_live-Keeps : (current : LiveRow) → Keeps P (statement (hard_delete_live pg current))
  unfolding hard_delete_live
  hard_delete_live-Keeps current =
      Keeps-statement (hard_delete_live pg current)
        (λ n t a t' h p. read-same P h (stable.remove current.id t p))

  change_golden-Keeps :
      (current : LiveRow) (id : String) (values : Dict Value) (actor : String) (staging_id : ℕ)
      → Keeps P (change_golden pg current id values actor staging_id)
  unfolding change_golden
  change_golden-Keeps current id [] actor staging_id = search keeps_rules
  change_golden-Keeps current id (v ∷ values) actor staging_id =
      search (keeps_rules, update_live-Keeps)

  update_found-Keeps :
      (id : String) (values : Dict Value) (fields : List String) (actor : String) (staging_id : ℕ)
      (o : Option LiveRow)
      → Keeps P (update_found pg id values fields actor staging_id o)
  unfolding update_found
  update_found-Keeps id values fields actor staging_id none = search keeps_rules
  update_found-Keeps id values fields actor staging_id (some current) =
      search (keeps_rules, write_history-Keeps, change_golden-Keeps)

  delete_found-Keeps :
      (soft : Bool) (id actor : String) (o : Option LiveRow)
      → Keeps P (delete_found pg soft id actor o)
  unfolding delete_found
  delete_found-Keeps soft id actor none = search keeps_rules
  delete_found-Keeps soft id actor (some current) =
      search (keeps_rules, write_history-Keeps, soft_delete_live-Keeps, hard_delete_live-Keeps)

  insert_or_update-Keeps :
      (row : StagingRow) (actor : String) (staging_id : ℕ) (o : Option String)
      → Keeps P (insert_or_update pg row actor staging_id o)
  unfolding insert_or_update apply_insert apply_update
  insert_or_update-Keeps row actor staging_id none = search (keeps_rules, insert_live-Keeps)
  insert_or_update-Keeps row actor staging_id (some id) =
      search (keeps_rules, insert_live-Keeps, select_by_id-Keeps, update_found-Keeps)

module _ {P : Tables → Type 0} (cfg : Settings) (pg : Postgres) (entity : Entity)
    (stable : GoldenStable P) where
  pub apply_change-Keeps :
      (actor : String) (staging_id : ℕ) (row : StagingRow)
      → Keeps P (apply_change cfg pg entity actor staging_id row)
  unfolding apply_change apply_delete
  apply_change-Keeps actor staging_id row = search (
    keeps_rules,
    select_by_id-Keeps,
    delete_found-Keeps pg stable,
    insert_or_update-Keeps pg stable,
  )
