-- ===== src/Pipeline/Review/Editing.antt =====
-- What `edit_staging` checks, and what it makes of the staged row.
use open_mdm.Base.{
  ℕ, String, ◌≡◌, refl, sym, ap, ◌∙◌, true, false, Option, none, some, List, ◌++◌, keep, not, Dict,
  all, member, find_first, update, update_where, keys, is_empty,
}
use open_mdm.Base.Results.{Result, ok, err, ok-injective}
use open_mdm.Models.{Entity}
use open_mdm.Pipeline.Promotion.{attr_names, is_partial}
use open_mdm.Pipeline.Review.{
  is_applied, has_id, attribute_values, as_edited, update_staging, Edited, edit_validated, edit_row,
  edit_staging,
}
use open_mdm.Pipeline.Review.Approval.{select_staging-ok, not-true}
use open_mdm.Python.{Python, Value}
use open_mdm.Sql.{Exc, State, add_audit, pure, raise}
use open_mdm.Sql.Inversion.{bind-ok, guard-ok, statement-ok}
use open_mdm.Sql.Keeps.{accept-ok}
use open_mdm.Tiers.{StagingStatus, StagingRow, Tables, Postgres}
use open_mdm.Validation.Constraints.{Failure}
use open_mdm.Validation.MatchKey.{build_match_key}
use open_mdm.Validation.Record.{Outcome, validate_record}

-- The row's business columns with the updates written over them.
abbrev pub merged : Entity → StagingRow → Dict Value → Dict Value
merged entity row updates = update (attribute_values (attr_names entity) row.values) updates

module _ (pg : Postgres) (py : Python) (entity : Entity) (updates : Dict Value)
    (actor : String) where
  -- What the code checked of a row that it edited, and what it left of the staged rows, field by
  -- field.
  pub record Revised (id : ℕ) (s s' : State) (r : Edited pg py entity) : Type 0 where
    pub row : StagingRow
    pub outcome : Outcome
    pub found : find_first (has_id id) s.tables.staging ≡ some row
    pub not_applied : is_applied row.status ≡ false
    pub known_fields : all (λ k. member k (attr_names entity)) (keys updates) ≡ true
    pub revalidated :
        validate_record py (merged entity row updates) entity (is_partial row.operation)
        ≡ ok outcome
    pub verdict : r.is_valid ≡ is_empty outcome.errors
    pub at_time : ℕ
    pub rewritten :
        s'.tables.staging
        ≡ update_where
            (has_id row.id)
            (λ (x : StagingRow). record {
              id = x.id;
              landing_id = x.landing_id;
              operation = x.operation;
              target_id = x.target_id;
              match_key = build_match_key py outcome.values entity;
              source_system = x.source_system;
              batch_id = x.batch_id;
              status = StagingStatus.pending_review;
              errors = outcome.errors;
              is_valid = is_empty outcome.errors;
              change_type = x.change_type;
              submitted_by = x.submitted_by;
              edited_by = some actor;
              edited_at = some at_time;
              reviewed_by = x.reviewed_by;
              reviewed_at = x.reviewed_at;
              review_note = x.review_note;
              supplied_fields =
                  x.supplied_fields ++ keep (λ k. not (member k x.supplied_fields)) (keys updates);
              values = update x.values outcome.values;
            })
            s.tables.staging

  module _ (id : ℕ) (roles : List String) (shown : String) (s s' : State)
      (r : Edited pg py entity) where
    edit_validated-ok :
        (row : StagingRow) (v : Result Failure Outcome)
        → edit_validated pg py entity row updates actor roles shown v s ≡ (ok r, s')
        → (o : Outcome) × (v ≡ ok o)
          × (r.is_valid ≡ is_empty o.errors)
          × (n : ℕ) × (s'.tables.staging
              ≡ update_where
                  (has_id row.id)
                  (as_edited pg py entity o (keys updates) actor n)
                  s.tables.staging)
    unfolding edit_validated update_staging add_audit pure raise
    edit_validated-ok row (err f) h = absurd (cc)
    edit_validated-ok row (ok o) h =
        let (u1, s1, h1, k1) = bind-ok _ _ s s' h in
        let (u2, s2, h2, k2) = bind-ok _ _ s1 s' k1 in
        let (t, live, run, same) = statement-ok _ s s1 h1 in
        let (fits, tables) = accept-ok _ _ _ _ t run in
        let last : s1.tables.staging ≡ s'.tables.staging =
          ap (λ (r : Result Exc (Unit {0}) × State). r.1.tables.staging) h2
          ∙ ap (λ (r : Result Exc (Edited pg py entity) × State). r.1.tables.staging) k2 in
        (
          o,
          refl,
          sym (
              ap (λ (x : Edited pg py entity). x.is_valid)
                (ok-injective (ap (λ (r : Result Exc (Edited pg py entity) × State). r.0) k2))),
          s.now,
          sym (
              ap (λ (t : Tables). t.staging) tables
              ∙ (ap (λ (x : State). x.tables.staging) same ∙ last)),
        )

    edit_row-Revised :
        (o : Option StagingRow)
        → find_first (has_id id) s.tables.staging ≡ o
        → edit_row pg py entity updates actor roles shown o s ≡ (ok r, s')
        → Revised id s s' r
    unfolding edit_row raise
    edit_row-Revised none f h = absurd (cc)
    edit_row-Revised (some row) f h =
        let (u1, s1, h1, k1) = bind-ok _ _ s s' h in
        let (pending, e1) = guard-ok _ _ s s1 h1 in
        let (u2, s2, h2, k2) = bind-ok _ _ s1 s' k1 in
        let (known, e2) = guard-ok _ _ s1 s2 h2 in
        let v = validate_record py (merged entity row updates) entity (is_partial row.operation) in
        let back =
          ap (edit_validated pg py entity row updates actor roles shown v) (e1 ∙ e2) ∙ k2 in
        let (o, valid, verdict, n, rewritten) = edit_validated-ok row v back in
        record {
          row = row;
          outcome = o;
          found = f;
          not_applied = not-true _ pending;
          known_fields = known;
          revalidated = valid;
          verdict = verdict;
          at_time = n;
          rewritten = rewritten;
        }

  -- An edit that returns has found a row that is not applied, and changes only attributes of the
  -- entity. The row is validated again as a whole, with the updates over its values, and is
  -- rewritten with the outcome: its errors are exactly those of this validation, whatever was
  -- recorded before; it is pending review again, whatever its status was, with its editor, its new
  -- match key and the edited fields among the supplied ones; nothing else of it changes, and no other
  -- staged row.
  pub edit_staging-Revised :
      (id : ℕ) (roles : List String) (shown : String) (s s' : State) (r : Edited pg py entity)
      → edit_staging pg py entity id updates actor roles shown s ≡ (ok r, s')
      → Revised id s s' r
  unfolding edit_staging
  edit_staging-Revised id roles shown s s' r h =
      let (o, s1, h1, k1) = bind-ok _ _ s s' h in
      let (found, same) = select_staging-ok id s s1 h1 in
      edit_row-Revised id roles shown s s' r o found
        (ap (edit_row pg py entity updates actor roles shown o) same ∙ k1)
