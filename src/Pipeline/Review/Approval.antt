-- ===== src/Pipeline/Review/Approval.antt =====
-- What `apply_staging_to_live` checks before it applies a row, and what it leaves of the row.
use open_mdm.Base.{
  ℕ, String, ◌≡◌, refl, sym, ap, ◌∙◌, Bool, true, false, not, ◌&&◌, Option, none, some, List,
  find_first, update_where,
}
use open_mdm.Base.Results.{Result, ok, err}
use open_mdm.Models.{Entity, AuditEvent}
use open_mdm.Pipeline.Review.{
  business_row, is_final, originator, is_originator, has_id, select_staging, as_reviewed,
  mark_applied, Reviewed, check_row, apply_row, sod_enforced, apply_staging_to_live,
}
use open_mdm.Pipeline.Review.Golden.{Applied, apply_change}
use open_mdm.Pipeline.Review.Golden.Changes.{apply_change-Keeps}
use open_mdm.Pipeline.Promotion.Target.Reads.{read-same}
use open_mdm.Settings.{Settings}
use open_mdm.Sql.{Exc, State, statement, ◌>>◌, add_audit, pure, raise}
use open_mdm.Sql.Inversion.{bind-ok, guard-ok, statement-ok}
use open_mdm.Tiers.{StagingStatus, StagingRow, Tables, Postgres}

pub not-true : (b : Bool) → not b ≡ true → b ≡ false
not-true true h = absurd (cc)
not-true false h = refl

pub select_staging-ok :
    (id : ℕ) (s s' : State) {o : Option StagingRow}
    → statement (select_staging id) s ≡ (ok o, s')
    → (find_first (has_id id) s.tables.staging ≡ o) × (s ≡ s')
unfolding select_staging
select_staging-ok id s s' h =
    let (t, live, run, same) = statement-ok _ s s' h in
    (
      ap (row_of (find_first (has_id id) s.tables.staging)) run,
      read-same (λ t. s ≡ record s { tables = t }) run refl ∙ same,
    )
  where
    row_of : Option StagingRow → Result Exc (Option StagingRow × Tables) → Option StagingRow
    row_of o (ok (x, t)) = x
    row_of o (err e) = o

module _ (cfg : Settings) (pg : Postgres) (entity : Entity) where
  check_row-ok :
      (sod : Bool) (actor : String) (row : StagingRow) (s s' : State) {u : Unit {0}}
      → check_row cfg pg entity sod actor row s ≡ (ok u, s')
      → (is_final row.status ≡ false)
        × (row.is_valid ≡ true)
        × (sod && is_originator (originator row) actor ≡ false)
        × (s ≡ s')
  unfolding check_row
  check_row-ok sod actor row s s' h =
      let (u1, s1, h1, k1) = bind-ok _ _ s s' h in
      let (a1, e1) = guard-ok _ _ s s1 h1 in
      let (u2, s2, h2, k2) = bind-ok _ _ s1 s' k1 in
      let (a2, e2) = guard-ok _ _ s1 s2 h2 in
      let (a3, e3) = guard-ok _ _ s2 s' k2 in (not-true _ a1, a2, not-true _ a3, e1 ∙ (e2 ∙ e3))

  -- `apply_change` leaves the staged rows alone.
  change-staging :
      (actor : String) (id : ℕ) (row : StagingRow) (s s' : State) {result : Applied}
      → apply_change cfg pg entity actor id row s ≡ (ok result, s')
      → s'.tables.staging ≡ s.tables.staging
  change-staging actor id row s s' h =
      ap (λ (r : Result Exc Applied × State). r.1.tables.staging) (sym h)
      ∙ (apply_change-Keeps {P = λ t. t.staging ≡ s.tables.staging} cfg pg entity
            (record {
              insert = λ golden t k p. p;
              change = λ id change t same bump p. p;
              remove = λ id t p. p;
              history = λ row t p. p;
            })
            actor id row).at
          s refl

  -- What the code checked of a row that it applied, and what it left of the staged rows.
  pub record Approved (sod : Bool) (actor : String) (remark : Option String) (id : ℕ) (s s' : State)
      : Type 0 where
    pub row : StagingRow
    pub found : find_first (has_id id) s.tables.staging ≡ some row
    pub not_final : is_final row.status ≡ false
    pub is_valid : row.is_valid ≡ true
    pub separate : sod && is_originator (originator row) actor ≡ false
    pub at_time : ℕ
    pub marked :
        s'.tables.staging
        ≡ update_where
            (has_id id)
            (as_reviewed StagingStatus.applied actor remark at_time)
            s.tables.staging
    pub running : s'.aborted ≡ false

  tail-ok :
      (actor : String) (remark : Option String) (id : ℕ) (s s' : State) (event : AuditEvent)
      (r : Reviewed) {r' : Reviewed}
      → (statement (mark_applied id actor remark) >> (add_audit event >> pure r)) s ≡ (ok r', s')
      → (n : ℕ) × (s'.tables.staging
          ≡ update_where
              (has_id id)
              (as_reviewed StagingStatus.applied actor remark n)
              s.tables.staging)
        × (s'.aborted ≡ false)
  unfolding mark_applied add_audit pure
  tail-ok actor remark id s s' event r h =
      let (u1, s1, h1, k1) = bind-ok _ _ s s' h in
      let (u2, s2, h2, k2) = bind-ok _ _ s1 s' k1 in
      let (t, live, run, same) = statement-ok _ s s1 h1 in
      let last : s1 ≡ record s' { audit = s1.audit } =
        ap (λ (r : Result Exc (Unit {0}) × State). record r.1 { audit = s1.audit }) h2
        ∙ ap (λ (r : Result Exc Reviewed × State). record r.1 { audit = s1.audit }) k2 in
      let whole = same ∙ last in
      (
        s.now,
        sym (ap (λ (x : State). x.tables.staging) whole)
            ∙ read-same
                (λ t.
                  t.staging
                  ≡ update_where (has_id id) (as_reviewed StagingStatus.applied actor remark s.now)
                      s.tables.staging)
                run refl,
        sym (ap (λ (x : State). x.aborted) whole) ∙ live,
      )

  apply_row-ok :
      (sod : Bool) (actor : String) (roles : List String) (remark : Option String) (id : ℕ)
      (o : Option StagingRow) (s s' : State) {r : Reviewed}
      → find_first (has_id id) s.tables.staging ≡ o
      → apply_row cfg pg entity sod actor roles remark id o s ≡ (ok r, s')
      → Approved sod actor remark id s s'
  unfolding apply_row raise
  apply_row-ok sod actor roles remark id none s s' f h = absurd (cc)
  apply_row-ok sod actor roles remark id (some row) s s' f h =
      let (u1, s1, h1, k1) = bind-ok _ _ s s' h in
      let (pending, valid, apart, same) = check_row-ok sod actor row s s1 h1 in
      let (result, s2, h2, k2) = bind-ok _ _ s1 s' k1 in
      let (n, marked, running) = tail-ok actor remark id s2 s' _ _ k2 in
      record {
        row = row;
        found = f;
        not_final = pending;
        is_valid = valid;
        separate = apart;
        at_time = n;
        marked =
            marked
            ∙ ap (update_where (has_id id) (as_reviewed StagingStatus.applied actor remark n)) (
                change-staging actor id (business_row entity row) s1 s2 h2
                ∙ ap (λ (x : State). x.tables.staging) (sym same));
        running = running;
      }

  -- A staged row is applied only if it exists, is neither applied nor rejected, has no
  -- validation error, and, where segregation of duties is enforced, was not last edited by the
  -- approver nor, if nobody edited it, submitted by the approver. The staged rows with its id
  -- are then marked applied with the approver and the remark, every other staged row is as it
  -- was, and the transaction is not aborted.
  pub approval_checked :
      (id : ℕ) (actor : String) (roles : List String) (remark : Option String)
      (enforce_sod : Option Bool) (s s' : State) (r : Reviewed)
      → apply_staging_to_live cfg pg entity id actor roles remark enforce_sod s ≡ (ok r, s')
      → Approved (sod_enforced cfg pg entity enforce_sod) actor remark id s s'
  unfolding apply_staging_to_live
  approval_checked id actor roles remark enforce_sod s s' r h =
      let (o, s1, h1, k1) = bind-ok _ _ s s' h in
      let (found, same) = select_staging-ok id s s1 h1 in
      apply_row-ok (sod_enforced cfg pg entity enforce_sod) actor roles remark id o s s' found (
        ap
          (apply_row cfg pg entity (sod_enforced cfg pg entity enforce_sod) actor roles remark id o)
          same
        ∙ k1)
