-- ===== src/Pipeline/Promotion/Changes.antt =====
-- The only changes that a promotion makes: it marks landing rows and appends staged rows. Whatever
-- these two keep, `promote_landing_to_staging` keeps, on every path.
use open_mdm.Base.{Option, ℕ, suc, String, List, [], ◌∷◌, ◌++◌, update_where, eqb}
use open_mdm.Base.Results.{Result, ok, err}
use open_mdm.Models.{Entity}
use open_mdm.Pipeline.Promotion.{
  Tally, select_pending, as_marked, mark_landing, staging_row, insert_staging, stage, validated,
  promote_row, promote_rows, promote_landing_to_staging,
}
use open_mdm.Pipeline.Promotion.Target.{Resolved}
use open_mdm.Pipeline.Promotion.Target.Reads.{read-same, resolve_target-Keeps}
use open_mdm.Python.{Python}
use open_mdm.Sql.{Exc, statement}
use open_mdm.Sql.Keeps.{Keeps, accept-same, Keeps-statement, keeps_rules}
use open_mdm.Tiers.{LandingStatus, LandingRow, StagingRow, Tables, Postgres}
use open_mdm.Validation.Constraints.{Failure}
use open_mdm.Validation.Record.{Outcome}

abbrev pub marked : LandingStatus → Option Exc → ℕ → ℕ → Tables → Tables
marked status raised_by id now t = record t {
  landing = update_where (λ row. eqb row.id id) (as_marked status raised_by now) t.landing;
}

abbrev pub with_staged : StagingRow → Tables → Tables
with_staged row t = record t { staging = t.staging ++ row ∷ []; next_staging = suc t.next_staging }

-- What a promotion needs of a property of the tables.
pub record Stable (pg : Postgres) (py : Python) (entity : Entity) (P : Tables → Type 0)
    : Type 0 where
  pub mark :
      (status : LandingStatus) (raised_by : Option Exc) (id now : ℕ) (t : Tables)
      → P t
      → P (marked status raised_by id now t)
  pub add :
      (batch_id : String) (r : LandingRow) (o : Outcome) (found : Resolved) (t : Tables)
      → P t
      → P (with_staged (staging_row pg py entity batch_id r o found t.next_staging) t)

module _ (pg : Postgres) (py : Python) (entity : Entity) {P : Tables → Type 0}
    (stable : Stable pg py entity P) (batch_id : String) where
  mark_landing-Keeps :
      (status : LandingStatus) (raised_by : Option Exc) (id : ℕ)
      → Keeps P (statement (mark_landing status raised_by id))
  unfolding mark_landing
  mark_landing-Keeps status raised_by id =
      Keeps-statement (mark_landing status raised_by id)
        (λ n t a t' h p. read-same P h (stable.mark status raised_by id n t p))

  insert_staging-Keeps :
      (r : LandingRow) (o : Outcome) (found : Resolved)
      → Keeps P (statement (insert_staging pg py entity batch_id r o found))
  unfolding insert_staging
  insert_staging-Keeps r o found =
      Keeps-statement (insert_staging pg py entity batch_id r o found) (λ n t a t' h p.
        accept-same P _ _ a
          (with_staged (staging_row pg py entity batch_id r o found t.next_staging) t) t' h
          (stable.add batch_id r o found t p))

  stage-Keeps :
      (r : LandingRow) (o : Outcome) (found : Resolved)
      → Keeps P (stage pg py entity batch_id r o found)
  unfolding stage
  stage-Keeps r o found = search (keeps_rules, insert_staging-Keeps, mark_landing-Keeps)

  validated-Keeps :
      (r : LandingRow) (v : Result Failure Outcome) → Keeps P (validated pg py entity batch_id r v)
  unfolding validated
  validated-Keeps r (err f) = search keeps_rules
  validated-Keeps r (ok o) = search (keeps_rules, stage-Keeps, resolve_target-Keeps)

  promote_row-Keeps : (r : LandingRow) → Keeps P (promote_row pg py entity batch_id r)
  unfolding promote_row
  promote_row-Keeps r = search (keeps_rules, validated-Keeps, mark_landing-Keeps)

  promote_rows-Keeps :
      (rows : List LandingRow) (t : Tally) → Keeps P (promote_rows pg py entity batch_id rows t)
  unfolding promote_rows
  promote_rows-Keeps [] t = search keeps_rules
  promote_rows-Keeps (r ∷ rows) t =
      search (keeps_rules, promote_row-Keeps r, promote_rows-Keeps rows)

  select_pending-Keeps : (ids : List ℕ) (limit : ℕ) → Keeps P (statement (select_pending ids limit))
  unfolding select_pending
  select_pending-Keeps ids limit =
      Keeps-statement (select_pending ids limit) (λ n t a t' h p. read-same P h p)

  pub promote-Keeps :
      (ids : List ℕ) (limit : ℕ) (actor : String)
      → Keeps P (promote_landing_to_staging pg py entity batch_id ids limit actor)
  unfolding promote_landing_to_staging
  promote-Keeps ids limit actor = search (keeps_rules, promote_rows-Keeps, select_pending-Keeps)
