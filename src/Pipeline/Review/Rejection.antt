-- ===== src/Pipeline/Review/Rejection.antt =====
-- What `reject_staging` does, on both of its branches.
use open_mdm.Base.{
  ℕ, String, ◌≡◌, refl, ap, ◌∙◌, Bool, true, false, not, ◌&&◌, some, [], ◌∷◌, ◌++◌, List, any,
  update_where, update_where-none, if◌then◌else◌,
}
use open_mdm.Base.Results.{Result, ok, err}
use open_mdm.Models.{Entity}
use open_mdm.Pipeline.Review.{
  is_applied, has_id, as_reviewed, mark_rejected, reject_staging, staging_event,
}
use open_mdm.Python.{str}
use open_mdm.Sql.{Exc, State, add_audit}
use open_mdm.Sql.Inversion.{bind-run, bind-err, guard-true, guard-false, statement-accepted}
use open_mdm.Tiers.{StagingStatus, StagingRow}

-- The rows that a rejection of the id concerns.
abbrev pub rejectable : ℕ → StagingRow → Bool
rejectable id row = has_id id row && not (is_applied row.status)

module _ (entity : Entity) (id : ℕ) (shown actor : String) (roles : List String) (reason : String)
    (s : State) where
  -- The state once the rows are marked.
  abbrev pub after_rejection : State
  after_rejection = record s {
    tables = record s.tables {
      staging =
          update_where (rejectable id)
            (as_reviewed StagingStatus.rejected actor (some reason) s.now) s.tables.staging;
    };
  }

  rejected : Result Exc (Unit {0}) × State
  rejected = (
    ok tt,
    record after_rejection {
      audit =
          s.audit
          ++ staging_event entity actor roles "reject" shown "staging" (("reason", str reason) ∷ [])
            ∷ [];
    },
  )

  rejection-run :
      (found : Bool)
      → s.aborted ≡ false
      → any (rejectable id) s.tables.staging ≡ found
      → reject_staging entity id shown actor roles reason s
        ≡ (if found then rejected else (err Exc.not_found_or_applied, s))
  unfolding rejected reject_staging mark_rejected add_audit
  rejection-run true live h =
      bind-run _ _ s after_rejection true (
        statement-accepted (mark_rejected id actor (some reason)) s true _ live
          (ap (λ (b : Bool). ok (b, after_rejection.tables)) h))
      ∙ bind-run _ _ after_rejection after_rejection tt (guard-true true _ after_rejection refl)
  rejection-run false live h =
      let same : after_rejection ≡ s =
        ap (λ rows. record s { tables = record s.tables { staging = rows } })
          (update_where-none (rejectable id)
            (as_reviewed StagingStatus.rejected actor (some reason) s.now) s.tables.staging h) in
      bind-run _ _ s after_rejection false (
        statement-accepted (mark_rejected id actor (some reason)) s false _ live
          (ap (λ (b : Bool). ok (b, after_rejection.tables)) h))
      ∙ (bind-err _ _ after_rejection after_rejection _ (guard-false false _ after_rejection refl)
          ∙ ap (λ x. (err Exc.not_found_or_applied, x)) same)

  -- A rejection, on a live transaction, decides by whether the id has a row that is not applied. If
  -- so, it marks such rows rejected with the reason as the remark, records the reason in the audit
  -- trail, and changes nothing else; if not, it raises and changes nothing.
  pub rejection_decides :
      s.aborted ≡ false
      → reject_staging entity id shown actor roles reason s ≡ (
          if any (rejectable id) s.tables.staging
          then (
            ok tt,
            record after_rejection {
              audit =
                  s.audit
                  ++ staging_event entity actor roles "reject" shown "staging"
                      (("reason", str reason) ∷ [])
                    ∷ [];
            },
          )
          else (err Exc.not_found_or_applied, s))
  unfolding rejected
  rejection_decides live = rejection-run (any (rejectable id) s.tables.staging) live refl
