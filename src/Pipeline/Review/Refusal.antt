-- ===== src/Pipeline/Review/Refusal.antt =====
-- What `apply_staging_to_live` refuses, and that it applies no row twice.
use open_mdm.Base.{
  some-injective, Bool-cases, inl, inr, if◌then◌else◌, ℕ, String, ◌≡◌, refl, ap, ◌∙◌, Bool, true,
  false, not, ◌&&◌, Option, none, some, List, find_first, find_first-update_where,
}
use open_mdm.Base.Results.{Result, ok, err}
use open_mdm.Models.{Entity}
use open_mdm.Pipeline.Review.{
  is_final, originator, is_originator, has_id, select_staging, as_reviewed, Reviewed, check_row,
  apply_row, sod_enforced, apply_staging_to_live,
}
use open_mdm.Pipeline.Review.Approval.{approval_checked}
use open_mdm.Settings.{Settings}
use open_mdm.Sql.{Exc, State, raise}
use open_mdm.Sql.Inversion.{bind-run, bind-err, guard-true, guard-false, statement-accepted}
use open_mdm.Tiers.{StagingStatus, StagingRow, Postgres}

-- Why an approval is refused, if it is: the policy, independent of the code's order of statements.
abbrev pub refusal : Bool → String → Option StagingRow → Option Exc
refusal sod actor none = some Exc.staging_not_found
refusal sod actor (some row) =
    if is_final row.status
    then some (Exc.already_final row.status)
    else if not row.is_valid
    then some Exc.validation_unresolved
    else if sod && is_originator (originator row) actor
    then some Exc.segregation_of_duties
    else none

module _ (cfg : Settings) (pg : Postgres) (entity : Entity) (id : ℕ) (actor : String)
    (roles : List String) (remark : Option String) (enforce_sod : Option Bool) (s : State) where
  abbrev approve_it : Result Exc Reviewed × State
  approve_it = apply_staging_to_live cfg pg entity id actor roles remark enforce_sod s

  select-run :
      s.aborted ≡ false
      → approve_it
        ≡ apply_row cfg pg entity
            (sod_enforced cfg pg entity enforce_sod)
            actor
            roles
            remark
            id
            (find_first (has_id id) s.tables.staging)
            s
  unfolding apply_staging_to_live select_staging
  select-run h = bind-run _ _ s s _ (statement-accepted (select_staging id) s _ s.tables h refl)

  module _ (row : StagingRow) (live : s.aborted ≡ false)
      (found : find_first (has_id id) s.tables.staging ≡ some row) where
    checks-err :
        (e : Exc)
        → check_row cfg pg entity (sod_enforced cfg pg entity enforce_sod) actor row s ≡ (err e, s)
        → approve_it ≡ (err e, s)
    unfolding apply_row
    checks-err e h =
        select-run live
        ∙ (ap
              (λ o.
                apply_row cfg pg entity (sod_enforced cfg pg entity enforce_sod) actor roles remark
                  id o s)
              found
            ∙ bind-err _ _ s s e h)

    refuse_final : is_final row.status ≡ true → approve_it ≡ (err (Exc.already_final row.status), s)
    unfolding check_row
    refuse_final h = checks-err _ (bind-err _ _ s s _ (guard-false _ _ s (ap not h)))

    refuse_invalid :
        is_final row.status ≡ false
        → row.is_valid ≡ false
        → approve_it ≡ (err Exc.validation_unresolved, s)
    unfolding check_row
    refuse_invalid h k = checks-err _ (
        bind-run _ _ s s tt (guard-true _ _ s (ap not h))
        ∙ bind-err _ _ s s _ (guard-false _ _ s k))

    refuse_originator :
        is_final row.status ≡ false
        → row.is_valid ≡ true
        → sod_enforced cfg pg entity enforce_sod && is_originator (originator row) actor ≡ true
        → approve_it ≡ (err Exc.segregation_of_duties, s)
    unfolding check_row
    refuse_originator h k o = checks-err _ (
        bind-run _ _ s s tt (guard-true _ _ s (ap not h))
        ∙ (bind-run _ _ s s tt (guard-true _ _ s k) ∙ guard-false _ _ s (ap not o)))

  refused :
      (o : Option StagingRow) (e : Exc)
      → s.aborted ≡ false
      → find_first (has_id id) s.tables.staging ≡ o
      → refusal (sod_enforced cfg pg entity enforce_sod) actor o ≡ some e
      → approve_it ≡ (err e, s)
  unfolding apply_row raise
  refused none e live found h =
      select-run live
      ∙ (ap
            (λ o.
              apply_row cfg pg entity (sod_enforced cfg pg entity enforce_sod) actor roles remark id
                o s)
            found
          ∙ ap (λ e. (err e, s)) (some-injective _ _ h))
  refused (some row) e live found h = elim (Bool-cases (is_final row.status)) [
    | inl final ↦
        refuse_final row live found final
        ∙ ap (λ e. (err e, s)) (some-injective _ _ (rw final at h))
    | inr pending ↦ elim (Bool-cases row.is_valid) [
      | inr invalid ↦
          refuse_invalid row live found pending invalid
          ∙ ap (λ e. (err e, s)) (some-injective _ _ (rw (pending, invalid) at h))
      | inl valid ↦
          elim (Bool-cases
            (sod_enforced cfg pg entity enforce_sod && is_originator (originator row) actor)) [
              | inl own ↦
                  refuse_originator row live found pending valid own
                  ∙ ap (λ e. (err e, s)) (some-injective _ _ (rw (pending, valid, own) at h))
              | inr apart ↦ absurd (cc (rw (pending, valid, apart) at h))
            ]
    ]
  ]

  -- On a live transaction, an approval that the policy refuses raises the policy's error and
  -- changes nothing. The policy refuses, in this order, a row that is missing, one that is applied
  -- or rejected, one that has validation errors, and, where segregation of duties is enforced, one
  -- whose last editor (its submitter, if nobody edited it) is the approver.
  pub approval_refused :
      (e : Exc)
      → s.aborted ≡ false
      → refusal
          (sod_enforced cfg pg entity enforce_sod)
          actor
          (find_first (has_id id) s.tables.staging)
        ≡ some e
      → apply_staging_to_live cfg pg entity id actor roles remark enforce_sod s ≡ (err e, s)
  approval_refused e live h = refused _ e live refl h

-- No row is applied twice: in the state that an approval of a row left, an approval of the same
-- row, by anyone and whatever the settings, is refused because it is applied, and changes
-- nothing.
pub approval_once :
    (cfg : Settings) (pg : Postgres) (entity : Entity) (id : ℕ) (first second : String)
    (roles more : List String) (remark again : Option String) (sod override : Option Bool)
    (s s' : State) (r : Reviewed)
    → apply_staging_to_live cfg pg entity id first roles remark sod s ≡ (ok r, s')
    → apply_staging_to_live cfg pg entity id second more again override s'
      ≡ (err (Exc.already_final StagingStatus.applied), s')
approval_once cfg pg entity id first second roles more remark again sod override s s' r h =
    let a = approval_checked cfg pg entity id first roles remark sod s s' r h in
    refuse_final cfg pg entity id second more again override s'
      (as_reviewed StagingStatus.applied first remark a.at_time a.row) a.running
      (ap (find_first (has_id id)) a.marked
        ∙ find_first-update_where (has_id id)
            (as_reviewed StagingStatus.applied first remark a.at_time) s.tables.staging a.row
            (λ row. refl) a.found)
      refl
