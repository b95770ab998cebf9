-- ===== src/System/Batches.antt =====
-- app/api/v1/stewardship.py: `bulk_approve` and `bulk_reject`. Each row has a transaction of its own. The
-- results stand by the ids of their rows. The check of the caller is in Auth/Access.
use open_mdm.Base.{
  ℕ, String, Bool, true, false, ◌≡◌, refl, subst, Option, none, some, List, [], ◌∷◌, map,
  Bool-cases, inl, inr, if◌then◌else◌,
}
use open_mdm.Base.Results.{Result, ok, err, ok-injective}
use open_mdm.Base.Text.{is_empty_text}
use open_mdm.Models.{Entity, User}
use open_mdm.Python.{Python}
use open_mdm.Settings.{Settings}
use open_mdm.Sql.{Exc, sql_error, transaction_aborted, raised, State, M}
use open_mdm.System.{Event, approve, reject, transaction, run_all}
use open_mdm.Tiers.{Postgres}

pub record BulkReview : Type 0 where
  pub staging_ids : List ℕ
  pub note : Option String

pub record Reviewed : Type 0 where
  pub done : List ℕ
  pub failed : List (ℕ × Exc)

-- A PipelineError; SegregationOfDutiesError is one. Others are not caught.
abbrev pub is_pipeline_error : Exc → Bool
is_pipeline_error sql_error = false
is_pipeline_error transaction_aborted = false
is_pipeline_error (raised failure) = false
is_pipeline_error _ = true

abbrev pub add_done : ℕ → Result Exc Reviewed → Result Exc Reviewed
add_done id (ok r) = ok (record r { done = id ∷ r.done })
add_done id (err e) = err e

abbrev pub add_failed : ℕ → Exc → Result Exc Reviewed → Result Exc Reviewed
add_failed id e (ok r) = ok (record r { failed = (id, e) ∷ r.failed })
add_failed id e (err x) = err x

-- The result of a row, and that of the rows after it.
abbrev pub noted :
    ℕ → Result Exc (Unit {0}) → State → Result Exc Reviewed × State → Result Exc Reviewed × State
noted id (ok u) s rest = (add_done id rest.0, rest.1)
noted id (err e) s rest =
    if is_pipeline_error e then (add_failed id e rest.0, rest.1) else (err e, s)

unfoldable pub each_row : (ℕ → M (Unit {0})) → List ℕ → M Reviewed
each_row review [] s = (ok (record { done = []; failed = [] }), s)
each_row review (id ∷ ids) s =
    let after = (review id s).1 in noted id (review id s).0 after (each_row review ids after)

-- `payload.note or "Bulk rejected"`
abbrev pub reason_of : Option String → String
reason_of none = "Bulk rejected"
reason_of (some note) = if is_empty_text note then "Bulk rejected" else note

module _ (cfg : Settings) (pg : Postgres) (py : Python) (entity : Entity) (p : BulkReview)
    (principal : User) where
  abbrev pub approval : ℕ → Event
  approval id = approve id principal.username principal.roles p.note none

  unfoldable pub bulk_approve : M Reviewed
  unfolding each_row
  bulk_approve = each_row (λ id. transaction cfg pg py entity (approval id)) p.staging_ids

  -- The id as the message shows it.
  abbrev pub rejection : (ℕ → String) → ℕ → Event
  rejection shown id = reject id (shown id) principal.username principal.roles (reason_of p.note)

  unfoldable pub bulk_reject : (ℕ → String) → M Reviewed
  unfolding each_row
  bulk_reject shown =
      each_row (λ id. transaction cfg pg py entity (rejection shown id)) p.staging_ids

module _ (cfg : Settings) (pg : Postgres) (py : Python) (entity : Entity) (event : ℕ → Event) where
  -- What the transactions of rows, one after another, report and leave: a row whose transaction
  -- returns is among those done, one whose transaction raises a PipelineError among those that
  -- failed, with that error, each in its turn.
  pub data Reports : List ℕ → State → List ℕ → List (ℕ × Exc) → State → Type 0 where
    finished : (s : State) → Reports [] s [] [] s
    succeeds :
        (id : ℕ) (ids done : List ℕ) (failed : List (ℕ × Exc)) (s s' : State)
        → (transaction cfg pg py entity (event id) s).0 ≡ ok tt
        → Reports ids (transaction cfg pg py entity (event id) s).1 done failed s'
        → Reports (id ∷ ids) s (id ∷ done) failed s'
    fails :
        (id : ℕ) (e : Exc) (ids done : List ℕ) (failed : List (ℕ × Exc)) (s s' : State)
        → (transaction cfg pg py entity (event id) s).0 ≡ err e
        → is_pipeline_error e ≡ true
        → Reports ids (transaction cfg pg py entity (event id) s).1 done failed s'
        → Reports (id ∷ ids) s done ((id, e) ∷ failed) s'

  -- A row leaves the state to the rows after it, and adds itself to their report.
  noted-Reports :
      (id : ℕ) (ids : List ℕ) (s : State) (res : Result Exc (Unit {0}))
      (rest : Result Exc Reviewed × State) (r : Reviewed)
      → (transaction cfg pg py entity (event id) s).0 ≡ res
      → ((r0 : Reviewed)
          → rest.0 ≡ ok r0
          → Reports ids (transaction cfg pg py entity (event id) s).1 r0.done r0.failed rest.1)
      → (noted id res (transaction cfg pg py entity (event id) s).1 rest).0 ≡ ok r
      → Reports
          (id ∷ ids)
          s
          r.done
          r.failed
          (noted id res (transaction cfg pg py entity (event id) s).1 rest).1
  noted-Reports id ids s (ok u) (ok r0, s') r e more h =
      subst (λ (x : Reviewed). Reports (id ∷ ids) s x.done x.failed s') (ok-injective h)
        (succeeds id ids r0.done r0.failed s s' e (more r0 refl))
  noted-Reports id ids s (ok u) (err x, s') r e more h = absurd (cc)
  noted-Reports id ids s (err x) (ok r0, s') r e more h = elim (Bool-cases (is_pipeline_error x)) [
    | inl t ↦ rw t (
        subst (λ (y : Reviewed). Reports (id ∷ ids) s y.done y.failed s') (ok-injective (rw t at h))
          (fails id x ids r0.done r0.failed s s' e t (more r0 refl)))
    | inr f ↦ absurd (cc (rw f at h))
  ]
  noted-Reports id ids s (err x) (err y, s') r e more h = elim (Bool-cases (is_pipeline_error x)) [
    | inl t ↦ absurd (cc (rw t at h))
    | inr f ↦ absurd (cc (rw f at h))
  ]

  each_row-Reports :
      (ids : List ℕ) (s : State) (r : Reviewed)
      → (each_row (λ id. transaction cfg pg py entity (event id)) ids s).0 ≡ ok r
      → Reports ids s r.done r.failed
          (each_row (λ id. transaction cfg pg py entity (event id)) ids s).1
  unfolding each_row
  each_row-Reports [] s r h =
      subst (λ (x : Reviewed). Reports [] s x.done x.failed s) (ok-injective h) (finished s)
  each_row-Reports (id ∷ ids) s r h =
      noted-Reports id ids s (transaction cfg pg py entity (event id) s).0 _ r refl
        (each_row-Reports ids (transaction cfg pg py entity (event id) s).1) h

  Reports-run_all :
      {ids done : List ℕ} {failed : List (ℕ × Exc)} {s s' : State}
      → Reports ids s done failed s'
      → s' ≡ run_all cfg pg py entity (map event ids) s
  unfolding run_all
  Reports-run_all (finished s) = refl
  Reports-run_all (succeeds id ids done failed s s' e more) = Reports-run_all more
  Reports-run_all (fails id e ids done failed s s' h t more) = Reports-run_all more

module _ (cfg : Settings) (pg : Postgres) (py : Python) (entity : Entity) where
  -- A bulk approval that returns is the approvals of its rows one after another, each in its own
  -- transaction, so what holds after every sequence of transactions holds after it; and it
  -- reports each row once: as done if its approval returned, and with its error if that raised one.
  pub bulk_approve-run_all :
      (p : BulkReview) (principal : User) (s : State) (r : Reviewed)
      → (bulk_approve cfg pg py entity p principal s).0 ≡ ok r
      → ((bulk_approve cfg pg py entity p principal s).1
          ≡ run_all cfg pg py entity
              (map (λ id. approve id principal.username principal.roles p.note none) p.staging_ids)
              s)
        × Reports cfg pg py entity
            (λ id. approve id principal.username principal.roles p.note none)
            p.staging_ids
            s
            r.done
            r.failed
            (bulk_approve cfg pg py entity p principal s).1
  unfolding bulk_approve
  bulk_approve-run_all p principal s r h =
      let reports =
        each_row-Reports cfg pg py entity (approval cfg pg py entity p principal) p.staging_ids s r
          h in
      (Reports-run_all cfg pg py entity (approval cfg pg py entity p principal) reports, reports)
