-- ===== src/System/Staging.antt =====
-- The staged rows under every sequence of transactions.
use open_mdm.Base.{
  some-injective, ℕ, suc, ◌<◌, ◌≤◌, arith, String, ◌≡◌, refl, sym, ap, subst, ◌∙◌, Bool, true,
  false, Option, some, List, [], ◌∷◌, ◌++◌, All, All-append, All-update_where, any, eqb, any-add,
  any-update_where, find_first, update_where, is_empty, Bool-cases, inl, inr, if◌then◌else◌,
}
use open_mdm.Base.Results.{ok}
use open_mdm.Models.{Entity}
use open_mdm.Pipeline.Promotion.{staging_row}
use open_mdm.Pipeline.Review.{has_id, as_reviewed, as_edited, Reviewed, apply_staging_to_live}
use open_mdm.Pipeline.Review.Approval.{approval_checked}
use open_mdm.Pipeline.Review.Golden.Changes.{GoldenStable}
use open_mdm.Python.{Python}
use open_mdm.Settings.{Settings}
use open_mdm.Sql.{State}
use open_mdm.System.{Event, run_all}
use open_mdm.System.Steps.{run_all-keeps}
use open_mdm.Tiers.{StagingRow, Postgres}

-- A row is valid exactly if no error is recorded.
abbrev pub Judged : StagingRow → Type 0
Judged row = row.is_valid ≡ is_empty row.errors

-- Every id once, and below the next value of the sequence.
abbrev pub Numbered : ℕ → List StagingRow → Type 0
Numbered next [] = Unit
Numbered next (row ∷ rows) =
    (row.id < next) × (any (has_id row.id) rows ≡ false) × Numbered next rows

Numbered-later :
    (next later : ℕ) (rows : List StagingRow)
    → next ≤ later
    → Numbered next rows
    → Numbered later rows
Numbered-later next later [] h n = n
Numbered-later next later (row ∷ rows) h n =
    (omega (arith, n.0), n.1, Numbered-later next later rows h n.2)

eqb-less : (a b : ℕ) → a < b → eqb b a ≡ false
eqb-less a b h = ground arith

Numbered-add :
    (next : ℕ) (rows : List StagingRow) (new : StagingRow)
    → new.id ≡ next
    → Numbered next rows
    → Numbered (suc next) (rows ++ new ∷ [])
Numbered-add next [] new e n = (omega (arith, e), refl, tt)
Numbered-add next (row ∷ rows) new e n = (
  omega (arith, n.0),
  any-add (has_id row.id) rows new n.1 (rw e (eqb-less row.id next n.0)),
  Numbered-add next rows new e n.2,
)

module _ (f : StagingRow → StagingRow) (same : (row : StagingRow) → (f row).id ≡ row.id) where
  if_same : (b : Bool) (row : StagingRow) → (if b then f row else row).id ≡ row.id
  if_same true row = same row
  if_same false row = refl

  Numbered-update_where :
      (next : ℕ) (p : StagingRow → Bool) (rows : List StagingRow)
      → Numbered next rows
      → Numbered next (update_where p f rows)
  Numbered-update_where next p [] n = n
  Numbered-update_where next p (row ∷ rows) n = (
    subst (λ id. id < next) (sym (if_same (p row) row)) n.0,
    rw (if_same (p row) row)
        (any-update_where (has_id row.id) p f (λ x. ap (λ id. eqb id row.id) (same x)) rows ∙ n.1),
    Numbered-update_where next p rows n.2,
  )

module _ (cfg : Settings) (pg : Postgres) (py : Python) (entity : Entity) where
  StagingOnly : (P : ℕ → List StagingRow → Type 0) → GoldenStable (λ t. P t.next_staging t.staging)
  StagingOnly P = record {
    insert = λ golden t k p. p;
    change = λ id change t same bump p. p;
    remove = λ id t p. p;
    history = λ row t p. p;
  }

  -- Staged rows keep unique ids, all below the sequence's next value, through every sequence of
  -- transactions, rolled back ones included.
  pub staging_ids_stay_unique :
      (events : List Event) (s : State)
      → Numbered s.tables.next_staging s.tables.staging
      → Numbered
          (run_all cfg pg py entity events s).tables.next_staging
          (run_all cfg pg py entity events s).tables.staging
  staging_ids_stay_unique =
      run_all-keeps pg py entity cfg {P = λ t. Numbered t.next_staging t.staging}
        (record {
          sequenced = λ t l s hl hs p. Numbered-later t.next_staging s t.staging hs p;
          landing = record { add = λ op req now t free p. p };
          promotion = record {
            mark = λ status raised_by id now t p. p;
            add = λ batch_id r o found t p.
                Numbered-add t.next_staging t.staging
                  (staging_row pg py entity batch_id r o found t.next_staging) refl p;
          };
          staging = record {
            review = λ test status actor remark now t p.
                Numbered-update_where (as_reviewed status actor remark now) (λ row. refl)
                  t.next_staging test t.staging p;
            edit = λ pg py entity id o fields actor now t p.
                Numbered-update_where (as_edited pg py entity o fields actor now) (λ row. refl)
                  t.next_staging (has_id id) t.staging p;
          };
        })
        (StagingOnly Numbered)

  -- The recorded verdict is never stale: through every sequence of transactions each staged row
  -- stays marked valid exactly if its list of errors is empty.
  pub run_all-Judged :
      (events : List Event) (s : State)
      → All Judged s.tables.staging
      → All Judged (run_all cfg pg py entity events s).tables.staging
  run_all-Judged =
      run_all-keeps pg py entity cfg {P = λ t. All Judged t.staging}
        (record {
          sequenced = λ t l s hl hs p. p;
          landing = record { add = λ op req now t free p. p };
          promotion = record {
            mark = λ status raised_by id now t p. p;
            add = λ batch_id r o found t p.
                All-append Judged t.staging
                  (staging_row pg py entity batch_id r o found t.next_staging ∷ []) p (refl, tt);
          };
          staging = record {
            review = λ test status actor remark now t p.
                All-update_where Judged test (as_reviewed status actor remark now) (λ row h. h)
                  t.staging p;
            edit = λ pg py entity id o fields actor now t p.
                All-update_where Judged (has_id id) (as_edited pg py entity o fields actor now)
                  (λ row h. refl) t.staging p;
          };
        })
        (StagingOnly (λ n rows. All Judged rows))

  All-found :
      (p : StagingRow → Bool) (rows : List StagingRow) (row : StagingRow)
      → All Judged rows
      → find_first p rows ≡ some row
      → Judged row
  All-found p [] row h f = absurd (cc)
  All-found p (x ∷ rows) row h f = elim (Bool-cases (p x)) [
    | inl t ↦ subst Judged (some-injective _ _ (rw t at f)) h.0
    | inr n ↦ All-found p rows row h.1 (rw n at f)
  ]

  -- Nothing with a recorded error becomes golden: if every staged row is judged at first, then
  -- after any sequence of transactions an approval that returns has applied a row whose list of
  -- errors is empty.
  pub applied_without_errors :
      (events : List Event) (s s' : State) (id : ℕ) (actor : String) (roles : List String)
      (remark : Option String) (enforce_sod : Option Bool) (r : Reviewed)
      → All Judged s.tables.staging
      → apply_staging_to_live cfg pg entity id actor roles remark enforce_sod
          (run_all cfg pg py entity events s)
        ≡ (ok r, s')
      → (row : StagingRow) × (find_first
            (has_id id)
            (run_all cfg pg py entity events s).tables.staging
          ≡ some row)
        × (is_empty row.errors ≡ true)
  applied_without_errors events s s' id actor roles remark enforce_sod r judged h =
      let now = run_all cfg pg py entity events s in
      let a = approval_checked cfg pg entity id actor roles remark enforce_sod now s' r h in
      (
        a.row,
        a.found,
        sym (
              All-found (has_id id) now.tables.staging a.row (run_all-Judged events s judged)
                a.found)
            ∙ a.is_valid,
      )
