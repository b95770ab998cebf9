-- ===== src/Pipeline/Promotion/Poison.antt =====
-- What becomes of a promotion when the database refuses a statement for one of its rows.
use open_mdm.Base.{
  ℕ, String, ◌≡◌, refl, sym, ap, subst, ◌∙◌, true, false, Option, none, some, List, [], ◌∷◌, ◌++◌,
  keep, take, Bool-cases, inl, inr,
}
use open_mdm.Base.Results.{Result, ok, err}
use open_mdm.Models.{Entity}
use open_mdm.Pipeline.Landing.{truthy_text}
use open_mdm.Pipeline.Promotion.{
  Tally, counted, wanted, select_pending, is_partial, RowResult, validated, promote_row,
  promote_rows, promote_landing_to_staging,
}
use open_mdm.Pipeline.Promotion.Target.{Resolved, select_by_id, resolve_target}
use open_mdm.Pipeline.Promotion.Target.Reads.{resolve_target-some}
use open_mdm.Python.{Python}
use open_mdm.Sql.{
  Exc, sql_error, transaction_aborted, State, M, settle, statement, try_except, recover, begin,
  commit_or_rollback, rolled_back, ◌>>=◌,
}
use open_mdm.Sql.Inversion.{bind-err, bind-run, statement-run, statement-accepted}
use open_mdm.Tiers.{LandingRow, Tables, Postgres}
use open_mdm.Validation.Constraints.{Failure}
use open_mdm.Validation.Record.{Outcome, validate_record}

-- The action raises, and leaves the transaction aborted.
abbrev Aborts : {A : Type 0} → M A → State → Type 0
Aborts m s = (e : Exc) × (s' : State) × (m s ≡ (err e, s')) × (s'.aborted ≡ true)

abbrev Raises : {A : Type 0} → M A → State → Type 0
Raises m s = (e : Exc) × (s' : State) × (m s ≡ (err e, s'))

module _ {A : Type 0} where
  statement-aborted :
      (run : ℕ → Tables → Result Exc (A × Tables)) (s : State)
      → s.aborted ≡ true
      → Aborts (statement run) s
  unfolding statement
  statement-aborted run s h = (transaction_aborted, s, rw h, h)

  -- A statement that the database refuses, or that comes too late.
  statement-refused :
      (run : ℕ → Tables → Result Exc (A × Tables)) (s : State)
      → run s.now s.tables ≡ err sql_error
      → Aborts (statement run) s
  statement-refused run s h = elim (Bool-cases s.aborted) [
    | inl late ↦ statement-aborted run s late
    | inr live ↦
        (sql_error, record s { aborted = true }, statement-run run s live ∙ ap (settle s) h, refl)
  ]

  try-Aborts :
      (m : M A) (handler : Exc → M A) (s : State)
      → Aborts m s
      → ((e : Exc) (s' : State) → s'.aborted ≡ true → Aborts (handler e) s')
      → Aborts (try_except m handler) s
  unfolding try_except
  try-Aborts m handler s (e, s', h, late) k =
      let (x, last, raised, still) = k e s' late in
      (x, last, ap (λ r. recover r handler) h ∙ raised, still)

bind-Aborts : {A B : Type 0} (m : M A) (f : A → M B) (s : State) → Aborts m s → Aborts (m >>= f) s
bind-Aborts m f s (e, s', h, late) = (e, s', bind-err m f s s' e h, late)

module _ (pg : Postgres) (py : Python) (entity : Entity) (batch_id : String) (r : LandingRow)
    (id : String) (target : r.target_id ≡ some id) (some_text : truthy_text (some id) ≡ true)
    (no_uuid : pg.cast_uuid id ≡ none) where
  resolve-Aborts :
      (o : Outcome) (s : State)
      → Aborts (resolve_target pg py entity o.values r.target_id r.operation o.errors) s
  unfolding select_by_id
  resolve-Aborts o s =
      subst
        (λ (t : Option String).
          Aborts (resolve_target pg py entity o.values t r.operation o.errors) s)
        (sym target)
        (subst (λ (m : M Resolved). Aborts m s)
          (sym (resolve_target-some pg py entity o.values id r.operation o.errors some_text))
          (bind-Aborts _ _ s (statement-refused (select_by_id pg id) s (rw no_uuid))))

  validated-Aborts : (o : Outcome) (s : State) → Aborts (validated pg py entity batch_id r (ok o)) s
  unfolding validated
  validated-Aborts o s = bind-Aborts _ _ s (resolve-Aborts o s)

  promote_row-Aborts :
      (o : Outcome)
      → validate_record py r.payload entity (is_partial r.operation) ≡ ok o
      → (s : State) → Aborts (promote_row pg py entity batch_id r) s
  unfolding promote_row
  promote_row-Aborts o valid s =
      try-Aborts _ _ s
        (subst (λ (v : Result Failure Outcome). Aborts (validated pg py entity batch_id r v) s)
          (sym valid) (validated-Aborts o s))
        (λ e s' late. bind-Aborts _ _ s' (statement-aborted _ s' late))

  row_first :
      (x : LandingRow) (rows : List LandingRow) (t : Tally) (s : State)
      → ((t : Tally) (s : State) → Raises (promote_rows pg py entity batch_id rows t) s)
      → Raises (promote_rows pg py entity batch_id (x ∷ rows) t) s
  unfolding promote_rows
  row_first x rows t s raises = go (promote_row pg py entity batch_id x s) refl
    where
      go :
          (p : Result Exc RowResult × State)
          → promote_row pg py entity batch_id x s ≡ p
          → Raises (promote_rows pg py entity batch_id (x ∷ rows) t) s
      go (err e, s1) h = (e, s1, bind-err _ _ s s1 e h)
      go (ok result, s1) h =
          let (e, s', k) = raises (counted result t) s1 in (e, s', bind-run _ _ s s1 result h ∙ k)

  -- Wherever the row stands, the loop raises.
  promote_rows-Raises :
      (o : Outcome)
      → validate_record py r.payload entity (is_partial r.operation) ≡ ok o
      → (earlier later : List LandingRow) (t : Tally) (s : State)
      → Raises (promote_rows pg py entity batch_id (earlier ++ r ∷ later) t) s
  unfolding promote_rows
  promote_rows-Raises o valid [] later t s =
      let (e, s', h, late) = promote_row-Aborts o valid s in (e, s', bind-err _ _ s s' e h)
  promote_rows-Raises o valid (x ∷ earlier) later t s =
      row_first x (earlier ++ r ∷ later) t s (promote_rows-Raises o valid earlier later)

  -- One pending row whose target id the database cannot read as a UUID fails every promotion that
  -- takes it on, whichever rows stand before and behind it: the promotion raises, and its
  -- transaction leaves the landing and staging tables as they were, the row pending among them.
  -- This is for a row whose payload the validation can read, on a live transaction.
  pub promotion_poisoned :
      (o : Outcome) (ids : List ℕ) (limit : ℕ) (actor : String) (earlier later : List LandingRow)
      (s : State)
      → s.aborted ≡ false
      → validate_record py r.payload entity (is_partial r.operation) ≡ ok o
      → take limit (keep (wanted ids) s.tables.landing) ≡ earlier ++ r ∷ later
      → (e : Exc) × (s' : State) × (begin
            (promote_landing_to_staging pg py entity batch_id ids limit actor)
            s
          ≡ (err e, s'))
        × (s'.tables.landing ≡ s.tables.landing)
        × (s'.tables.staging ≡ s.tables.staging)
  unfolding promote_landing_to_staging select_pending begin
  promotion_poisoned o ids limit actor earlier later s live valid chosen =
      let (e, s', h) = promote_rows-Raises o valid earlier later _ s in
      (
        e,
        rolled_back s s',
        ap (commit_or_rollback s) (
            bind-run _ _ s s (earlier ++ r ∷ later) (
              statement-accepted (select_pending ids limit) s _ s.tables live
                (ap (λ rows. ok (rows, s.tables)) chosen))
            ∙ bind-err _ _ s s' e h),
        refl,
        refl,
      )
