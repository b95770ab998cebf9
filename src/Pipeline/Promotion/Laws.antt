-- ===== src/Pipeline/Promotion/Laws.antt =====
-- The accounts of `promote_landing_to_staging`.
use open_mdm.Base.{
  ℕ, suc, ◌+◌, ◌≤◌, arith, String, ◌≡◌, refl, subst, sym, ap, ◌∙◌, Bool, true, false, not, some,
  List, [], ◌∷◌, ◌++◌, map, map-append, append_assoc, append-nil, keep, take, length, length-take,
}
use open_mdm.Base.Results.{Result, ok, err, ok-injective}
use open_mdm.Models.{Entity}
use open_mdm.Pipeline.Promotion.{
  wanted, select_pending, RowResult, staged, failed, Tally, counted, stage, validated, promote_row,
  promote_rows, is_partial, mark_landing, Promotion, promotion_of, promote_landing_to_staging,
}
use open_mdm.Python.{Python}
use open_mdm.Sql.{Exc, State, raise, recover, try_except, statement, pure, ◌>>◌}
use open_mdm.Sql.Inversion.{bind-ok, statement-ok}
use open_mdm.Tiers.{LandingStatus, LandingRow, Tables, Postgres}
use open_mdm.Validation.Constraints.{Failure}
use open_mdm.Validation.Record.{Outcome, validate_record}

abbrev pub is_staged : RowResult → Bool
is_staged (staged x) = true
is_staged (failed id e) = false

-- The row that a result is about.
abbrev pub result_id : RowResult → ℕ
result_id (staged x) = x.landing_id
result_id (failed id e) = id

-- The results are those of the rows of these ids, and the counters agree with them.
pub record Balanced (ids : List ℕ) (promoted failures : ℕ) (results : List RowResult) : Type 0 where
  pub each : map result_id results ≡ ids
  pub successes : promoted ≡ length (keep is_staged results)
  pub errors : failures ≡ length (keep (λ r. not (is_staged r)) results)
  pub sum : promoted + failures ≡ length ids

abbrev BalancedTally : List ℕ → Tally → Type 0
BalancedTally ids t = Balanced ids t.promoted t.failures t.results

length-keep-last :
    (p : RowResult → Bool) (xs : List RowResult) (x : RowResult)
    → length (keep p (xs ++ x ∷ [])) ≡ length (keep p xs) + length (keep p (x ∷ []))
length-keep-last p [] x = omega arith
length-keep-last p (y ∷ xs) x = ground (arith, length-keep-last p xs x)

length-last : (xs : List ℕ) (x : ℕ) → length (xs ++ x ∷ []) ≡ suc (length xs)
length-last [] x = refl
length-last (y ∷ xs) x = ap suc (length-last xs x)

counted-Balanced :
    (ids : List ℕ) (r : RowResult) (t : Tally)
    → BalancedTally ids t
    → BalancedTally (ids ++ result_id r ∷ []) (counted r t)
counted-Balanced ids (staged x) t b = record {
  each = map-append result_id t.results (staged x ∷ []) ∙ ap (λ l. l ++ x.landing_id ∷ []) b.each;
  successes = omega (arith, b.successes, length-keep-last is_staged t.results (staged x));
  errors = omega (arith, b.errors, length-keep-last (λ r. not (is_staged r)) t.results (staged x));
  sum = omega (arith, b.sum, length-last ids x.landing_id);
}
counted-Balanced ids (failed id e) t b = record {
  each = map-append result_id t.results (failed id e ∷ []) ∙ ap (λ l. l ++ id ∷ []) b.each;
  successes = omega (arith, b.successes, length-keep-last is_staged t.results (failed id e));
  errors =
      omega (arith, b.errors, length-keep-last (λ r. not (is_staged r)) t.results (failed id e));
  sum = omega (arith, b.sum, length-last ids id);
}

pure-ok : {A : Type 0} (a b : A) (s s' : State) → pure a s ≡ (ok b, s') → a ≡ b
unfolding pure
pure-ok a b s s' h = cc

module _ (pg : Postgres) (py : Python) (entity : Entity) (batch_id : String) where
  validated-id :
      (r : LandingRow) (v : Result Failure Outcome) (s s' : State) (x : RowResult)
      → validated pg py entity batch_id r v s ≡ (ok x, s')
      → result_id x ≡ r.id
  unfolding validated stage raise
  validated-id r (err f) s s' x h = absurd (cc)
  validated-id r (ok o) s s' x h =
      let (found, s1, h1, k1) = bind-ok _ _ s s' h in
      let (id, s2, h2, k2) = bind-ok _ _ s1 s' k1 in
      let (u, s3, h3, k3) = bind-ok _ _ s2 s' k2 in sym (ap result_id (pure-ok _ x s3 s' k3))

  -- The result of a row is about that row, whether the block or its handler gives it.
  promote_row-id :
      (r : LandingRow) (s s' : State) (x : RowResult)
      → promote_row pg py entity batch_id r s ≡ (ok x, s')
      → result_id x ≡ r.id
  unfolding promote_row try_except
  promote_row-id r s s' x h = go (validated pg py entity batch_id r v s) refl h
    where
      v : Result Failure Outcome
      v = validate_record py r.payload entity (is_partial r.operation)

      go :
          (p : Result Exc RowResult × State)
          → validated pg py entity batch_id r v s ≡ p
          → recover p (λ e.
            statement (mark_landing LandingStatus.error (some e) r.id) >> pure (failed r.id e))
            ≡ (ok x, s')
          → result_id x ≡ r.id
      go (ok y, s1) e k =
          ap result_id (sym (ok-injective (ap (λ (q : Result Exc RowResult × State). q.0) k)))
          ∙ validated-id r v s s1 y e
      go (err y, s1) e k =
          let (u, s2, h2, k2) = bind-ok _ _ s1 s' k in sym (ap result_id (pure-ok _ x s2 s' k2))

  promote_rows-Balanced :
      (ids : List ℕ) (rows : List LandingRow) (t t' : Tally) (s s' : State)
      → BalancedTally ids t
      → promote_rows pg py entity batch_id rows t s ≡ (ok t', s')
      → BalancedTally (ids ++ map (λ (r : LandingRow). r.id) rows) t'
  unfolding promote_rows
  promote_rows-Balanced ids [] t t' s s' b h =
      subst (λ l. BalancedTally l t') (append-nil ids)
        (subst (BalancedTally ids) (pure-ok t t' s s' h) b)
  promote_rows-Balanced ids (r ∷ rows) t t' s s' b h =
      let (x, s1, h1, k1) = bind-ok _ _ s s' h in
      let id = promote_row-id r s s1 x h1 in
      subst (λ l. BalancedTally l t') (append_assoc ids (r.id ∷ []) _)
        (promote_rows-Balanced (ids ++ r.id ∷ []) rows (counted x t) t' s1 s'
          (subst (λ i. BalancedTally (ids ++ i ∷ []) (counted x t)) id (counted-Balanced ids x t b))
          k1)

  select-ok :
      (ids : List ℕ) (limit : ℕ) (s s' : State) (rows : List LandingRow)
      → statement (select_pending ids limit) s ≡ (ok rows, s')
      → rows ≡ take limit (keep (wanted ids) s.tables.landing)
  unfolding select_pending
  select-ok ids limit s s' rows h =
      let (t, live, run, same) = statement-ok _ s s' h in sym (ap rows_of run)
    where
      rows_of : Result Exc (List LandingRow × Tables) → List LandingRow
      rows_of (ok (xs, t)) = xs
      rows_of (err e) = []

  abbrev Accounts : List LandingRow → ℕ → Promotion → Type 0
  Accounts rows limit p =
      (p.rows_in ≡ length rows)
      × Balanced (map (λ (r : LandingRow). r.id) rows) p.promoted p.failures p.results
      × (p.rows_in ≤ limit)

  -- A promotion that returns accounts for every row that it took on: these are the pending rows
  -- that were asked for, in their order and at most as many as the limit; the results are about
  -- these rows, one each and in this order; the counters are the numbers of the results of either
  -- kind, and add up to the rows.
  pub promotion_accounts :
      (ids : List ℕ) (limit : ℕ) (actor : String) (s s' : State) (p : Promotion)
      → promote_landing_to_staging pg py entity batch_id ids limit actor s ≡ (ok p, s')
      → (p.rows_in ≡ length (take limit (keep (wanted ids) s.tables.landing)))
        × Balanced
            (map (λ (r : LandingRow). r.id) (take limit (keep (wanted ids) s.tables.landing)))
            p.promoted
            p.failures
            p.results
        × (p.rows_in ≤ limit)
  unfolding promote_landing_to_staging
  promotion_accounts ids limit actor s s' p h =
      let (rows, s1, h1, k1) = bind-ok _ _ s s' h in
      let (t, s2, h2, k2) = bind-ok _ _ s1 s' k1 in
      let (u, s3, h3, k3) = bind-ok _ _ s2 s' k2 in
      let chosen = select-ok ids limit s s1 rows h1 in
      let empty : Balanced [] 0 0 [] = record {
        each = refl;
        successes = refl;
        errors = refl;
        sum = refl;
      } in
      subst (λ xs. Accounts xs limit p) chosen
        (subst (Accounts rows limit) (pure-ok (promotion_of rows t) p s3 s' k3) (
          refl,
          promote_rows-Balanced [] rows _ t s1 s2 empty h2,
          subst (λ xs. length xs ≤ limit) (sym chosen)
              (length-take limit (keep (wanted ids) s.tables.landing)),
        ))
