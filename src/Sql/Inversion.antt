-- ===== src/Sql/Inversion.antt =====
-- What an action that returned has done, part by part, and runs of single statements.
use open_mdm.Base.{ℕ, ◌≡◌, refl, ap, ◌∙◌, Bool, true, false, if◌then◌else◌}
use open_mdm.Base.Results.{Result, ok, err}
use open_mdm.Sql.{Exc, transaction_aborted, State, M, continue, ◌>>=◌, settle, statement, guard}
use open_mdm.Tiers.{Tables}

module _ {A B : Type 0} where
  pub bind-ok :
      (m : M A) (f : A → M B) (s s' : State) {b : B}
      → (m >>= f) s ≡ (ok b, s')
      → (a : A) × (s1 : State) × (m s ≡ (ok a, s1)) × (f a s1 ≡ (ok b, s'))
  unfolding ◌>>=◌
  bind-ok m f s s' h = go (m s) refl h
    where
      go :
          {b : B} (r : Result Exc A × State)
          → m s ≡ r
          → continue r f ≡ (ok b, s')
          → (a : A) × (s1 : State) × (m s ≡ (ok a, s1)) × (f a s1 ≡ (ok b, s'))
      go (ok a, s1) e h = (a, s1, e, h)
      go (err x, s1) e h = absurd (cc)

  -- A bind goes on from the result of its first action.
  pub bind-run :
      (m : M A) (f : A → M B) (s s1 : State) (a : A) → m s ≡ (ok a, s1) → (m >>= f) s ≡ f a s1
  unfolding ◌>>=◌
  bind-run m f s s1 a h = ap (λ (r : Result Exc A × State). continue r f) h

  pub bind-err :
      (m : M A) (f : A → M B) (s s1 : State) (e : Exc)
      → m s ≡ (err e, s1)
      → (m >>= f) s ≡ (err e, s1)
  unfolding ◌>>=◌
  bind-err m f s s1 e h = ap (λ (r : Result Exc A × State). continue r f) h

pub guard-ok :
    (b : Bool) (e : Exc) (s s' : State) {u : Unit {0}}
    → guard b e s ≡ (ok u, s')
    → (b ≡ true) × (s ≡ s')
unfolding guard
guard-ok true e s s' h = (refl, ap (λ (r : Result Exc (Unit {0}) × State). r.1) h)
guard-ok false e s s' h = absurd (cc)

pub guard-true : (b : Bool) (e : Exc) (s : State) → b ≡ true → guard b e s ≡ (ok tt, s)
unfolding guard
guard-true true e s h = refl
guard-true false e s h = absurd (cc)

pub guard-false : (b : Bool) (e : Exc) (s : State) → b ≡ false → guard b e s ≡ (err e, s)
unfolding guard
guard-false true e s h = absurd (cc)
guard-false false e s h = refl

module _ {A : Type 0} (run : ℕ → Tables → Result Exc (A × Tables)) (s : State) where
  pub statement-run : s.aborted ≡ false → statement run s ≡ settle s (run s.now s.tables)
  unfolding statement
  statement-run h = rw h

  pub statement-accepted :
      (a : A) (t : Tables)
      → s.aborted ≡ false
      → run s.now s.tables ≡ ok (a, t)
      → statement run s ≡ (ok a, record s { tables = t })
  statement-accepted a t h k = statement-run h ∙ ap (settle s) k

  pub statement-ok :
      (s' : State) {a : A}
      → statement run s ≡ (ok a, s')
      → (t : Tables) × (s.aborted ≡ false)
        × (run s.now s.tables ≡ ok (a, t))
        × (record s { tables = t } ≡ s')
  unfolding statement
  statement-ok s' h = go s.aborted refl (run s.now s.tables) refl h
    where
      go :
          {a : A} (b : Bool)
          → s.aborted ≡ b
          → (r : Result Exc (A × Tables)) → run s.now s.tables ≡ r
          → (if b then (err transaction_aborted, s) else settle s r) ≡ (ok a, s')
          → (t : Tables) × (s.aborted ≡ false)
            × (run s.now s.tables ≡ ok (a, t))
            × (record s { tables = t } ≡ s')
      go true e r k h = absurd (cc)
      go false e (ok (a, t)) k h = (t, e, k ∙ cc, ap (λ (r : Result Exc A × State). r.1) h)
      go false e (err x) k h = absurd (cc)
