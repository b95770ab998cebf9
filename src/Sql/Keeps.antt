-- ===== src/Sql/Keeps.antt =====
-- Invariants of actions, one rule for each way to build one.
use open_mdm.Base.{ℕ, ◌≤◌, arith, ◌≡◌, refl, subst, Bool, true, false, if◌then◌else◌}
use open_mdm.Base.Results.{Result, ok, err}
use open_mdm.Models.{AuditEvent, PromotionBatch}
use open_mdm.Tiers.{Tables}
use open_mdm.Sql.{
  begin, commit_or_rollback, accept, settle, transaction_aborted, Exc, State, M, continue, ◌>>=◌,
  pure, raise, recover, try_except, statement, guard, add_audit, add_batch,
}

-- `m` keeps `P` of the tables, whether it returns or raises.
pub record Keeps {A : Type 0} (P : Tables → Type 0) (m : M A) : Type 0 where
  pub at : (s : State) → P s.tables → P (m s).1.tables

module _ {A : Type 0} {P : Tables → Type 0} where
  pub Keeps-pure : (a : A) → Keeps P (pure a)
  unfolding pure
  Keeps-pure a = record { at = λ s h. h }

  pub Keeps-raise : (e : Exc) → Keeps P (raise {A = A} e)
  unfolding raise
  Keeps-raise e = record { at = λ s h. h }

  pub Keeps-if : (b : Bool) (m n : M A) → Keeps P m → Keeps P n → Keeps P (if b then m else n)
  Keeps-if true m n km kn = km
  Keeps-if false m n km kn = kn

  recover-keeps :
      (r : Result Exc A × State) (h : Exc → M A)
      → P r.1.tables
      → ((e : Exc) → Keeps P (h e))
      → P (recover r h).1.tables
  recover-keeps (ok a, s) h p k = p
  recover-keeps (err e, s) h p k = (k e).at s p

  pub Keeps-try_except :
      (m : M A) (h : Exc → M A) → Keeps P m → ((e : Exc) → Keeps P (h e)) → Keeps P (try_except m h)
  unfolding try_except
  Keeps-try_except m h km kh = record { at = λ s p. recover-keeps (m s) h (km.at s p) kh }

  -- A statement keeps what its change of the tables keeps.
  pub Keeps-statement :
      (run : ℕ → Tables → Result Exc (A × Tables))
      → ((n : ℕ) (t : Tables) (a : A) (t' : Tables) → run n t ≡ ok (a, t') → P t → P t')
      → Keeps P (statement run)
  unfolding statement
  Keeps-statement run step = record {
    at = λ s p. by_case s s.aborted (run s.now s.tables) (step s.now s.tables) p;
  }
    where
      settled :
          (s : State) (r : Result Exc (A × Tables))
          → ((a : A) (t' : Tables) → r ≡ ok (a, t') → P s.tables → P t')
          → P s.tables
          → P (settle s r).1.tables
      settled s (ok (a, t)) k p = k a t refl p
      settled s (err e) k p = p

      by_case :
          (s : State) (b : Bool) (r : Result Exc (A × Tables))
          → ((a : A) (t' : Tables) → r ≡ ok (a, t') → P s.tables → P t')
          → P s.tables
          → P (if b then (err transaction_aborted, s) else settle s r).1.tables
      by_case s true r k p = p
      by_case s false r k p = settled s r k p

module _ {A B : Type 0} {P : Tables → Type 0} where
  continue-keeps :
      (r : Result Exc A × State) (f : A → M B)
      → P r.1.tables
      → ((a : A) → Keeps P (f a))
      → P (continue r f).1.tables
  continue-keeps (ok a, s) f p k = (k a).at s p
  continue-keeps (err e, s) f p k = p

  pub Keeps-bind :
      (m : M A) (f : A → M B) → Keeps P m → ((a : A) → Keeps P (f a)) → Keeps P (m >>= f)
  unfolding ◌>>=◌
  Keeps-bind m f km kf = record { at = λ s p. continue-keeps (m s) f (km.at s p) kf }

module _ {P : Tables → Type 0} where
  pub Keeps-guard : (b : Bool) (e : Exc) → Keeps P (guard b e)
  unfolding guard
  Keeps-guard true e = record { at = λ s h. h }
  Keeps-guard false e = record { at = λ s h. h }

  pub Keeps-add_audit : (event : AuditEvent) → Keeps P (add_audit event)
  unfolding add_audit
  Keeps-add_audit event = record { at = λ s h. h }

  pub Keeps-add_batch : (batch : PromotionBatch) → Keeps P (add_batch batch)
  unfolding add_batch
  Keeps-add_batch batch = record { at = λ s h. h }

pub ruleset keeps_rules = (
  Keeps-pure, Keeps-raise, Keeps-if, Keeps-try_except, Keeps-bind, Keeps-guard, Keeps-add_audit,
  Keeps-add_batch,
)

pub accept-same :
    {A : Type 0} (P : Tables → Type 0) (b : Bool) (a c : A) (t t' : Tables)
    → accept b a t ≡ ok (c, t')
    → P t
    → P t'
accept-same P true a c t t' h p = subst P (cc) p
accept-same P false a c t t' h p = absurd (cc)

-- A statement that was accepted had its condition, and left the tables it was to leave.
pub accept-ok :
    {A : Type 0} (b : Bool) (a c : A) (t t' : Tables)
    → accept b a t ≡ ok (c, t')
    → (b ≡ true) × (t ≡ t')
accept-ok true a c t t' h = (refl, cc)
accept-ok false a c t t' h = absurd (cc)

-- How far the sequences have run.
abbrev pub Grown : Tables → Tables → Type 0
Grown t0 t = (t0.next_landing ≤ t.next_landing) × (t0.next_staging ≤ t.next_staging)

-- A property that stays when the sequences run on.
abbrev pub Sequenced : (Tables → Type 0) → Type 0
Sequenced P =
    (t : Tables) (l s : ℕ)
    → t.next_landing ≤ l
    → t.next_staging ≤ s
    → P t
    → P (record t { next_landing = l; next_staging = s })

module _ {A : Type 0} {P : Tables → Type 0} (sequenced : Sequenced P) where
  settled :
      (before : State) (r : Result Exc A × State)
      → P before.tables
      → P r.1.tables
      → Grown before.tables r.1.tables
      → P (commit_or_rollback before r).1.tables
  settled before (ok a, s) h p g = p
  settled before (err e, s) h p g =
      sequenced before.tables s.tables.next_landing s.tables.next_staging g.0 g.1 h

  -- A transaction keeps what its actions keep, whether it commits or rolls back.
  pub Keeps-begin : (m : M A) → Keeps P m → ((t0 : Tables) → Keeps (Grown t0) m) → Keeps P (begin m)
  unfolding begin
  Keeps-begin m km grown = record {
    at = λ s p. settled s (m s) p (km.at s p) ((grown s.tables).at s (omega arith, omega arith));
  }
