-- ===== src/Pipeline/Promotion/Target/Reads.antt =====
-- `_resolve_target` only reads: it keeps every property of the tables.
use open_mdm.Base.{String, ◌≡◌, subst, Bool, true, Option, none, some, List, Dict}
use open_mdm.Base.Results.{Result, ok}
use open_mdm.Pipeline.Landing.{truthy_text}
use open_mdm.Models.{Entity}
use open_mdm.Pipeline.Promotion.Target.{
  found_by_id, resolve_target, by_target, by_business_key, by_match_key, select_by_id, select_where,
}
use open_mdm.Python.{Python, Value}
use open_mdm.Sql.{Exc, pure, statement, ◌>>=◌}
use open_mdm.Sql.Keeps.{Keeps, accept-same, Keeps-statement, Keeps-pure, Keeps-bind, Keeps-if}
use open_mdm.Tiers.{Operation, LiveRow, Tables, Postgres}
use open_mdm.Validation.{FieldError}

pub read-same :
    {A : Type 0} {a b : A} {t t' : Tables} (P : Tables → Type 0)
    → ◌≡◌ {A = Result Exc (A × Tables)} (ok (a, t)) (ok (b, t'))
    → P t
    → P t'
read-same P h p = subst P (cc) p

module _ {P : Tables → Type 0} where
  pub select_by_id-Keeps : (pg : Postgres) (id : String) → Keeps P (statement (select_by_id pg id))
  unfolding select_by_id
  select_by_id-Keeps pg id =
      Keeps-statement (select_by_id pg id) (λ n t a t' h p. accept-same P _ _ a t t' h p)

  select_where-Keeps : (test : LiveRow → Bool) → Keeps P (statement (select_where test))
  unfolding select_where
  select_where-Keeps test = Keeps-statement (select_where test) (λ n t a t' h p. read-same P h p)

  module _ (pg : Postgres) (py : Python) (entity : Entity) (values : Dict Value)
      (op : Operation) where
    by_match_key-Keeps :
        (errors : List FieldError) → Keeps P (by_match_key pg py entity values op errors)
    unfolding by_match_key
    by_match_key-Keeps errors = search (Keeps-if, Keeps-bind, Keeps-pure, select_where-Keeps)

    by_business_key-Keeps :
        (errors : List FieldError) → Keeps P (by_business_key pg py entity values op errors)
    unfolding by_business_key
    by_business_key-Keeps errors =
        search (Keeps-if, Keeps-bind, Keeps-pure, select_where-Keeps, by_match_key-Keeps)

    by_target-Keeps :
        (target : Option String) (errors : List FieldError)
        → Keeps P (by_target pg py entity values target op errors)
    unfolding by_target
    by_target-Keeps none errors = by_business_key-Keeps errors
    by_target-Keeps (some id) errors = search (Keeps-bind, Keeps-pure, select_by_id-Keeps)

    pub resolve_target-Keeps :
        (target : Option String) (errors : List FieldError)
        → Keeps P (resolve_target pg py entity values target op errors)
    unfolding resolve_target
    resolve_target-Keeps target errors = search (Keeps-if, by_target-Keeps)

-- An explicit target is looked up by its id, whatever the keys say.
pub resolve_target-some :
    (pg : Postgres) (py : Python) (entity : Entity) (values : Dict Value) (id : String)
    (op : Operation) (errors : List FieldError)
    → truthy_text (some id) ≡ true
    → resolve_target pg py entity values (some id) op errors
      ≡ (statement (select_by_id pg id) >>= λ row. pure (found_by_id errors row))
unfolding resolve_target by_target
resolve_target-some pg py entity values id op errors h = rw h
