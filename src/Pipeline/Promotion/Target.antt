-- ===== src/Pipeline/Promotion/Target.antt =====
-- `_resolve_target` of app/services/pipeline.py: the golden record that a write applies to.
pub mod Reads
use open_mdm.Base.{
  ℕ, String, Bool, true, false, not, ◌&&◌, Option, none, some, List, [], ◌∷◌, ◌++◌, Dict, all,
  find_first, lookup, is_empty, ◌==◌, if◌then◌else◌,
}
use open_mdm.Base.Results.{Result, ok, err}
use open_mdm.Base.Text.{strip}
use open_mdm.Models.{Attribute, Entity, match_keys, business_key}
use open_mdm.Pipeline.Landing.{truthy_text}
use open_mdm.Python.{Python, Value, is_null, or_null}
use open_mdm.Python.Str.{lower, to_str}
use open_mdm.Sql.{Exc, accept, M, pure, statement, ◌>>=◌}
use open_mdm.Tiers.{Operation, ChangeType, LiveRow, Tables, Postgres}
use open_mdm.Validation.{FieldError}

-- The id that was found, the change that it implies, and the errors of the row so far.
pub record Resolved : Type 0 where
  pub target : Option String
  pub change_type : ChangeType
  pub errors : List FieldError

abbrev pub value_of : Dict Value → Attribute → Value
value_of values a = or_null (lookup a.name values)

-- `all(values.get(a.name) is not None for a in keys)`
abbrev pub all_present : Dict Value → List Attribute → Bool
all_present values attrs = all (λ a. not (is_null (value_of values a))) attrs

abbrev pub is_insert : Operation → Bool
is_insert Operation.insert = true
is_insert _ = false

abbrev first_name : List Attribute → String
first_name [] = ""
first_name (a ∷ attrs) = a.name

-- A golden record was found by a key: an INSERT gets an error, any other write becomes an update.
abbrev by_key : Operation → List Attribute → String → List FieldError → LiveRow → Resolved
by_key op attrs code errors row = record {
  target = some row.id;
  change_type = ChangeType.update;
  errors =
      if is_insert op then errors ++ record { at = first_name attrs; code = code } ∷ [] else errors;
}

abbrev fresh : List FieldError → Resolved
fresh errors = record { target = none; change_type = ChangeType.insert; errors = errors }

abbrev pub is_some : Option String → Bool
is_some none = false
is_some (some s) = true

abbrev pub has_uuid : Option String → LiveRow → Bool
has_uuid none row = false
has_uuid (some uuid) row = row.id == uuid

-- `cast(:id as uuid)` refuses a text that is no UUID.
unfoldable pub select_by_id : Postgres → String → ℕ → Tables → Result Exc (Option LiveRow × Tables)
select_by_id pg id now t =
    accept (is_some (pg.cast_uuid id)) (find_first (has_uuid (pg.cast_uuid id)) t.live) t

unfoldable pub select_where : (LiveRow → Bool) → ℕ → Tables → Result Exc (Option LiveRow × Tables)
select_where test now t = ok (find_first test t.live, t)

abbrev pub found_by_id : List FieldError → Option LiveRow → Resolved
found_by_id errors (some row) = record {
  target = some row.id;
  change_type = ChangeType.update;
  errors = errors;
}
found_by_id errors none = fresh (errors ++ record { at = "mdm_id"; code = "not_found" } ∷ [])

abbrev pub found_by_key :
    Operation → List Attribute → String → List FieldError → Option LiveRow → Resolved
found_by_key op attrs code errors none = fresh errors
found_by_key op attrs code errors (some row) = by_key op attrs code errors row

module _ (pg : Postgres) (py : Python) where
  -- `column = :value`, for each of the keys: NULL is equal to nothing.
  abbrev pub matches_business_key : Dict Value → List Attribute → LiveRow → Bool
  matches_business_key values attrs row =
      all
        (λ a.
          not (is_null (value_of row.values a))
          && pg.equal (value_of row.values a) (value_of values a))
        attrs
      && not row.is_deleted

  -- `lower(trim(column::text)) = :value`, for each of the keys.
  abbrev pub matches_match_key : Dict Value → List Attribute → LiveRow → Bool
  matches_match_key values attrs row =
      all
        (λ a.
          not (is_null (value_of row.values a))
          && (pg.folded (value_of row.values a)
              == lower py (strip (to_str py (value_of values a)))))
        attrs
      && not row.is_deleted

  by_match_key : Entity → Dict Value → Operation → List FieldError → M Resolved
  by_match_key entity values op errors =
      let attrs = match_keys entity in
      if not (is_empty attrs) && all_present values attrs
      then (statement (select_where (matches_match_key values attrs)) >>= λ row.
          pure (found_by_key op attrs "probable_duplicate" errors row))
      else pure (fresh errors)

  by_business_key : Entity → Dict Value → Operation → List FieldError → M Resolved
  unfolding by_match_key
  by_business_key entity values op errors =
      let attrs = business_key entity in
      if not (is_empty attrs) && all_present values attrs
      then (statement (select_where (matches_business_key values attrs)) >>= λ row.
          pure (found_by_key op attrs "duplicate" errors row))
      else by_match_key entity values op errors

  by_target : Entity → Dict Value → Option String → Operation → List FieldError → M Resolved
  unfolding by_business_key
  by_target entity values none op errors = by_business_key entity values op errors
  by_target entity values (some id) op errors =
      statement (select_by_id pg id) >>= λ row. pure (found_by_id errors row)

  unfoldable pub resolve_target :
      Entity → Dict Value → Option String → Operation → List FieldError → M Resolved
  unfolding by_target
  resolve_target entity values target_id op errors =
      if truthy_text target_id
      then by_target entity values target_id op errors
      else by_target entity values none op errors
