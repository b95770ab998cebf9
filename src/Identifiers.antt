-- ===== src/Identifiers.antt =====
-- app/services/identifiers.py: the names that may become SQL identifiers, and their quoting.
-- Names reach these functions as texts; the test `isinstance(name, str)` is the typing.
pub mod Types
pub mod Naming
pub mod Quoting
use Prim.Native.Nat.{zero, suc}
use Prim.Native.Char.{Char, code}
use Prim.Native.String
use text.Mathlib.Text.{starts_with}
use open_mdm.Base.{
  ℕ, String, Bool, true, false, ◌&&◌, ◌||◌, List, [], ◌∷◌, eqb, member, if◌then◌else◌,
}
use open_mdm.Base.Results.{Result, ok, err, ◌>>=◌}
use open_mdm.Base.Text.{is_lower, is_digit, is_empty_text}
use open_mdm.Python.{Python}
use open_mdm.Python.Str.{lower}

-- Each message of an `IdentifierError`.
pub data IdentifierError : Type 0 where
  empty_name bad_pattern reserved_keyword platform_reserved unsupported_type bad_length :
      IdentifierError
  bad_default no_attributes : IdentifierError

abbrev pub reserved : List String
reserved =
    "all" ∷ "analyse" ∷ "analyze" ∷ "and" ∷ "any" ∷ "array" ∷ "as" ∷ "asc" ∷ "authorization"
    ∷ "between" ∷ "binary" ∷ "both" ∷ "case" ∷ "cast" ∷ "check" ∷ "collate" ∷ "column"
    ∷ "constraint" ∷ "create" ∷ "cross" ∷ "current_date" ∷ "current_role" ∷ "current_time"
    ∷ "current_timestamp" ∷ "current_user" ∷ "default" ∷ "deferrable" ∷ "desc" ∷ "distinct" ∷ "do"
    ∷ "else" ∷ "end" ∷ "except" ∷ "false" ∷ "for" ∷ "foreign" ∷ "freeze" ∷ "from" ∷ "full" ∷ "grant"
    ∷ "group" ∷ "having" ∷ "ilike" ∷ "in" ∷ "initially" ∷ "inner" ∷ "intersect" ∷ "into" ∷ "is"
    ∷ "isnull" ∷ "join" ∷ "leading" ∷ "left" ∷ "like" ∷ "limit" ∷ "localtime" ∷ "localtimestamp"
    ∷ "natural" ∷ "not" ∷ "notnull" ∷ "null" ∷ "offset" ∷ "on" ∷ "only" ∷ "or" ∷ "order" ∷ "outer"
    ∷ "overlaps" ∷ "placing" ∷ "primary" ∷ "references" ∷ "returning" ∷ "right" ∷ "select"
    ∷ "session_user" ∷ "similar" ∷ "some" ∷ "symmetric" ∷ "table" ∷ "then" ∷ "to" ∷ "trailing"
    ∷ "true" ∷ "union" ∷ "unique" ∷ "user" ∷ "using" ∷ "verbose" ∷ "when" ∷ "where" ∷ "window"
    ∷ "with" ∷ []

abbrev pub system_columns : List String
system_columns =
    "mdm_id" ∷ "mdm_version" ∷ "mdm_created_at" ∷ "mdm_updated_at" ∷ "mdm_created_by"
    ∷ "mdm_updated_by" ∷ "mdm_is_deleted" ∷ "mdm_deleted_at" ∷ "mdm_source_system"
    ∷ "mdm_landing_id" ∷ "mdm_staging_id" ∷ "mdm_batch_id" ∷ "mdm_valid_from" ∷ "mdm_valid_to"
    ∷ "mdm_operation" ∷ "mdm_status" ∷ "mdm_errors" ∷ "mdm_payload" ∷ "mdm_received_at"
    ∷ "mdm_reviewed_by" ∷ "mdm_reviewed_at" ∷ "mdm_review_note" ∷ "mdm_submitted_by"
    ∷ "mdm_match_key" ∷ "mdm_target_id" ∷ "mdm_idempotency_key" ∷ "mdm_history_id"
    ∷ "mdm_change_type" ∷ "mdm_edited_by" ∷ []

abbrev pub ident_char : Char → Bool
ident_char c = is_lower c || is_digit c || eqb (code c) b'_'

-- `$` matches at the end of the text, and before a newline that ends it.
abbrev at_end : Char → String → Bool
at_end c s = eqb (code c) 10 && is_empty_text s

-- `[a-z0-9_]{0,n}$`
unfoldable pub match_tail : ℕ → String → Bool
match_tail n String.[] = true
match_tail zero (String.◌∷◌ c s) = at_end c s
match_tail (suc n) (String.◌∷◌ c s) =
    let rest = match_tail n s in at_end c s || (ident_char c && rest)

-- `IDENT_RE.match(s)`, for `^[a-z][a-z0-9_]{0,62}$`
unfoldable pub ident_re : String → Bool
unfolding match_tail
ident_re String.[] = false
ident_re (String.◌∷◌ c s) = is_lower c && match_tail 62 s

unfoldable pub validate_lowered : String → Result IdentifierError String
unfolding ident_re
validate_lowered lowered =
    if ident_re lowered
    then (if member lowered reserved then err reserved_keyword else ok lowered)
    else err bad_pattern

unfoldable pub validate_ident : Python → String → Result IdentifierError String
unfolding validate_lowered
validate_ident py name =
    if is_empty_text name then err empty_name else validate_lowered (lower py name)

unfoldable pub validate_column_name : Python → String → Result IdentifierError String
unfolding validate_ident
validate_column_name py name = do
  lowered ← validate_ident py name
  if member lowered system_columns || starts_with lowered "mdm_"
      then err platform_reserved
      else ok lowered

-- `name.replace('"', '""')`
unfoldable pub double_quotes : String → String
double_quotes String.[] = String.[]
double_quotes (String.◌∷◌ c s) =
    let rest = double_quotes s in
    if eqb (code c) b'"' then String.◌∷◌ c (String.◌∷◌ c rest) else String.◌∷◌ c rest

unfoldable pub quote_ident : String → Result IdentifierError String
unfolding double_quotes
quote_ident name =
    if is_empty_text name
    then err empty_name
    else ok (String.◌∷◌ "\"" (String.◌++◌ (double_quotes name) "\""))

unfoldable pub qualified : String → String → Result IdentifierError String
unfolding quote_ident
qualified schema table = do
  s ← quote_ident schema
  t ← quote_ident table
  ok (String.◌++◌ s (String.◌++◌ "." t))
