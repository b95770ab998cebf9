-- ===== src/Validation/MatchKey.antt =====
-- `build_match_key`: the normalised values of the match attributes, joined by bars.
use Prim.Native.String
use open_mdm.Base.{String, Option, none, some, List, [], ◌∷◌, Dict, lookup, is_empty, if◌then◌else◌}
use open_mdm.Base.Text.{strip, collapse_whitespace}
use open_mdm.Models.{Attribute, Entity, match_keys, business_key}
use open_mdm.Python.{Python, Value, is_null, or_null}
use open_mdm.Python.Str.{lower, strip_punctuation, to_str}

-- `entity.match_keys or entity.business_key`
abbrev pub key_attributes : Entity → List Attribute
key_attributes entity =
    if is_empty (match_keys entity) then business_key entity else match_keys entity

-- `"|".join(parts)`
unfoldable pub join_bars : List String → String
join_bars [] = String.[]
join_bars (part ∷ []) = part
join_bars (part ∷ next ∷ parts) = String.◌++◌ part (String.◌++◌ "|" (join_bars (next ∷ parts)))

module _ (py : Python) where
  -- 'Acme Corp.' and 'acme corp' have one part.
  unfoldable pub match_part : Value → String
  match_part v = collapse_whitespace (strip_punctuation py (lower py (strip (to_str py v))))

  abbrev add_part : String → Option (List String) → Option (List String)
  add_part part none = none
  add_part part (some parts) = some (part ∷ parts)

  -- None as soon as one of the values is missing.
  unfoldable pub match_parts : Dict Value → List Attribute → Option (List String)
  match_parts values [] = some []
  match_parts values (attr ∷ attrs) =
      let rest = match_parts values attrs in
      if is_null (or_null (lookup attr.name values))
      then none
      else add_part (match_part (or_null (lookup attr.name values))) rest

  abbrev joined : Option (List String) → Option String
  joined none = none
  joined (some []) = none
  joined (some (part ∷ parts)) = some (join_bars (part ∷ parts))

  unfoldable pub build_match_key : Dict Value → Entity → Option String
  unfolding match_parts
  build_match_key values entity =
      if is_empty (key_attributes entity)
      then none
      else joined (match_parts values (key_attributes entity))
