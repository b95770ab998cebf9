-- ===== src/Ldap.antt =====
-- app/services/ldap_auth.py: the escaping of search filters and the mapping of groups to roles. The
-- logins are in the child Directory.
pub mod Escape
pub mod Directory
pub mod Login
use Prim.Native.Nat.{ℕ}
use Prim.Native.Char.{Char, code}
use Prim.Native.Nat.{Ordering}
use Prim.Native.String.{String, compare}
use Prim.Native.String
use open_mdm.Base.{
  Bool, true, false, ◌&&◌, eqb, if◌then◌else◌, Option, none, some, List, [], ◌∷◌, ◌++◌, map, Dict,
  member, is_empty,
}
use open_mdm.Base.Text.{lstrip, strip, is_space, is_empty_text}
use open_mdm.Python.{Python}
use open_mdm.Python.Str.{lower}
use open_mdm.Settings.{Settings}

-- What one character of a filter value becomes: a special one its code in hexadecimal.
abbrev pub escaped : Char → String
escaped c =
    if eqb (code c) b'\\'
    then "\\5c"
    else if eqb (code c) b'*'
    then "\\2a"
    else if eqb (code c) b'('
    then "\\28"
    else if eqb (code c) b')'
    then "\\29"
    else if eqb (code c) 0
    then "\\00"
    else if eqb (code c) b'/'
    then "\\2f"
    else String.◌∷◌ c String.[]

unfoldable pub escape_filter : String → String
escape_filter String.[] = String.[]
escape_filter (String.◌∷◌ c s) = String.◌++◌ (escaped c) (escape_filter s)

-- `re.sub(r"\s*,\s*", ",", s)`
abbrev pub starts_with_comma : String → Bool
starts_with_comma String.[] = false
starts_with_comma (String.◌∷◌ c s) = eqb (code c) b','

unfoldable pub tight_commas : String → String
tight_commas String.[] = String.[]
tight_commas (String.◌∷◌ c s) =
    let rest = tight_commas s in
    if eqb (code c) b','
    then String.◌∷◌ c (lstrip rest)
    else if is_space c && starts_with_comma rest
    then rest
    else String.◌∷◌ c rest

-- `sorted` of a set to which an element is added.
abbrev pub add_sorted : String → List String → List String
add_sorted x [] = x ∷ []
add_sorted x (y ∷ ys) = elim (compare x y) [
  | Ordering.lt ↦ x ∷ y ∷ ys
  | Ordering.eq ↦ y ∷ ys
  | Ordering.gt ↦ y ∷ add_sorted x ys
]

module _ (py : Python) where
  unfoldable pub normalize_dn : String → String
  normalize_dn dn = tight_commas (lower py (strip dn))

  -- The roles of the pairs whose group is among the normalized ones.
  abbrev pub roles_of : List String → Dict String → List String
  roles_of normalized [] = []
  roles_of normalized ((dn, role) ∷ pairs) =
      let rest = roles_of normalized pairs in
      if member (normalize_dn dn) normalized then add_sorted role rest else rest

  module _ (cfg : Settings) where
    abbrev pub group_of : Option String → String → Dict String
    group_of none role = []
    group_of (some dn) role = if is_empty_text dn then [] else (dn, role) ∷ []

    abbrev pub default_groups : Dict String
    default_groups =
        group_of cfg.ldap_admin_group_dn "admin"
        ++ (group_of cfg.ldap_steward_group_dn "steward"
            ++ group_of cfg.ldap_reader_group_dn "reader")

    -- The mappings of the database, or those of the settings where it has none.
    abbrev pub pairs_of : Dict String → Dict String
    pairs_of mappings = if is_empty mappings then default_groups else mappings

    unfoldable pub map_roles : List String → Dict String → List String
    map_roles group_dns mappings = roles_of (map normalize_dn group_dns) (pairs_of mappings)
