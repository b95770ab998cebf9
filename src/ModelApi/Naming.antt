-- ===== src/ModelApi/Naming.antt =====
-- app/api/v1/models_api.py, `update_entity`: the display names of the attributes that exist.
use open_mdm.Base.{
  ℕ, String, Bool, true, false, ◌≡◌, refl, inl, inr, Option, none, some, List, [], ◌∷◌, Dict,
  lookup, any, Option-cases,
}
use open_mdm.Base.Results.{ok, err}
use open_mdm.ModelApi.{
  AttributeIn, EntityIn, check_columns, incoming_from, numbered, overwrite, kept, merged, updated,
  update_entity,
}
use open_mdm.Models.{Attribute, Entity, User}
use open_mdm.Python.{Python}
use open_mdm.Python.Str.{lower}
use open_mdm.Registry.{integrity_error, Registry, Stored, find_entity}

abbrev pub is_unnamed : Option (ℕ × AttributeIn) → Bool
is_unnamed none = false
is_unnamed (some (idx, a)) = elim a.display_name [ none ↦ true | some _ ↦ false ]

-- The attribute of a name is missing its display name in the payload.
abbrev pub unnamed : Dict (ℕ × AttributeIn) → Attribute → Bool
unnamed d c = is_unnamed (lookup c.name d)

kept_fails :
    (d : Dict (ℕ × AttributeIn)) (cs : List Attribute)
    → any (unnamed d) cs ≡ true
    → kept d cs ≡ err integrity_error
unfolding kept overwrite
kept_fails d [] h = absurd (cc)
kept_fails d (c ∷ cs) h = elim (Option-cases (lookup c.name d)) [
  | inl e ↦ rw (kept, e) (kept_fails d cs (rw e at h))
  | inr ((idx, a), e) ↦ elim (Option-cases a.display_name) [
    | inl n ↦ rw (kept, e, overwrite, n) refl
    | inr (x, n) ↦ rw (kept, e, overwrite, n, kept_fails d cs (rw (e, n) at h)) refl
  ]
]

-- A change that names an attribute that exists, but leaves out its display name, always fails: the
-- handler sets the display name to None, which the column does not take. (The schema makes the
-- field optional, and for a new attribute a name is made up.)
pub update_needs_display_names :
    (py : Python) (accepts : Entity → Bool) (name : String) (p : EntityIn) (u : User) (r : Registry)
    (s : Stored)
    → find_entity (lower py name) r ≡ some s
    → check_columns py p.attributes ≡ ok tt
    → any (unnamed (numbered 0 (incoming_from [] p.attributes))) s.entity.attributes ≡ true
    → update_entity py accepts name p u r ≡ err integrity_error
unfolding update_entity updated merged
update_needs_display_names py accepts name p u r s found columns missing =
    rw
      (
        update_entity,
        found,
        updated,
        columns,
        merged,
        kept_fails (numbered 0 (incoming_from [] p.attributes)) s.entity.attributes missing,
      )
      refl
