-- ===== src/ModelApi/Registered.antt =====
-- app/api/v1/models_api.py: the invariant of the metadata tables, and that each handler keeps it.
use open_mdm.Base.{
  ℕ, length, String, Bool, false, not, ◌≡◌, refl, sym, ap, ◌∙◌, inl, inr, none, some, List, [], ◌∷◌,
  map, any, repeated, repeated-add, repeated-keep, map-update_where, map-append, All, All-append,
  All-keep, All-find_first, All-update_where, subst, Bool-cases, Option-cases, is_empty, ◌==◌,
  eq_iff, eq_sym, or_left, or_right,
}
use open_mdm.Base.Results.{ok, >>=-eq-ok, ok-injective, raise_if}
use open_mdm.Identifiers.{validate_ident}
use open_mdm.ModelApi.{
  EntityIn, rejected, check_columns, with_payload, version_row, event, updated, create_entity,
  update_entity, new_entity, register,
}
use open_mdm.ModelApi.Lifecycle.{Sound, insert_first}
use open_mdm.ModelApi.Versions.{updated_lem, import_existing_lem, import_new_lem, checked_entity-ok}
use open_mdm.ModelIo.Import.{
  ImportDef, apply_import, import_one, import_new, import_existing, with_import,
}
use open_mdm.Models.{Entity, EntityStatus, User}
use open_mdm.Python.{Python, int}
use open_mdm.Python.Str.{lower}
use open_mdm.Base.Int.{pos}
use open_mdm.Registry.{
  entity_exists, no_attributes, Registry, Stored, is_named, find_entity, insert_stored,
  replace_stored, delete_stored, checked_entity, log,
}

abbrev pub same_name : String → String → Bool
same_name a b = b == a

abbrev pub entity_names : List Stored → List String
entity_names es = map (λ (s : Stored). s.entity.name) es

-- Each entity is sound, and no two have one name.
pub record WellFormed (r : Registry) : Type 0 where
  pub sound : All Sound r.entities
  pub names : repeated same_name (entity_names r.entities) ≡ false

any-names :
    (name : String) (es : List Stored)
    → any (is_named name) es ≡ false
    → All (λ k. same_name k name ≡ false) (entity_names es)
any-names name [] h = tt
any-names name (s ∷ es) h = (
  eq_sym s.entity.name name (or_left (s.entity.name == name) (any (is_named name) es) h),
  any-names name es (or_right (s.entity.name == name) (any (is_named name) es) h),
)

insert_stored-WellFormed :
    (s : Stored) (r : Registry) {r' : Registry}
    → Sound s
    → WellFormed r
    → insert_stored s r ≡ ok r'
    → WellFormed r'
unfolding insert_stored
insert_stored-WellFormed s r good w h =
    elim (Bool-cases (any (is_named s.entity.name) r.entities)) [
      | inl t ↦ absurd (cc (rw (insert_stored, t) at h))
      | inr f ↦ subst WellFormed (ok-injective (rw (insert_stored, f) at h)) (record {
        sound = All-append Sound r.entities (s ∷ []) w.sound (good, tt);
        names = rw (map-append (λ (x : Stored). x.entity.name) r.entities (s ∷ [])) (
            repeated-add same_name (entity_names r.entities) s.entity.name w.names
              (any-names s.entity.name r.entities f));
      })
    ]

pub replace_stored-WellFormed :
    (name : String) (s : Stored) (r : Registry)
    → Sound s
    → s.entity.name ≡ name
    → WellFormed r
    → WellFormed (replace_stored name s r)
unfolding replace_stored
replace_stored-WellFormed name s r good same w = record {
  sound = All-update_where Sound (is_named name) (λ _. s) (λ _ _. good) r.entities w.sound;
  names =
      rw
        (map-update_where (λ (x : Stored). x.entity.name) (is_named name) (λ _. s)
          (λ x e. same ∙ sym ((eq_iff x.entity.name name).0 e)) r.entities)
        w.names;
}

pub delete_stored-WellFormed :
    (name : String) (r : Registry) → WellFormed r → WellFormed (delete_stored name r)
unfolding delete_stored
delete_stored-WellFormed name r w = record {
  sound = All-keep Sound (λ s. not (is_named name s)) r.entities w.sound;
  names =
      repeated-keep same_name (λ (x : Stored). x.entity.name) (λ s. not (is_named name s))
        r.entities w.names;
}

-- The row that a handler finds by name.
pub found_row :
    (name : String) (r : Registry) (s : Stored)
    → WellFormed r
    → find_entity name r ≡ some s
    → Sound s × (s.entity.name ≡ name)
found_row name r s w found =
    let (good, named) = All-find_first Sound (is_named name) r.entities s w.sound found in
    (good, (eq_iff s.entity.name name).0 named)

-- A draft in its first version.
abbrev New : Entity → Type 0
New e = (e.version ≡ 1) × (e.status ≡ EntityStatus.draft) × (e.published_version ≡ none)

register-WellFormed :
    (u : User) (count : ℕ) (e : Entity) (r : Registry) {r' : Registry}
    → New e
    → WellFormed r
    → register u count e r ≡ ok r'
    → WellFormed r'
unfolding register
register-WellFormed u count e r (one, draft, never) w h =
    let row = version_row e "Created" u.username in
    let (first, _, shape, good) = insert_first e row one one (rw draft never) in
    let (stored, placed, last) =
      >>=-eq-ok (insert_stored (record { entity = e; versions = row ∷ [] }) r)
        (λ stored.
          ok (log (event u "model_create" e.name (("attributes", int (pos count)) ∷ [])) stored))
        h in
    let w' =
      insert_stored-WellFormed (record { entity = e; versions = row ∷ [] }) r
        (subst Sound shape good) w placed in
    subst WellFormed (ok-injective last) (record { sound = w'.sound; names = w'.names })

module _ (py : Python) (accepts_entity : Entity → Bool) where
  pub create-WellFormed :
      (p : EntityIn) (u : User) (r : Registry) {r' : Registry}
      → WellFormed r
      → create_entity py accepts_entity p u r ≡ ok r'
      → WellFormed r'
  unfolding create_entity new_entity
  create-WellFormed p u r w h =
      let (name, _, h1) = >>=-eq-ok (rejected (validate_ident py p.name)) _ h in
      let (_, _, h2) = >>=-eq-ok (rejected (check_columns py p.attributes)) _ h1 in
      let (_, _, h3) = >>=-eq-ok (raise_if (any (is_named name) r.entities) entity_exists) _ h2 in
      let (_, _, h4) = >>=-eq-ok (raise_if (is_empty p.attributes) no_attributes) _ h3 in
      let (e, checked, h5) =
        >>=-eq-ok (checked_entity accepts_entity (new_entity py name p)) _ h4 in
      let same = checked_entity-ok accepts_entity (new_entity py name p) checked in
      register-WellFormed u (length p.attributes) e r (subst New same (refl, refl, refl)) w h5

  pub change-WellFormed :
      (name : String) (p : EntityIn) (u : User) (r : Registry) {r' : Registry}
      → WellFormed r
      → update_entity py accepts_entity name p u r ≡ ok r'
      → WellFormed r'
  unfolding update_entity with_payload
  change-WellFormed name p u r w h = elim (Option-cases (find_entity (lower py name) r)) [
    | inl none' ↦ absurd (cc (rw (update_entity, none') at h))
    | inr (s, found) ↦
        let (good, named) = found_row (lower py name) r s w found in
        let (s', changed, e) =
          >>=-eq-ok (updated py accepts_entity p u s) _ (rw (update_entity, found) at h) in
        let (_, _, shape, good') = updated_lem py accepts_entity p u s good changed in
        subst WellFormed (ok-injective e) (
          replace_stored-WellFormed (lower py name) s' r good'
            (ap (λ (x : Stored). x.entity.name) shape ∙ named) w)
  ]

module _ (accepts_entity : Entity → Bool) where
  import_one-WellFormed :
      (replace : Bool) (d : ImportDef) (actor : String) (r : Registry) {r' : Registry}
      → WellFormed r
      → import_one accepts_entity replace d actor r ≡ ok r'
      → WellFormed r'
  unfolding import_one with_import
  import_one-WellFormed replace d actor r w h = elim (Option-cases (find_entity d.name r)) [
    | inl none' ↦
        let (s, made, placed) =
          >>=-eq-ok (import_new accepts_entity d actor) _ (rw (import_one, none') at h) in
        let (_, good) = import_new_lem accepts_entity replace d actor made in
        insert_stored-WellFormed s r good w placed
    | inr (s, found) ↦
        let (good, named) = found_row d.name r s w found in
        let (s', changed, e) =
          >>=-eq-ok (import_existing accepts_entity replace d actor s) _
            (rw (import_one, found) at h) in
        let (shape, good') = import_existing_lem accepts_entity replace d actor s good changed in
        subst WellFormed (ok-injective e)
          (replace_stored-WellFormed d.name s' r good' (ap (λ (x : Stored). x.entity.name) shape) w)
  ]

  pub apply_import-WellFormed :
      (replace : Bool) (ds : List ImportDef) (actor : String) (r : Registry) {r' : Registry}
      → WellFormed r
      → apply_import accepts_entity replace ds actor r ≡ ok r'
      → WellFormed r'
  unfolding apply_import
  apply_import-WellFormed replace [] actor r w h = subst WellFormed (ok-injective h) w
  apply_import-WellFormed replace (d ∷ ds) actor r w h =
      let (mid, one, more) = >>=-eq-ok (import_one accepts_entity replace d actor r) _ h in
      apply_import-WellFormed replace ds actor mid (import_one-WellFormed replace d actor r w one)
        more
