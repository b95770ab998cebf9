-- ===== src/ModelApi/Versions.antt =====
-- app/api/v1/models_api.py and app/services/model_io.py: what a change, an import and a publish do to
-- the row of an entity and its versions.
use open_mdm.Base.{
  ℕ, String, Bool, true, not, ◌||◌, ◌≡◌, refl, sym, ap, ◌∙◌, inl, inr, some, List, [], ◌∷◌, ◌++◌,
  All, update_where, length, length-update_where, subst, Bool-cases,
}
use open_mdm.Base.Results.{ok, >>=-eq-ok, ok-injective}
use open_mdm.Ddl.{DdlPlan}
use open_mdm.ModelApi.{
  EntityIn, rejected, check_columns, merged, with_payload, version_row, updated,
}
use open_mdm.ModelApi.Lifecycle.{Sound, Lifecycle-changed, insert_next, insert_first, Sound-rows}
use open_mdm.ModelApi.Publish.{
  PublishRequest, published_entity, record_ddl, publish_stored, with_ddl, published_note,
}
use open_mdm.ModelIo.Import.{
  ImportDef, with_import, import_existing, import_new, imported_entity, note,
}
use open_mdm.Models.{Attribute, Entity, User}
use open_mdm.Python.{Python}
use open_mdm.Registry.{ModelVersion, Stored, is_version, checked_entity, repeats}

pub checked_entity-ok :
    (accepts : Entity → Bool) (e : Entity) {e' : Entity} → checked_entity accepts e ≡ ok e' → e ≡ e'
unfolding checked_entity
checked_entity-ok accepts e h = elim (Bool-cases (repeats e.attributes || not (accepts e))) [
  | inl t ↦ absurd (cc (rw (checked_entity, t) at h))
  | inr f ↦ ok-injective (rw (checked_entity, f) at h)
]

module _ (py : Python) (accepts : Entity → Bool) where
  -- The row after a change: with the next version and a snapshot of it.
  abbrev pub changed_row : EntityIn → User → List Attribute → Stored → Stored
  changed_row p principal attributes s =
      let e = with_payload p attributes s.entity in
      record {
        entity = e;
        versions = s.versions ++ version_row e "Updated via API" principal.username ∷ [];
      }

  -- A successful change.
  pub updated_lem :
      (p : EntityIn) (principal : User) (s : Stored) {s' : Stored}
      → Sound s
      → updated py accepts p principal s ≡ ok s'
      → (attributes : List Attribute) × (merged py s.entity.attributes p.attributes ≡ ok attributes)
        × (s' ≡ changed_row p principal attributes s)
        × Sound s'
  unfolding updated with_payload
  updated_lem p principal s sound h =
      let (_, _, h1) = >>=-eq-ok (rejected (check_columns py p.attributes)) _ h in
      let (attributes, joined, h2) = >>=-eq-ok (merged py s.entity.attributes p.attributes) _ h1 in
      let (e, checked, h3) =
        >>=-eq-ok (checked_entity accepts (with_payload p attributes s.entity)) _ h2 in
      let same = checked_entity-ok accepts (with_payload p attributes s.entity) checked in
      let (next, inserted, shape, good) =
        insert_next s (with_payload p attributes s.entity)
          (version_row (with_payload p attributes s.entity) "Updated via API" principal.username)
          sound refl refl
          (Lifecycle-changed s.entity.status s.entity.version s.entity.published_version
            sound.lifecycle) in
      let e' : next ≡ _ = ok-injective (sym inserted ∙ (rw (← same) at h3)) in
      (attributes, joined, sym e' ∙ shape, subst Sound e' good)

ddl_recorded :
    (plan : DdlPlan) (note : String) (n : ℕ) (vs : List ModelVersion)
    → All
        (λ (v : ModelVersion). is_version n v ≡ true → v.applied_ddl ≡ some plan.statements)
        (update_where (is_version n) (with_ddl plan note) vs)
ddl_recorded plan note n [] = tt
ddl_recorded plan note n (v ∷ vs) = elim (Bool-cases (is_version n v)) [
  | inl t ↦ rw t ((λ _. refl), ddl_recorded plan note n vs)
  | inr f ↦ rw f ((λ t. absurd (cc)), ddl_recorded plan note n vs)
]

-- A publish of a sound entity, once the tables are changed, is always recorded: the entity becomes
-- published at its version, no version is added, and the row of the version holds the DDL.
pub publish_stored_records :
    (req : PublishRequest) (plan : DdlPlan) (principal : User) (now : ℕ) (s : Stored)
    → Sound s
    → (s' : Stored) × (publish_stored req plan principal now s ≡ ok s')
      × (s'.entity ≡ published_entity s.entity now)
      × (length s'.versions ≡ length s.versions)
      × All
          (λ (v : ModelVersion).
            is_version s.entity.version v ≡ true → v.applied_ddl ≡ some plan.statements)
          s'.versions
      × Sound s'
unfolding publish_stored record_ddl
publish_stored_records req plan principal now s sound =
    let e = published_entity s.entity now in
    let f = with_ddl plan (published_note req.change_note) in
    (
      record { entity = e; versions = update_where (is_version s.entity.version) f s.versions },
      rw sound.current refl,
      refl,
      length-update_where (is_version s.entity.version) f s.versions,
      ddl_recorded plan (published_note req.change_note) s.entity.version s.versions,
      Sound-rows f (λ v. refl) s e (is_version s.entity.version) sound refl refl,
    )

module _ (accepts : Entity → Bool) (replace : Bool) (d : ImportDef) (actor : String) where
  abbrev pub imported_row : Stored → Stored
  imported_row s =
      let e = with_import replace d s.entity in
      record {
        entity = e;
        versions = s.versions ++ version_row e (note "updated" actor) actor ∷ [];
      }

  -- A successful import of an entity that exists.
  pub import_existing_lem :
      (s : Stored) {s' : Stored}
      → Sound s
      → import_existing accepts replace d actor s ≡ ok s'
      → (s' ≡ imported_row s) × Sound s'
  unfolding import_existing with_import
  import_existing_lem s sound h =
      let e = with_import replace d s.entity in
      let (_, checked, h1) = >>=-eq-ok (checked_entity accepts e) _ h in
      let same = checked_entity-ok accepts e checked in
      let (next, inserted, shape, good) =
        insert_next s e (version_row e (note "updated" actor) actor) sound refl refl (
          Lifecycle-changed s.entity.status s.entity.version s.entity.published_version
            sound.lifecycle) in
      let same' : next ≡ _ = ok-injective (sym inserted ∙ (rw (← same) at h1)) in
      (sym same' ∙ shape, subst Sound same' good)

  pub import_new_lem :
      {s : Stored} → import_new accepts d actor ≡ ok s → (s.entity ≡ imported_entity d) × Sound s
  unfolding import_new
  import_new_lem h =
      let e = imported_entity d in
      let (_, checked, h1) = >>=-eq-ok (checked_entity accepts e) _ h in
      let same = checked_entity-ok accepts e checked in
      let (next, inserted, shape, good) =
        insert_first e (version_row e (note "created" actor) actor) refl refl refl in
      let same' : next ≡ _ = ok-injective (sym inserted ∙ (rw (← same) at h1)) in
      (ap (λ (x : Stored). x.entity) (sym same' ∙ shape), subst Sound same' good)
