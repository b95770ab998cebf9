-- ===== src/ModelApi/Publishing.antt =====
-- app/api/v1/models_api.py, `publish_entity`: the tables and the metadata change together.
use open_mdm.Base.{
  ℕ, length, String, Bool, true, false, not, ◌&&◌, ◌≡◌, refl, sym, ap, ◌∙◌, inl, inr, some, List,
  [], ◌∷◌, find_first, All, update_where, subst, Bool-cases, Option-cases, eq_refl,
}
use open_mdm.Base.Results.{ok, err, Result-cases}
use open_mdm.Ddl.{Statement, DdlPlan, is_destructive}
use open_mdm.Ddl.Catalog.{Catalog, apply_plan}
use open_mdm.ModelApi.Publish.{
  PublishRequest, Outcome, plan_for, published_entity, publish_applied, publish_plan, publish_found,
  publish_entity, publish_event,
}
use open_mdm.ModelApi.Registered.{WellFormed, found_row, replace_stored-WellFormed}
use open_mdm.ModelApi.Versions.{publish_stored_records}
use open_mdm.Models.{Entity, User}
use open_mdm.Python.{Python}
use open_mdm.Python.Str.{lower}
use open_mdm.Registry.{
  ApiError, entity_not_found, destructive_changes, ddl_failed, unplanned, Registry, Stored,
  ModelVersion, is_named, is_version, find_entity, replace_stored, log,
}

-- What a publish that changed something did: the plan for the entity was built from the tables,
-- confirmed if it had to be, and applied to them; the entity is published at its version, its
-- versions are as many as before, and the row of the version holds the statements.
pub record Published (accepts : Catalog → Statement → Bool) (py : Python) (name : String)
    (req : PublishRequest) (now : ℕ) (db db' : Catalog) (r r' : Registry) : Type 0 where
  pub before : Stored
  pub after : Stored
  pub plan : DdlPlan
  pub found : find_entity name r ≡ some before
  pub planned : plan_for py db before.entity ≡ ok plan
  pub confirmed : is_destructive plan && not req.confirm_destructive ≡ false
  pub applied : apply_plan accepts plan req.confirm_destructive db ≡ ok db'
  pub stored : find_entity name r' ≡ some after
  pub entity : after.entity ≡ published_entity before.entity now
  pub versions : length after.versions ≡ length before.versions
  pub recorded :
      All
        (λ (v : ModelVersion).
          is_version before.entity.version v ≡ true → v.applied_ddl ≡ some plan.statements)
        after.versions

-- How a publish ends.
pub data Ending (accepts : Catalog → Statement → Bool) (py : Python) (name : String)
    (req : PublishRequest) (now : ℕ) (db : Catalog) (r : Registry) (o : Outcome) : Type 0 where
  failed :
      (e : ApiError) → o.catalog ≡ db → o.result ≡ err e → Ending accepts py name req now db r o
  previewed :
      req.dry_run ≡ true → o.catalog ≡ db → o.result ≡ ok r → Ending accepts py name req now db r o
  published :
      (r' : Registry)
      → o.result ≡ ok r'
      → Published accepts py name req now db o.catalog r r'
      → WellFormed r'
      → Ending accepts py name req now db r o

pub find-replaced :
    (name : String) (s s' : Stored) (r : Registry)
    → find_entity name r ≡ some s
    → s'.entity.name ≡ name
    → find_entity name (replace_stored name s' r) ≡ some s'
unfolding replace_stored
find-replaced name s s' r found same = go r.entities found
  where
    go :
        (es : List Stored)
        → find_first (is_named name) es ≡ some s
        → find_first (is_named name) (update_where (is_named name) (λ _. s') es) ≡ some s'
    go [] h = absurd (cc)
    go (x ∷ xs) h = elim (Bool-cases (is_named name x)) [
      | inl t ↦ rw (t, same, eq_refl name) refl
      | inr f ↦ rw (f, f) (go xs (rw f at h))
    ]

module _ (accepts : Catalog → Statement → Bool) (py : Python) (req : PublishRequest) (u : User)
    (now : ℕ) (name : String) where
  plan-Ending :
      (s : Stored) (plan : DdlPlan) (db : Catalog) (r : Registry)
      → WellFormed r
      → find_entity name r ≡ some s
      → plan_for py db s.entity ≡ ok plan
      → Ending accepts py name req now db r (publish_plan accepts py req plan u now name s db r)
  unfolding publish_plan
  plan-Ending s plan db r w found planned = elim (Bool-cases req.dry_run) [
    | inl dry ↦
        let e : publish_plan accepts py req plan u now name s db r
            ≡ record { catalog = db; result = ok r } =
          rw (publish_plan, dry) refl in
        at e (previewed dry refl refl)
    | inr wet ↦ elim (Bool-cases (is_destructive plan && not req.confirm_destructive)) [
      | inl refuse ↦
          let e : publish_plan accepts py req plan u now name s db r
              ≡ record { catalog = db; result = err (destructive_changes plan.destructive) } =
            rw (publish_plan, wet, refuse) refl in
          at e (failed (destructive_changes plan.destructive) refl refl)
      | inr confirmed ↦ elim (Result-cases (apply_plan accepts plan req.confirm_destructive db)) [
        | inr (x, refused) ↦
            let e : publish_plan accepts py req plan u now name s db r
                ≡ record { catalog = db; result = err (ddl_failed x) } =
              rw (publish_plan, wet, confirmed, refused) refl in
            at e (failed (ddl_failed x) refl refl)
        | inl (db', applied) ↦
            let (good, named) = found_row name r s w found in
            let (s', recorded, entity, versions, ddl, good') =
              publish_stored_records req plan u now s good in
            let e : publish_plan accepts py req plan u now name s db r ≡ record {
              catalog = db';
              result = publish_applied accepts py req plan u now name s r;
            } =
              rw (publish_plan, wet, confirmed, applied) refl in
            let same = ap (λ (x : Entity). x.name) entity ∙ named in
            let w' = replace_stored-WellFormed name s' r good' same w in
            at e (
              published (log (publish_event u name plan) (replace_stored name s' r))
                (rw (publish_applied, recorded) refl)
                (record {
                  before = s;
                  after = s';
                  plan = plan;
                  found = found;
                  planned = planned;
                  confirmed = confirmed;
                  applied = applied;
                  stored = find-replaced name s s' r found same;
                  entity = entity;
                  versions = versions;
                  recorded = ddl;
                })
                (record { sound = w'.sound; names = w'.names }))
      ]
    ]
  ]
    where
      at :
          {o : Outcome}
          → publish_plan accepts py req plan u now name s db r ≡ o
          → Ending accepts py name req now db r o
          → Ending accepts py name req now db r (publish_plan accepts py req plan u now name s db r)
      at e end = subst (Ending accepts py name req now db r) (sym e) end

module _ (accepts : Catalog → Statement → Bool) (py : Python) (req : PublishRequest) (u : User)
    (now : ℕ) (name : String) where
  pub publish-Ending :
      (db : Catalog) (r : Registry)
      → WellFormed r
      → Ending accepts py
          (lower py name)
          req
          now
          db
          r
          (publish_entity accepts py name req u now db r)
  unfolding publish_entity publish_found
  publish-Ending db r w = elim (Option-cases (find_entity (lower py name) r)) [
    | inl none' ↦
        let e : publish_entity accepts py name req u now db r
            ≡ record { catalog = db; result = err entity_not_found } =
          rw (publish_entity, none') refl in
        subst (Ending accepts py (lower py name) req now db r) (sym e)
          (failed entity_not_found refl refl)
    | inr (s, found) ↦ elim (Result-cases (plan_for py db s.entity)) [
      | inr (x, unbuilt) ↦
          let e : publish_entity accepts py name req u now db r
              ≡ record { catalog = db; result = err (unplanned x) } =
            rw (publish_entity, found, publish_found, unbuilt) refl in
          subst (Ending accepts py (lower py name) req now db r) (sym e)
            (failed (unplanned x) refl refl)
      | inl (plan, planned) ↦
          let e : publish_entity accepts py name req u now db r
              ≡ publish_plan accepts py req plan u now (lower py name) s db r =
            rw (publish_entity, found, publish_found, planned) refl in
          subst (Ending accepts py (lower py name) req now db r) (sym e)
            (plan-Ending accepts py req u now (lower py name) s plan db r w found planned)
    ]
  ]
