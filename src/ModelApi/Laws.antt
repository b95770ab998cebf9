-- ===== src/ModelApi/Laws.antt =====
-- app/api/v1/models_api.py: what the requests to the model API guarantee, one by one and in sequence.
use open_mdm.Base.{
  ℕ, String, Bool, true, false, not, ◌&&◌, ◌≡◌, refl, sym, ap, ◌∙◌, ◌⊎◌, inl, inr, none, some,
  some-injective, List, [], ◌∷◌, subst, Bool-cases, Option-cases,
}
use open_mdm.Base.Results.{Result, ok, err, >>=-eq-ok, ok-injective, Result-cases}
use open_mdm.Ddl.{Tier, ColumnDef, Statement, is_destructive, columns_from_entity, plan_of}
use open_mdm.Ddl.Catalog.{Catalog, apply_plan, table_of}
use open_mdm.Ddl.Deployed.{Deployed, Distinct}
use open_mdm.Ddl.Deployed.Convergence.{build_create_plan-alter}
use open_mdm.Ddl.Catalog.Effects.{Has}
use open_mdm.Ddl.Deployed.Stale.{create_plan_stale}
use open_mdm.Ddl.Deployed.Migration.{build_alter_plan-deploys}
use open_mdm.Identifiers.{validate_ident}
use open_mdm.ModelApi.Events.{
  Request, create, change, publish, remove, import, Platform, committed, respond, serve,
}
use open_mdm.ModelApi.Publish.{
  PublishRequest, plan_for, publish_entity, drop_tables_of, delete_found, delete_entity,
}
use open_mdm.ModelApi.Publishing.{Published, failed, previewed, published, publish-Ending}
use open_mdm.ModelApi.Registered.{
  WellFormed, create-WellFormed, change-WellFormed, apply_import-WellFormed,
  delete_stored-WellFormed,
}
use open_mdm.ModelIo.Import.{ImportDef, apply_import, import_models}
use open_mdm.Models.{Entity, EntityStatus, User, is_deployed}
use open_mdm.Python.{Python}
use open_mdm.Python.Str.{lower}
use open_mdm.Registry.{ApiError, Registry, Stored, find_entity}

-- A publish that succeeds and is no dry run is complete: the plan was built from the tables as they
-- were, was confirmed if it had destructive items, and was applied to the tables; the entity is
-- published at its version, has as many versions as before, and the row of that version holds the
-- statements that were executed.
pub publish_succeeds :
    (accepts : Catalog → Statement → Bool) (py : Python) (name : String) (req : PublishRequest)
    (u : User) (now : ℕ) (db : Catalog) (r r' : Registry)
    → WellFormed r
    → req.dry_run ≡ false
    → (publish_entity accepts py name req u now db r).result ≡ ok r'
    → Published accepts py
        (lower py name)
        req
        now
        db
        (publish_entity accepts py name req u now db r).catalog
        r
        r'
publish_succeeds accepts py name req u now db r r' w wet h =
    elim (publish-Ending accepts py req u now name db r w) [
      | failed _ _ done ↦ absurd (cc)
      | previewed dry _ _ ↦ absurd (cc)
      | published r'' done p _ ↦
          subst
            (Published accepts py (lower py name) req now db
              (publish_entity accepts py name req u now db r).catalog r)
            (ok-injective (sym done ∙ h)) p
    ]

no_confirmation : (a b : Bool) → b ≡ false → a && not b ≡ false → a ≡ false
no_confirmation true b h k = absurd (cc (rw h at k))
no_confirmation false b h k = refl

-- A publish without confirmation, of an entity that is deployed or has no tables yet, makes the
-- tables implement its model if it succeeds, provided that the names of its columns differ.
pub publish_deploys :
    (accepts : Catalog → Statement → Bool) (py : Python) (name : String) (req : PublishRequest)
    (u : User) (now : ℕ) (db : Catalog) (r r' : Registry) (s : Stored) (n : String)
    (cols : List ColumnDef)
    → WellFormed r
    → find_entity (lower py name) r ≡ some s
    → validate_ident py s.entity.name ≡ ok n
    → columns_from_entity py s.entity ≡ ok cols
    → Distinct cols
    → (is_deployed s.entity ≡ true)
      ⊎ ((is_deployed s.entity ≡ false) × ((tier : Tier) → table_of db tier n ≡ none))
    → req.dry_run ≡ false
    → req.confirm_destructive ≡ false
    → (publish_entity accepts py name req u now db r).result ≡ ok r'
    → Deployed py n cols (publish_entity accepts py name req u now db r).catalog
unfolding plan_for apply_plan
publish_deploys accepts py name req u now db r r' s n cols w found named columns distinct tables wet
      unconfirmed h =
    let p = publish_succeeds accepts py name req u now db r r' w wet h in
    let same : p.before ≡ s = some-injective p.before s (sym p.found ∙ found) in
    let safe =
      no_confirmation (is_destructive p.plan) req.confirm_destructive unconfirmed p.confirmed in
    let planned = subst (λ (x : Stored). plan_for py db x.entity ≡ ok p.plan) same p.planned in
    elim tables [
      | inl deployed ↦
          build_alter_plan-deploys accepts py db
            (publish_entity accepts py name req u now db r).catalog s.entity n cols p.plan
            req.confirm_destructive named columns distinct (rw (plan_for, deployed) at planned) safe
            p.applied
      | inr (draft, gone) ↦
          build_alter_plan-deploys accepts py db
            (publish_entity accepts py name req u now db r).catalog s.entity n cols
            (plan_of p.plan.statements) false named columns distinct
            (build_create_plan-alter py db s.entity (λ t m valid.
                subst (λ x. table_of db t x ≡ none) (ok-injective (sym named ∙ valid)) (gone t))
              ∙ (rw (rw (plan_for, draft) at planned) refl))
            refl (rw (apply_plan, safe) at p.applied)
    ]

-- A draft whose four tables are still there, because an entity of its name was deleted without them,
-- can be published, and then counts as published, but its tables are left as they were, whatever
-- its columns are.
pub publish_stale :
    (accepts : Catalog → Statement → Bool) (py : Python) (name : String) (req : PublishRequest)
    (u : User) (now : ℕ) (db : Catalog) (r r' : Registry) (s : Stored) (n : String)
    → WellFormed r
    → find_entity (lower py name) r ≡ some s
    → is_deployed s.entity ≡ false
    → validate_ident py s.entity.name ≡ ok n
    → ((tier : Tier) → Has tier n (λ t. Unit {0}) db)
    → req.dry_run ≡ false
    → (publish_entity accepts py name req u now db r).result ≡ ok r'
    → (s' : Stored) × (find_entity (lower py name) r' ≡ some s')
      × (s'.entity.status ≡ EntityStatus.published)
      × ((publish_entity accepts py name req u now db r).catalog ≡ db)
unfolding plan_for apply_plan
publish_stale accepts py name req u now db r r' s n w found draft named tables wet h =
    let p = publish_succeeds accepts py name req u now db r r' w wet h in
    let same : p.before ≡ s = some-injective p.before s (sym p.found ∙ found) in
    let planned = subst (λ (x : Stored). plan_for py db x.entity ≡ ok p.plan) same p.planned in
    (
      p.after,
      p.stored,
      ap (λ (e : Entity). e.status) p.entity,
      create_plan_stale accepts py db (publish_entity accepts py name req u now db r).catalog
          s.entity n p.plan named tables (rw (plan_for, draft) at planned)
          (rw (apply_plan, p.confirmed) at p.applied),
    )

-- A deletion changes tables only if it asks to drop them and is confirmed; without the
-- confirmation it fails.
pub delete_keeps_tables :
    (accepts : Catalog → Statement → Bool) (py : Python) (name : String)
    (drop_tables confirm : Bool) (u : User) (db : Catalog) (r : Registry)
    → drop_tables && confirm ≡ false
    → (delete_entity accepts py name drop_tables confirm u db r).catalog ≡ db
unfolding delete_entity delete_found drop_tables_of
delete_keeps_tables accepts py name drop_tables confirm u db r h =
    elim (Option-cases (find_entity (lower py name) r)) [
      | inl none' ↦ rw (delete_entity, none') refl
      | inr (s, found) ↦ elim (Bool-cases drop_tables) [
        | inl t ↦ elim (Bool-cases confirm) [
          | inl c ↦ absurd (cc (rw (t, c) at h))
          | inr c ↦ rw (delete_entity, found, t, c) refl
        ]
        | inr f ↦ rw (delete_entity, found, f) refl
      ]
    ]

import-WellFormed :
    (accepts_entity : Entity → Bool) (dry_run replace : Bool) (defs : List ImportDef) (u : User)
    (r : Registry) {r' : Registry}
    → WellFormed r
    → import_models accepts_entity dry_run replace defs u r ≡ ok r'
    → WellFormed r'
unfolding import_models
import-WellFormed accepts_entity true replace defs u r w h = subst WellFormed (ok-injective h) w
import-WellFormed accepts_entity false replace defs u r w h =
    let (r'', done, last) = >>=-eq-ok (apply_import accepts_entity replace defs u.username r) _ h in
    let w' = apply_import-WellFormed accepts_entity replace defs u.username r w done in
    subst WellFormed (ok-injective last) (record { sound = w'.sound; names = w'.names })

module _ (py : Python) (accepts_entity : Entity → Bool) (accepts : Catalog → Statement → Bool) where
  remove-WellFormed :
      (name : String) (drop_tables confirm : Bool) (u : User) (db : Catalog) (r : Registry)
      {r' : Registry}
      → WellFormed r
      → (delete_entity accepts py name drop_tables confirm u db r).result ≡ ok r'
      → WellFormed r'
  unfolding delete_entity delete_found
  remove-WellFormed name drop_tables confirm u db r w h =
      elim (Option-cases (find_entity (lower py name) r)) [
        | inl none' ↦ absurd (cc (rw (delete_entity, none') at h))
        | inr (s, found) ↦ elim (Bool-cases (drop_tables && not confirm)) [
          | inl t ↦ absurd (cc (rw (delete_entity, found, t) at h))
          | inr f ↦ elim (Result-cases (drop_tables_of accepts py drop_tables s.entity db)) [
            | inr (e, failed') ↦
                absurd (cc (rw (delete_entity, found, f, delete_found, failed') at h))
            | inl (db', dropped) ↦
                let w' = delete_stored-WellFormed s.entity.name r w in
                subst WellFormed
                  (ok-injective (rw (delete_entity, found, f, delete_found, dropped) at h))
                  (record { sound = w'.sound; names = w'.names })
          ]
        ]
      ]

  respond-WellFormed :
      (u : User) (request : Request) (s : Platform)
      → WellFormed s.registry
      → WellFormed (committed s.registry (respond py accepts_entity accepts u request s).result)
  unfolding respond
  respond-WellFormed u request s w = go (respond py accepts_entity accepts u request s).result refl
    where
      kept :
          (request : Request) (r' : Registry)
          → (respond py accepts_entity accepts u request s).result ≡ ok r'
          → WellFormed r'
      kept (create p) r' h = create-WellFormed py accepts_entity p u s.registry w h
      kept (change name p) r' h = change-WellFormed py accepts_entity name p u s.registry w h
      kept (publish name req now) r' h =
          elim (publish-Ending accepts py req u now name s.catalog s.registry w) [
            | failed _ _ done ↦ absurd (cc)
            | previewed _ _ done ↦ subst WellFormed (ok-injective (sym done ∙ h)) w
            | published _ done _ w' ↦ subst WellFormed (ok-injective (sym done ∙ h)) w'
          ]
      kept (remove name drop_tables confirm) r' h =
          remove-WellFormed name drop_tables confirm u s.catalog s.registry w h
      kept (import dry_run replace defs) r' h =
          import-WellFormed accepts_entity dry_run replace defs u s.registry w h

      go :
          (res : Result ApiError Registry)
          → (respond py accepts_entity accepts u request s).result ≡ res
          → WellFormed (committed s.registry res)
      go (ok r') h = kept request r' h
      go (err e) h = w

  -- From well-formed metadata on, and so from empty tables, whatever requests come in whatever order: no two entities have one name;
  -- a draft was never published, a published entity is published at its version, a modified one at
  -- an earlier version, and none is deprecated; an entity has no two versions of one number, none
  -- beyond its own, and one of its own.
  pub serve-WellFormed :
      (requests : List (User × Request)) (s : Platform)
      → WellFormed s.registry
      → WellFormed (serve py accepts_entity accepts requests s).registry
  unfolding serve
  serve-WellFormed [] s w = w
  serve-WellFormed ((u, request) ∷ more) s w =
      serve-WellFormed more _ (respond-WellFormed u request s w)
