-- ===== src/ModelApi/Lifecycle.antt =====
-- app/models/meta.py and app/api/v1/models_api.py: the status and the versions of an entity, and
-- what each handler does to them.
use open_mdm.Base.{
  ℕ, suc, ◌≤◌, ◌<◌, Bool, true, false, ◌≡◌, refl, sym, ◌∙◌, Option, none, some, List, [], ◌∷◌, ◌++◌,
  map, any, repeated, repeated-add, map-update_where, map-append, any-update_where, All, All-append,
  All-update_where, All-map, update_where, eqb, arith,
}
use open_mdm.Base.Results.{ok}
use open_mdm.Models.{Entity, EntityStatus}
use open_mdm.ModelApi.{changed_status}
use open_mdm.Registry.{ModelVersion, Stored, is_version, insert_version}

-- A draft was never published; a published entity was published as it is; a modified one was
-- published at an earlier version. No handler deprecates an entity.
abbrev pub Lifecycle : EntityStatus → ℕ → Option ℕ → Type 0
Lifecycle EntityStatus.draft version published = published ≡ none
Lifecycle EntityStatus.published version published = published ≡ some version
Lifecycle EntityStatus.modified version published =
    (earlier : ℕ) × (published ≡ some earlier) × (earlier < version)
Lifecycle EntityStatus.deprecated version published = ⊥

abbrev pub numbers : List ModelVersion → List ℕ
numbers vs = map (λ (v : ModelVersion). v.version) vs

-- One snapshot for each version, up to the current one, which has one.
pub record Sound (s : Stored) : Type 0 where
  pub lifecycle : Lifecycle s.entity.status s.entity.version s.entity.published_version
  pub bounded : All (λ (v : ModelVersion). v.version ≤ s.entity.version) s.versions
  pub current : any (is_version s.entity.version) s.versions ≡ true
  pub distinct : repeated eqb (numbers s.versions) ≡ false

pub Lifecycle-changed :
    (status : EntityStatus) (version : ℕ) (published : Option ℕ)
    → Lifecycle status version published
    → Lifecycle (changed_status status) (suc version) published
Lifecycle-changed EntityStatus.draft v p h = h
Lifecycle-changed EntityStatus.published v p h = (v, h, omega arith)
Lifecycle-changed EntityStatus.modified v p (q, h, lt) = (q, h, omega arith)
Lifecycle-changed EntityStatus.deprecated v p h = h

eqb_refl : (n : ℕ) → eqb n n ≡ true
eqb_refl n = ground arith

any-new :
    (n : ℕ) (vs : List ModelVersion)
    → All (λ (v : ModelVersion). v.version ≤ n) vs
    → any (is_version (suc n)) vs ≡ false
any-new n [] h = refl
any-new n (v ∷ vs) (le, h) = ground (arith, any-new n vs h)

any-last :
    (n : ℕ) (vs : List ModelVersion) (v : ModelVersion)
    → v.version ≡ n
    → any (is_version n) (vs ++ v ∷ []) ≡ true
any-last n [] v e = ground arith
any-last n (w ∷ vs) v e = ground (arith, any-last n vs v e)

fresh_numbers :
    (n : ℕ) (vs : List ModelVersion)
    → All (λ (v : ModelVersion). v.version ≤ n) vs
    → All (λ k. eqb k (suc n) ≡ false) (numbers vs)
fresh_numbers n [] h = tt
fresh_numbers n (v ∷ vs) (le, h) = (ground arith, fresh_numbers n vs h)

-- The next version of a sound entity is recorded, and never collides.
pub insert_next :
    (s : Stored) (e : Entity) (v : ModelVersion)
    → Sound s
    → e.version ≡ suc s.entity.version
    → v.version ≡ suc s.entity.version
    → Lifecycle e.status e.version e.published_version
    → (s' : Stored) × (insert_version v (record s { entity = e }) ≡ ok s')
      × (s' ≡ record s { entity = e; versions = s.versions ++ v ∷ [] })
      × Sound s'
unfolding insert_version
insert_next s e v sound next now life = (
  record s { entity = e; versions = s.versions ++ v ∷ [] },
  rw (now, any-new s.entity.version s.versions sound.bounded) refl,
  refl,
  record {
    lifecycle = life;
    bounded =
        All-append (λ (w : ModelVersion). w.version ≤ e.version) s.versions (v ∷ [])
          (All-map (λ (w : ModelVersion). w.version ≤ s.entity.version)
            (λ (w : ModelVersion). w.version ≤ e.version) (λ w le. omega (arith, next)) s.versions
            sound.bounded)
          (omega (arith, next, now), tt);
    current = any-last e.version s.versions v (now ∙ sym next);
    distinct =
        rw (map-append (λ (w : ModelVersion). w.version) s.versions (v ∷ []), now)
          (repeated-add eqb (numbers s.versions) (suc s.entity.version) sound.distinct
            (fresh_numbers s.entity.version s.versions sound.bounded));
  },
)

-- The first version of a new entity.
pub insert_first :
    (e : Entity) (v : ModelVersion)
    → e.version ≡ 1
    → v.version ≡ 1
    → Lifecycle e.status e.version e.published_version
    → (s : Stored) × (insert_version v (record { entity = e; versions = [] }) ≡ ok s)
      × (s ≡ record { entity = e; versions = v ∷ [] })
      × Sound s
unfolding insert_version
insert_first e v one now life = (
  record { entity = e; versions = v ∷ [] },
  refl,
  refl,
  record {
    lifecycle = life;
    bounded = (omega (arith, one, now), tt);
    current = any-last e.version [] v (now ∙ sym one);
    distinct = refl;
  },
)

module _ (f : ModelVersion → ModelVersion)
    (same : (v : ModelVersion) → (f v).version ≡ v.version) where
  -- A change of rows that leaves their numbers alone.
  pub Sound-rows :
      (s : Stored) (e : Entity) (p : ModelVersion → Bool)
      → Sound s
      → e.version ≡ s.entity.version
      → Lifecycle e.status e.version e.published_version
      → Sound (record { entity = e; versions = update_where p f s.versions })
  Sound-rows s e p sound as_before life = record {
    lifecycle = life;
    bounded =
        All-update_where (λ (w : ModelVersion). w.version ≤ e.version) p f
          (λ w le. omega (arith, same w)) s.versions (rw as_before sound.bounded);
    current =
        any-update_where (is_version e.version) p f (λ w. rw (same w) refl) s.versions
        ∙ (rw as_before sound.current);
    distinct =
        rw (map-update_where (λ (w : ModelVersion). w.version) p f (λ w _. same w) s.versions)
          sound.distinct;
  }
