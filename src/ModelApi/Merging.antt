-- ===== src/ModelApi/Merging.antt =====
-- app/api/v1/models_api.py, `update_entity`: what the merge of a payload's attributes with those of
-- the entity gives.
use open_mdm.Base.{
  ℕ, suc, String, Bool, true, false, ◌||◌, ◌≡◌, refl, ◌∙◌, inl, inr, some, List, [], ◌∷◌, ◌++◌,
  Dict, lookup, insert, any, All, All-append, Bool-cases, subst, ◌==◌, eq_refl, lookup-insert, leb,
}
use open_mdm.Base.Results.{ok, >>=-eq-ok, ok-injective}
use open_mdm.Ddl.{place_attribute, by_position}
use open_mdm.ModelApi.{AttributeIn, incoming_from, numbered, kept, added, merged}
use open_mdm.Models.{Attribute}
use open_mdm.Python.{Python}
use open_mdm.ModelApi.Supplied.{
  Among, here, there, Supplied, incoming_from-All, numbered-All, kept-ok, added-ok,
}

place_attribute-All :
    (P : Attribute → Type 0) (a : Attribute) (bs : List Attribute)
    → P a
    → All P bs
    → All P (place_attribute a bs)
unfolding place_attribute
place_attribute-All P a [] p h = (p, tt)
place_attribute-All P a (b ∷ bs) p (q, h) = elim (Bool-cases (leb a.position b.position)) [
  | inl t ↦ rw (place_attribute, t) (p, (q, h))
  | inr f ↦ rw (place_attribute, f) (q, place_attribute-All P a bs p h)
]

by_position-All :
    (P : Attribute → Type 0) (as' : List Attribute) → All P as' → All P (by_position as')
unfolding by_position
by_position-All P [] h = tt
by_position-All P (a ∷ as') (p, h) =
    place_attribute-All P a (by_position as') p (by_position-All P as' h)

any-place_attribute :
    (p : Attribute → Bool) (a : Attribute) (bs : List Attribute)
    → any p (a ∷ bs) ≡ true
    → any p (place_attribute a bs) ≡ true
unfolding place_attribute
any-place_attribute p a [] h = h
any-place_attribute p a (b ∷ bs) h = elim (Bool-cases (leb a.position b.position)) [
  | inl t ↦ rw (place_attribute, t) h
  | inr f ↦
      rw (place_attribute, f)
        (elim (Bool-cases (p b)) [
          | inl hit ↦ rw hit refl
          | inr miss ↦ rw miss (any-place_attribute p a bs (rw miss at h))
        ])
]

any-by_position :
    (p : Attribute → Bool) (as' : List Attribute)
    → any p as' ≡ true
    → any p (by_position as') ≡ true
unfolding by_position
any-by_position p [] h = h
any-by_position p (a ∷ as') h = any-place_attribute p a (by_position as') (elim (Bool-cases (p a)) [
  | inl hit ↦ rw hit refl
  | inr miss ↦ rw miss (any-by_position p as' (rw miss at h))
])

any-append :
    (p : Attribute → Bool) (xs ys : List Attribute) → any p (xs ++ ys) ≡ (any p xs || any p ys)
any-append p [] ys = refl
any-append p (x ∷ xs) ys = elim (Bool-cases (p x)) [
  | inl hit ↦ rw hit refl
  | inr miss ↦ rw miss (any-append p xs ys)
]

incoming_from-keeps :
    (k : String) (as' : List AttributeIn) (d : Dict AttributeIn) (v : AttributeIn)
    → lookup k d ≡ some v
    → (w : AttributeIn) × (lookup k (incoming_from d as') ≡ some w)
unfolding incoming_from
incoming_from-keeps k [] d v h = (v, h)
incoming_from-keeps k (a ∷ as') d v h = elim (Bool-cases (a.name == k)) [
  | inl t ↦
      incoming_from-keeps k as' (insert a.name a d) a (lookup-insert a.name k a d ∙ (rw t refl))
  | inr f ↦ incoming_from-keeps k as' (insert a.name a d) v (lookup-insert a.name k a d ∙ (rw f h))
]

incoming_from-has :
    {a : AttributeIn} {as' : List AttributeIn} (d : Dict AttributeIn)
    → Among a as'
    → (w : AttributeIn) × (lookup a.name (incoming_from d as') ≡ some w)
unfolding incoming_from
incoming_from-has {a} d (here as') =
    incoming_from-keeps a.name as' (insert a.name a d) a
      (lookup-insert a.name a.name a d ∙ (rw (eq_refl a.name) refl))
incoming_from-has d (there b as' m) = incoming_from-has (insert b.name b d) m

lookup-numbered :
    (k : String) (idx : ℕ) (d : Dict AttributeIn) {v : AttributeIn}
    → lookup k d ≡ some v
    → (w : ℕ × AttributeIn) × (lookup k (numbered idx d) ≡ some w)
unfolding numbered
lookup-numbered k idx [] h = absurd (cc)
lookup-numbered k idx ((j, a) ∷ d) h = elim (Bool-cases (j == k)) [
  | inl t ↦ rw t ((idx, a), refl)
  | inr f ↦ rw f (lookup-numbered k (suc idx) d (rw f at h))
]

All-Among :
    (P : AttributeIn → Type 0) (as' : List AttributeIn)
    → ((a : AttributeIn) → Among a as' → P a)
    → All P as'
All-Among P [] h = tt
All-Among P (a ∷ as') h = (h a (here as'), All-Among P as' (λ b m. h b (there a as' m)))

-- The attributes of the entity after a change: all of them from the payload, and one for each of
-- the payload's.
abbrev pub FromPayload : List AttributeIn → List Attribute → Type 0
FromPayload payload attributes =
    All (Supplied payload) attributes
    × All (λ (a : AttributeIn). any (λ (x : Attribute). x.name == a.name) attributes ≡ true) payload

pub merged-FromPayload :
    (py : Python) (current : List Attribute) (payload : List AttributeIn)
    (attributes : List Attribute)
    → merged py current payload ≡ ok attributes
    → FromPayload payload attributes
unfolding merged
merged-FromPayload py current payload attributes h =
    let entries = incoming_from-All payload [] payload (λ a m. m) tt in
    let placed = numbered-All payload 0 (incoming_from [] payload) entries in
    let d = numbered 0 (incoming_from [] payload) in
    let (old, some_kept, sorted) = >>=-eq-ok (kept d current) _ h in
    let new = added py current d in
    let (supplied_old, complete_old) = kept-ok payload d placed current old some_kept in
    let (supplied_new, complete_new) = added-ok payload d placed py current d placed in
    subst (FromPayload payload) (ok-injective sorted) (
      by_position-All (Supplied payload) (old ++ new)
          (All-append (Supplied payload) old new supplied_old supplied_new),
      All-Among _ payload (λ a m.
          let (w, known) = incoming_from-has [] m in
          let (v, found) = lookup-numbered a.name 0 (incoming_from [] payload) known in
          any-by_position (λ (x : Attribute). x.name == a.name) (old ++ new)
            (any-append (λ (x : Attribute). x.name == a.name) old new
              ∙ either (any (λ (x : Attribute). x.name == a.name) old)
                  (any (λ (c : Attribute). c.name == a.name) current)
                  (any (λ (x : Attribute). x.name == a.name) new) (complete_old a.name v found)
                  (complete_new a.name v found))),
    )
  where
    either :
        (old here' new : Bool)
        → (here' ≡ true → old ≡ true)
        → (here' ≡ false → new ≡ true)
        → (old || new) ≡ true
    either true here' new h k = refl
    either false true new h k = absurd (cc (h refl))
    either false false new h k = k refl
