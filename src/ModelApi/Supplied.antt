-- ===== src/ModelApi/Supplied.antt =====
-- app/api/v1/models_api.py, `update_entity`: the attributes that a payload overwrites or adds.
use open_mdm.Base.{
  ℕ, suc, String, true, false, ◌≡◌, refl, sym, ap, ◌∙◌, inl, inr, Option, some, List, [], ◌∷◌, Dict,
  lookup, insert, any, All, Bool-cases, Option-cases, subst, eqb, ◌==◌, eq_iff, some-injective,
}
use open_mdm.Base.Results.{ok, >>=-eq-ok, ok-injective}
use open_mdm.Base.Text.{is_empty_text}
use open_mdm.ModelApi.{
  AttributeIn, or_title, or_index, attribute_of, incoming_from, numbered, overwrite, kept, added,
}
use open_mdm.Models.{Attribute}
use open_mdm.Python.{Python}

pub data Among (a : AttributeIn) : List AttributeIn → Type 0 where
  here : (as' : List AttributeIn) → Among a (a ∷ as')
  there : (b : AttributeIn) (as' : List AttributeIn) → Among a as' → Among a (b ∷ as')

-- An attribute that a payload supplies: one of the payload's, in all its fields, with its position
-- and its display name if it has them.
pub record Supplied (payload : List AttributeIn) (x : Attribute) : Type 0 where
  pub source : AttributeIn
  pub among : Among source payload
  pub fields : x ≡ record {
    name = source.name;
    display_name = x.display_name;
    description = source.description;
    position = x.position;
    data_type = source.data_type;
    length = source.length;
    numeric_precision = source.numeric_precision;
    numeric_scale = source.numeric_scale;
    is_required = source.is_required;
    is_unique = source.is_unique;
    is_business_key = source.is_business_key;
    is_match_key = source.is_match_key;
    is_indexed = source.is_indexed;
    is_pii = source.is_pii;
    default_value = source.default_value;
    validation = source.validation;
    normalization = source.normalization;
    ref_entity = source.ref_entity;
    ref_attribute = source.ref_attribute;
  }
  pub position : eqb source.position 0 ≡ false → x.position ≡ source.position
  pub shown :
      (d : String) → source.display_name ≡ some d → is_empty_text d ≡ false → x.display_name ≡ d

or_index-given : (idx position : ℕ) → eqb position 0 ≡ false → or_index idx position ≡ position
unfolding or_index
or_index-given idx position h = rw h refl

or_title-given :
    (py : Python) (name : String) (o : Option String) (d : String)
    → o ≡ some d
    → is_empty_text d ≡ false
    → or_title py name o ≡ d
unfolding or_title
or_title-given py name o d given text = rw (given, or_title, text) refl

attribute_of-Supplied :
    (payload : List AttributeIn) (a : AttributeIn) (idx : ℕ) (name : String)
    → Among a payload
    → ((d : String) → a.display_name ≡ some d → is_empty_text d ≡ false → name ≡ d)
    → Supplied payload (attribute_of a idx name)
unfolding attribute_of
attribute_of-Supplied payload a idx name within shown = record {
  source = a;
  among = within;
  fields = refl;
  position = or_index-given idx a.position;
  shown = shown;
}

-- An entry of the payload by its name.
abbrev pub Entry : List AttributeIn → String × AttributeIn → Type 0
Entry payload kv = (kv.1.name ≡ kv.0) × Among kv.1 payload

-- Such an entry, with its place.
abbrev pub Placed : List AttributeIn → String × (ℕ × AttributeIn) → Type 0
Placed payload kv = Entry payload (kv.0, kv.1.1)

insert-All :
    (P : String × AttributeIn → Type 0) (k : String) (v : AttributeIn) (d : Dict AttributeIn)
    → P (k, v)
    → All P d
    → All P (insert k v d)
insert-All P k v [] p h = (p, tt)
insert-All P k v ((j, w) ∷ d) p (q, h) = elim (Bool-cases (j == k)) [
  | inl t ↦ rw t (subst (λ x. P (x, v)) (sym ((eq_iff j k).0 t)) p, h)
  | inr f ↦ rw f (q, insert-All P k v d p h)
]

pub incoming_from-All :
    (payload : List AttributeIn) (d : Dict AttributeIn) (as' : List AttributeIn)
    → ((a : AttributeIn) → Among a as' → Among a payload)
    → All (Entry payload) d
    → All (Entry payload) (incoming_from d as')
unfolding incoming_from
incoming_from-All payload d [] sub h = h
incoming_from-All payload d (a ∷ as') sub h =
    incoming_from-All payload (insert a.name a d) as' (λ b m. sub b (there a as' m))
      (insert-All (Entry payload) a.name a d (refl, sub a (here as')) h)

pub numbered-All :
    (payload : List AttributeIn) (idx : ℕ) (d : Dict AttributeIn)
    → All (Entry payload) d
    → All (Placed payload) (numbered idx d)
unfolding numbered
numbered-All payload idx [] h = tt
numbered-All payload idx ((k, a) ∷ d) (p, h) = (p, numbered-All payload (suc idx) d h)

lookup-Placed :
    (payload : List AttributeIn) (k : String) (d : Dict (ℕ × AttributeIn)) {v : ℕ × AttributeIn}
    → All (Placed payload) d
    → lookup k d ≡ some v
    → Entry payload (k, v.1)
lookup-Placed payload k [] h e = absurd (cc)
lookup-Placed payload k ((j, w) ∷ d) (p, h) e = elim (Bool-cases (j == k)) [
  | inl t ↦
      subst (λ (x : ℕ × AttributeIn). Entry payload (k, x.1)) (some-injective _ _ (rw t at e))
        (subst (λ x. Entry payload (x, w.1)) ((eq_iff j k).0 t) p)
  | inr f ↦ lookup-Placed payload k d h (rw f at e)
]

-- An attribute that the payload overwrites.
overwrite-ok :
    (payload : List AttributeIn) (idx : ℕ) (a : AttributeIn) {x : Attribute}
    → Among a payload
    → overwrite idx a ≡ ok x
    → Supplied payload x × (x.name ≡ a.name)
unfolding overwrite attribute_of
overwrite-ok payload idx a within h = elim (Option-cases a.display_name) [
  | inl e ↦ absurd (cc (rw (overwrite, e) at h))
  | inr (name, e) ↦
      let same = ok-injective (rw (overwrite, e) at h) in
      (
        subst (Supplied payload) same (
            attribute_of-Supplied payload a idx name within
              (λ d given text. some-injective name d (sym e ∙ given))),
        ap (λ (y : Attribute). y.name) (sym same),
      )
]

module _ (payload : List AttributeIn) (d : Dict (ℕ × AttributeIn))
    (placed : All (Placed payload) d) where
  -- What is kept of the attributes: all supplied, and one of each name that the payload has.
  pub kept-ok :
      (cs xs : List Attribute)
      → kept d cs ≡ ok xs
      → All (Supplied payload) xs
        × ((k : String) (v : ℕ × AttributeIn)
            → lookup k d ≡ some v
            → any (λ (c : Attribute). c.name == k) cs ≡ true
            → any (λ (x : Attribute). x.name == k) xs ≡ true)
  unfolding kept
  kept-ok [] xs h =
      (subst (All (Supplied payload)) (ok-injective h) tt, λ k v found there'. absurd (cc))
  kept-ok (c ∷ cs) xs h = elim (Option-cases (lookup c.name d)) [
    | inl e ↦
        let (supplied, complete) = kept-ok cs xs (rw (kept, e) at h) in
        (
          supplied,
          λ k v found named. elim (Bool-cases (c.name == k)) [
            | inl t ↦ absurd (cc (rw ((eq_iff c.name k).0 t) at e))
            | inr f ↦ complete k v found (rw f at named)
          ],
        )
    | inr ((idx, a), e) ↦
        let (x, one, h1) = >>=-eq-ok (overwrite idx a) _ (rw (kept, e) at h) in
        let (ys, more, h2) = >>=-eq-ok (kept d cs) _ h1 in
        let (same_name, within) = lookup-Placed payload c.name d placed e in
        let (good, named') = overwrite-ok payload idx a within one in
        let (supplied, complete) = kept-ok cs ys more in
        subst
          (λ (zs : List Attribute).
            All (Supplied payload) zs
            × ((k : String) (v : ℕ × AttributeIn)
                → lookup k d ≡ some v
                → any (λ (c : Attribute). c.name == k) (c ∷ cs) ≡ true
                → any (λ (x : Attribute). x.name == k) zs ≡ true))
          (ok-injective h2)
          (
            (good, supplied),
            λ k v found named. elim (Bool-cases (c.name == k)) [
              | inl t ↦ rw (named', same_name, t) refl
              | inr f ↦ rw (named', same_name, f) (complete k v found (rw f at named))
            ],
          )
  ]

  -- What only the payload names.
  pub added-ok :
      (py : Python) (current : List Attribute) (e : Dict (ℕ × AttributeIn))
      → All (Placed payload) e
      → All (Supplied payload) (added py current e)
        × ((k : String) (v : ℕ × AttributeIn)
            → lookup k e ≡ some v
            → any (λ (c : Attribute). c.name == k) current ≡ false
            → any (λ (x : Attribute). x.name == k) (added py current e) ≡ true)
  unfolding added attribute_of
  added-ok py current [] h = (tt, λ k v found new. absurd (cc))
  added-ok py current ((j, (idx, a)) ∷ e) ((named, within), h) =
      let (supplied, complete) = added-ok py current e h in
      elim (Bool-cases (any (λ (c : Attribute). c.name == j) current)) [
        | inl t ↦
            rw (added, t)
              (
                supplied,
                λ k v found new. elim (Bool-cases (j == k)) [
                  | inl same ↦ absurd (cc (rw ((eq_iff j k).0 same, new) at t))
                  | inr other ↦ complete k v (rw other at found) new
                ],
              )
        | inr f ↦
            rw (added, f)
              (
                (
                  attribute_of-Supplied payload a idx (or_title py j a.display_name) within
                      (or_title-given py j a.display_name),
                  supplied,
                ),
                λ k v found new. elim (Bool-cases (j == k)) [
                  | inl same ↦ rw (named, same) refl
                  | inr other ↦ rw (named, other) (complete k v (rw other at found) new)
                ],
              )
      ]
