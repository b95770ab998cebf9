-- ===== src/Validation/Record/Laws.antt =====
-- What `validate_record` guarantees of the values and the errors that it returns.
use text.Mathlib.Text.{starts_with}
use mathlib.Core.Option.{some-injective}
use open_mdm.Base.{
  ap, sym, ◌∙◌, String, ◌≡◌, refl, inl, inr, Bool, true, false, not, ◌&&◌, ◌||◌, Option, none, some,
  [], ◌∷◌, ◌++◌, Dict, lookup, has_key, is_empty, ◌==◌, arith, eq_iff, Bool-cases, if◌then◌else◌,
}
use open_mdm.Base.Results.{Result, ok, err}
use open_mdm.Models.{Attribute, Entity}
use open_mdm.Python.{Python, Value, null, is_null}
use open_mdm.Validation.{Coerced}
use open_mdm.Validation.Constraints.{Failure, Errors, check_constraints}
use open_mdm.Validation.Record.{
  Outcome, known, unknown_fields, Step, keep_value, add_value, join, with_default, checked,
  after_coercion, coerced_input, field_step, field_values, outcome, validate_record,
}

append-nil-left : (xs ys : Errors) → (xs ++ ys) ≡ [] → xs ≡ []
append-nil-left [] ys h = refl
append-nil-left (x ∷ xs) ys h = absurd (cc)

append-nil-right : (xs ys : Errors) → (xs ++ ys) ≡ [] → ys ≡ []
append-nil-right [] ys h = h
append-nil-right (x ∷ xs) ys h = absurd (cc)

-- A successful `join` has two successful parts.
record Joined (name : String) (a : Result Failure Step) (b : Result Failure (Dict Value × Errors))
    (values : Dict Value) (errors : Errors) : Type 0 where
  value : Option Value
  own : Errors
  rest_values : Dict Value
  rest_errors : Errors
  first : a ≡ ok (value, own)
  later : b ≡ ok (rest_values, rest_errors)
  all_values : values ≡ add_value name value rest_values
  all_errors : errors ≡ own ++ rest_errors

join-Joined :
    (name : String) (a : Result Failure Step) (b : Result Failure (Dict Value × Errors))
    (values : Dict Value) (errors : Errors)
    → join name a b ≡ ok (values, errors)
    → Joined name a b values errors
join-Joined name (err f) b values errors h = absurd (cc)
join-Joined name (ok (v, e)) (err f) values errors h = absurd (cc)
join-Joined name (ok (v, e)) (ok (vs, es)) values errors h = record {
  value = v;
  own = e;
  rest_values = vs;
  rest_errors = es;
  first = refl;
  later = refl;
  all_values = cc;
  all_errors = cc;
}

null-eq : (v : Value) → is_null v ≡ true → v ≡ null
null-eq null h = refl
null-eq _ h = absurd (cc)

keep_value-parts :
    (w : Value) (r : Result Failure Errors) (v : Option Value) (e : Errors)
    → keep_value w r ≡ ok (v, e)
    → (v ≡ some w) × (r ≡ ok e)
keep_value-parts w (ok x) v e h = (cc, cc)
keep_value-parts w (err f) v e h = absurd (cc)

module _ (py : Python) (name : String) (attr : Attribute) where
  checked-parts :
      (w : Value) (v : Option Value) (e : Errors)
      → checked py name attr w ≡ ok (v, e)
      → (v ≡ some w) × (check_constraints py name w attr ≡ ok e)
  unfolding checked
  checked-parts w v e h = keep_value-parts w (check_constraints py name w attr) v e h

  -- A value that passes the check of a required attribute is not null.
  check-required :
      (w : Value)
      → attr.is_required ≡ true
      → check_constraints py name w attr ≡ ok []
      → is_null w ≡ false
  check-required w req h = elim (Bool-cases (is_null w)) [
    | inr n ↦ n
    | inl n ↦ absurd (null_fails (rw (null-eq w n) at h))
  ]
    where
      null_fails : check_constraints py name null attr ≡ ok [] → ⊥
      null_fails k = (unfold check_constraints in cc (req, k))

  after_coercion-some :
      (present : Bool) (c : Coerced) (v : Option Value) (e : Errors)
      → after_coercion py name attr present c ≡ ok (v, e)
      → (w : Value) × (v ≡ some w) × (attr.is_required ≡ true → e ≡ [] → is_null w ≡ false)
  unfolding after_coercion
  after_coercion-some present (x, some f) v e h = (null, cc, λ r k. absurd (cc))
  after_coercion-some present (x, none) v e h =
      let w = with_default py attr present x in
      let (p, q) = checked-parts w v e h in (w, p, λ r k. check-required w r (q ∙ ap ok k))

abbrev skipped : Bool → Dict Value → String → Bool
skipped partial payload k = partial && not (has_key k payload)

module _ (py : Python) (payload : Dict Value) (partial : Bool) where
  field_step-skipped :
      (name : String) (attr : Attribute) (v : Option Value) (e : Errors)
      → field_step py payload partial name attr ≡ ok (v, e)
      → skipped partial payload name ≡ true
      → v ≡ none
  unfolding field_step
  field_step-skipped name attr v e h k = cc (rw k at h)

  field_step-some :
      (name : String) (attr : Attribute) (v : Option Value) (e : Errors)
      → field_step py payload partial name attr ≡ ok (v, e)
      → skipped partial payload name ≡ false
      → (w : Value) × (v ≡ some w) × (attr.is_required ≡ true → e ≡ [] → is_null w ≡ false)
  unfolding field_step
  field_step-some name attr v e h k =
      after_coercion-some py name attr (has_key name payload) (coerced_input py payload name attr) v
        e (rw k at h)

  lookup-add_value :
      (name k : String) (v : Option Value) (vs : Dict Value)
      → (name == k) ≡ false
      → lookup k (add_value name v vs) ≡ lookup k vs
  lookup-add_value name k none vs h = refl
  lookup-add_value name k (some w) vs h = rw h

  has_key-field_values :
      (attrs : Dict Attribute) (values : Dict Value) (errors : Errors) (k : String)
      → field_values py payload partial attrs ≡ ok (values, errors)
      → has_key k values ≡ (has_key k attrs && not (skipped partial payload k))
  unfolding field_values
  has_key-field_values [] values errors k h = cc
  has_key-field_values ((name, attr) ∷ attrs) values errors k h =
      let j = join-Joined name _ _ values errors h in
      let ih = has_key-field_values attrs j.rest_values j.rest_errors k j.later in
      elim (Bool-cases (skipped partial payload name)) [
        | inl s ↦
            let n = field_step-skipped name attr j.value j.own j.first s in
            rw (j.all_values, n) (ground (arith, ih, eq_iff name k, s))
        | inr s ↦
            let (w, n, r) = field_step-some name attr j.value j.own j.first s in
            rw (j.all_values, n) (ground (arith, ih, eq_iff name k, s))
      ]

  lookup-field_values :
      (attrs : Dict Attribute) (values : Dict Value) (errors : Errors) (k : String)
      (attr : Attribute)
      → field_values py payload partial attrs ≡ ok (values, errors)
      → lookup k attrs ≡ some attr
      → skipped partial payload k ≡ false
      → (w : Value) × (lookup k values ≡ some w)
        × (attr.is_required ≡ true → errors ≡ [] → is_null w ≡ false)
  unfolding field_values
  lookup-field_values [] values errors k attr h f s = absurd (cc)
  lookup-field_values ((name, a) ∷ attrs) values errors k attr h f s =
      let j = join-Joined name _ _ values errors h in
      elim (Bool-cases (name == k)) [
        | inl same ↦
            let (w, n, r) =
              field_step-some name a j.value j.own j.first (rw ((eq_iff name k).0 same) s) in
            let e : some a ≡ some attr = rw same at f in
            let same_attr = some-injective a attr e in
            (
              w,
              rw (j.all_values, n) (rw same),
              λ q o.
                  r (ap (λ (x : Attribute). x.is_required) same_attr ∙ q)
                    (append-nil-left j.own j.rest_errors (sym j.all_errors ∙ o)),
            )
        | inr other ↦
            let (w, l, r) =
              lookup-field_values attrs j.rest_values j.rest_errors k attr j.later (rw other at f)
                s in
            (
              w,
              ap (lookup k) j.all_values
                  ∙ (lookup-add_value name k j.value j.rest_values other ∙ l),
              λ q e. r q (append-nil-right j.own j.rest_errors (sym j.all_errors ∙ e)),
            )
      ]

is_empty-nil : (es : Errors) → is_empty es ≡ true → es ≡ []
is_empty-nil [] h = refl
is_empty-nil (e ∷ es) h = absurd (cc)

-- A successful validation, taken apart.
record Validated (unknown : Errors) (r : Result Failure (Dict Value × Errors)) (o : Outcome)
    : Type 0 where
  errors : Errors
  fields : r ≡ ok (o.values, errors)
  all_errors : o.errors ≡ unknown ++ errors
  validity : o.is_valid ≡ is_empty o.errors

outcome-Validated :
    (unknown : Errors) (r : Result Failure (Dict Value × Errors)) (o : Outcome)
    → outcome unknown r ≡ ok o
    → Validated unknown r o
outcome-Validated unknown (err f) o h = absurd (cc)
outcome-Validated unknown (ok (vs, es)) o h = record {
  errors = es;
  fields = ground arith;
  all_errors = ground arith;
  validity = ground arith;
}

unknown_fields-nil :
    (attrs : Dict Attribute) (payload : Dict Value) (k : String)
    → unknown_fields attrs payload ≡ []
    → has_key k payload ≡ true
    → (has_key k attrs || starts_with k "mdm_") ≡ true
unfolding unknown_fields
unknown_fields-nil attrs [] k h p = absurd (cc)
unknown_fields-nil attrs ((j, v) ∷ payload) k h p = elim (Bool-cases (j == k)) [
  | inl same ↦ rw (← (eq_iff j k).0 same) (known_key (has_key j attrs) (starts_with j "mdm_") h)
  | inr other ↦ unknown_fields-nil attrs payload k (rest_nil _ h) (rw other at p)
]
  where
    known_key :
        (a b : Bool)
        → (if not a && not b
            then record { at = j; code = "unknown_field" } ∷ unknown_fields attrs payload
            else unknown_fields attrs payload)
          ≡ []
        → (a || b) ≡ true
    known_key true b e = refl
    known_key false true e = refl
    known_key false false e = absurd (cc)

    rest_nil :
        (b : Bool)
        → (if b
            then record { at = j; code = "unknown_field" } ∷ unknown_fields attrs payload
            else unknown_fields attrs payload)
          ≡ []
        → unknown_fields attrs payload ≡ []
    rest_nil true e = absurd (cc)
    rest_nil false e = e

module _ (py : Python) (payload : Dict Value) (entity : Entity) (partial : Bool) (o : Outcome) where
  -- The staged values have an entry for exactly the attributes of the entity, and under PATCH
  -- semantics for exactly those of them that the payload mentions.
  pub has_key-validate_record :
      (k : String)
      → validate_record py payload entity partial ≡ ok o
      → has_key k o.values ≡ (has_key k (known entity) && not (partial && not (has_key k payload)))
  unfolding validate_record
  has_key-validate_record k h =
      let v = outcome-Validated _ _ o h in
      has_key-field_values py payload partial (known entity) o.values v.errors k v.fields

  -- In a record that passes, a required attribute has a value that is not null, unless the update
  -- is partial and the payload does not mention the attribute.
  pub validate_record-required :
      (k : String) (attr : Attribute)
      → validate_record py payload entity partial ≡ ok o
      → o.is_valid ≡ true
      → lookup k (known entity) ≡ some attr
      → attr.is_required ≡ true
      → (partial && not (has_key k payload)) ≡ false
      → (w : Value) × (lookup k o.values ≡ some w) × (is_null w ≡ false)
  unfolding validate_record
  validate_record-required k attr h valid l req s =
      let v = outcome-Validated _ _ o h in
      let (w, f, r) =
        lookup-field_values py payload partial (known entity) o.values v.errors k attr v.fields l
          s in
      let none_at_all = is_empty-nil o.errors (sym v.validity ∙ valid) in
      (w, f, r req (append-nil-right _ v.errors (sym v.all_errors ∙ none_at_all)))

  -- In a record that passes, every key of the payload is an attribute of the entity or has the
  -- platform's prefix.
  pub validate_record-known :
      (k : String)
      → validate_record py payload entity partial ≡ ok o
      → o.is_valid ≡ true
      → has_key k payload ≡ true
      → (has_key k (known entity) || starts_with k "mdm_") ≡ true
  unfolding validate_record
  validate_record-known k h valid p =
      let v = outcome-Validated _ _ o h in
      let none_at_all = is_empty-nil o.errors (sym v.validity ∙ valid) in
      unknown_fields-nil (known entity) payload k
        (append-nil-left _ v.errors (sym v.all_errors ∙ none_at_all)) p
