-- ===== src/Identifiers/Naming.antt =====
-- What `validate_ident` accepts: names that it leaves alone the second time.
use Prim.Native.Nat.{zero, suc}
use Prim.Native.Char.{Char, code}
use text.Mathlib.TextEquality.{Char-path}
use open_mdm.Base.{
  ℕ, ap, leb, eqb→eq, String, ◌≡◌, refl, Bool, true, false, ◌&&◌, inl, inr, arith, eqb, Bool-cases,
  if◌then◌else◌, member,
}
use open_mdm.Base.Results.{ok, err}
use open_mdm.Base.Text.{is_lower, is_empty_text, all_chars, text_length}
use open_mdm.Python.{Python}
use open_mdm.Python.Str.{lower, lower-small, small}
use open_mdm.Identifiers.{
  empty_name, ident_char, match_tail, ident_re, validate_ident, validate_lowered, reserved,
}

match_tail-small : (n : ℕ) (s : String) → match_tail n s ≡ true → all_chars small s ≡ true
unfolding match_tail
match_tail-small n String.[] h = refl
match_tail-small zero (String.◌∷◌ c String.[]) h = ground arith
match_tail-small zero (String.◌∷◌ c (String.◌∷◌ d s)) h = ground arith
match_tail-small (suc n) (String.◌∷◌ c String.[]) h = ground arith
match_tail-small (suc n) (String.◌∷◌ c (String.◌∷◌ d s)) h =
    ground (arith, match_tail-small n (String.◌∷◌ d s))

pub ident_re-small : (s : String) → ident_re s ≡ true → all_chars small s ≡ true
unfolding ident_re
ident_re-small (String.◌∷◌ c s) h = ground (arith, match_tail-small 62 s)
ident_re-small String.[] h = refl

validate_lowered-ok :
    (s t : String)
    → validate_lowered s ≡ ok t
    → (s ≡ t) × (ident_re s ≡ true) × (member s reserved ≡ false)
unfolding validate_lowered
validate_lowered-ok s t h = elim (Bool-cases (ident_re s)) [
  | inl m ↦ elim (Bool-cases (member s reserved)) [
    | inl r ↦ cc (rw (m, r) at h)
    | inr r ↦ (cc (rw (m, r) at h), m, r)
  ]
  | inr m ↦ cc (rw m at h)
]

validate_lowered-eq :
    (s : String) → ident_re s ≡ true → member s reserved ≡ false → validate_lowered s ≡ ok s
unfolding validate_lowered
validate_lowered-eq s m r = rw (m, r)

ident_re_nil : ident_re String.[] ≡ true → false ≡ true
unfolding ident_re
ident_re_nil h = h

and-false : (b : Bool) → (b && false) ≡ false
and-false true = refl
and-false false = refl

-- A name of at most `n` characters, all in [a-z0-9_].
abbrev pub plain_tail : ℕ → String → Bool
plain_tail n s = leb (text_length s) n && all_chars ident_char s

-- The stated rule: lower snake_case that starts with a letter, at most 63 characters.
abbrev pub plain : String → Bool
plain String.[] = false
plain (String.◌∷◌ c s) = is_lower c && plain_tail 62 s

abbrev pub with_newline : String → String
with_newline String.[] = "\n"
with_newline (String.◌∷◌ c s) = String.◌∷◌ c (with_newline s)

-- The rule's names, and the same with one newline behind.
pub data Accepted (P : String → Bool) (s : String) : Type 0 where
  as_is : P s ≡ true → Accepted P s
  newline : (t : String) → P t ≡ true → s ≡ with_newline t → Accepted P s

newline-eq : (c : Char) → eqb (code c) 10 ≡ true → String.◌∷◌ c String.[] ≡ "\n"
newline-eq c h = ap (λ d. String.◌∷◌ d String.[]) (Char-path c "\n" (eqb→eq (code c) 10 h))

Accepted-cons :
    (n : ℕ) (c : Char) (s : String)
    → ident_char c ≡ true
    → Accepted (plain_tail n) s
    → Accepted (plain_tail (suc n)) (String.◌∷◌ c s)
Accepted-cons n c s h (as_is p) = as_is (ground arith)
Accepted-cons n c s h (newline t p e) =
    newline (String.◌∷◌ c t) (ground arith) (ap (λ r. String.◌∷◌ c r) e)

match_tail-Accepted : (n : ℕ) (s : String) → match_tail n s ≡ true → Accepted (plain_tail n) s
unfolding match_tail
match_tail-Accepted n String.[] h = as_is (ground arith)
match_tail-Accepted zero (String.◌∷◌ c String.[]) h =
    newline String.[] refl (newline-eq c (ground arith))
match_tail-Accepted zero (String.◌∷◌ c (String.◌∷◌ d s)) h = cc (and-false (eqb (code c) 10))
match_tail-Accepted (suc n) (String.◌∷◌ c String.[]) h = elim (Bool-cases (ident_char c)) [
  | inl i ↦ as_is (ground arith)
  | inr i ↦ newline String.[] (ground arith) (newline-eq c (ground arith))
]
match_tail-Accepted (suc n) (String.◌∷◌ c (String.◌∷◌ d s)) h =
    Accepted-cons n c (String.◌∷◌ d s) (ground arith)
      (match_tail-Accepted n (String.◌∷◌ d s) (ground arith))

plain_tail-match : (n : ℕ) (s : String) → plain_tail n s ≡ true → match_tail n s ≡ true
unfolding match_tail
plain_tail-match n String.[] h = refl
plain_tail-match zero (String.◌∷◌ c s) h = ground arith
plain_tail-match (suc n) (String.◌∷◌ c s) h = ground (arith, plain_tail-match n s)

newline-match : (n : ℕ) (s : String) → plain_tail n s ≡ true → match_tail n (with_newline s) ≡ true
unfolding match_tail
newline-match zero String.[] h = refl
newline-match (suc n) String.[] h = refl
newline-match zero (String.◌∷◌ c s) h = ground arith
newline-match (suc n) (String.◌∷◌ c s) h = ground (arith, newline-match n s)

ident_re-Accepted : (s : String) → ident_re s ≡ true → Accepted plain s
unfolding ident_re
ident_re-Accepted String.[] h = cc
ident_re-Accepted (String.◌∷◌ c s) h = elim (match_tail-Accepted 62 s (ground arith)) [
  | as_is p ↦ as_is (ground arith)
  | newline t p e ↦ newline (String.◌∷◌ c t) (ground arith) (ap (λ r. String.◌∷◌ c r) e)
]

Accepted-ident_re : (s : String) → Accepted plain s → ident_re s ≡ true
unfolding ident_re
Accepted-ident_re String.[] (as_is p) = cc
Accepted-ident_re (String.◌∷◌ c s) (as_is p) = ground (arith, plain_tail-match 62 s)
Accepted-ident_re s (newline String.[] p e) = cc
Accepted-ident_re s (newline (String.◌∷◌ c t) p e) = rw e (ground (arith, newline-match 62 t))

module _ (py : Python) where
  -- What `validate_ident` returns is not reserved, and is a name of at most 63 characters in
  -- [a-z0-9_] that starts with a letter, or such a name with one newline behind; and it is
  -- returned unchanged when it is validated again.
  pub validate_ident_sound :
      (name t : String)
      → validate_ident py name ≡ ok t
      → (member t reserved ≡ false) × Accepted plain t × (validate_ident py t ≡ ok t)
  unfolding validate_ident
  validate_ident_sound name t h =
      let (e, m, r) = validate_lowered-ok (lower py name) t (ground arith) in
      let m' : ident_re t ≡ true = rw e at m in
      let r' : member t reserved ≡ false = rw e at r in (r', ident_re-Accepted t m', again t m' r')
    where
      again :
          (t : String)
          → ident_re t ≡ true
          → member t reserved ≡ false
          → (if is_empty_text t then err empty_name else validate_lowered (lower py t)) ≡ ok t
      again String.[] m r = cc (ident_re_nil m)
      again (String.◌∷◌ c s) m r =
          rw (lower-small py (String.◌∷◌ c s) (ident_re-small (String.◌∷◌ c s) m))
            (validate_lowered-eq (String.◌∷◌ c s) m r)

  -- A plain name that is no reserved word is accepted with a newline behind it, newline included.
  pub validate_ident-newline :
      (s : String)
      → plain s ≡ true
      → member (with_newline s) reserved ≡ false
      → validate_ident py (with_newline s) ≡ ok (with_newline s)
  unfolding validate_ident
  validate_ident-newline String.[] h r = cc
  validate_ident-newline (String.◌∷◌ c s) h r =
      let w = with_newline (String.◌∷◌ c s) in
      let m : ident_re w ≡ true = Accepted-ident_re w (newline (String.◌∷◌ c s) h refl) in
      rw (lower-small py w (ident_re-small w m)) (validate_lowered-eq w m r)
