-- ===== src/Ldap/Escape.antt =====
-- RFC 4515's reading of an escaped filter value, and that it is the inverse of the escaping.
use Prim.Native.Nat.{ℕ, ◌+◌, ◌*◌, ◌-◌}
use Prim.Native.Char.{Char, code}
use Prim.Native.String.{String}
use Prim.Native.String
use text.Mathlib.TextLemmas.{cons-append, nil-append}
use open_mdm.Base.{
  List, [], ◌∷◌, leb, ◌&&◌, ◌≡◌, refl, sym, ◌∙◌, eqb→eq, ap, Bool, true, ◌||◌, Option, none, some,
  eqb, if◌then◌else◌, Bool-cases, inl, inr,
}
use open_mdm.Ldap.{escaped, escape_filter}

-- The characters that change a filter's meaning.
abbrev pub is_special : Char → Bool
is_special c =
    eqb (code c) b'*'
    || eqb (code c) b'('
    || eqb (code c) b')'
    || eqb (code c) 0
    || eqb (code c) b'/'

abbrev hex_value : ℕ → Option ℕ
hex_value n =
    if leb b'0' n && leb n b'9'
    then some (n - b'0')
    else if leb b'a' n && leb n b'f'
    then some (n - 87)
    else none

-- Before a character that stands for itself, and before the first and the second digit of an
-- escape.
pub data Mode : Type 0 where
  plain high : Mode
  low : ℕ → Mode

abbrev push : ℕ → Option (List ℕ) → Option (List ℕ)
push n none = none
push n (some codes) = some (n ∷ codes)

-- The code points that a filter value stands for: a backslash and two hexadecimal digits stand for
-- one, and an asterisk, a parenthesis, a slash or NUL must not stand for itself.
read_from : Mode → String → Option (List ℕ)
read_from plain String.[] = some []
read_from high String.[] = none
read_from (low n) String.[] = none
read_from plain (String.◌∷◌ c s) =
    let rest = read_from plain s in
    let escape = read_from high s in
    if eqb (code c) b'\\' then escape else if is_special c then none else push (code c) rest
read_from high (String.◌∷◌ c s) = elim (hex_value (code c)) [
  | none ↦ none
  | some n ↦ read_from (low n) s
]
read_from (low n) (String.◌∷◌ c s) = elim (hex_value (code c)) [
  | none ↦ none
  | some m ↦ push (n * 16 + m) (read_from plain s)
]

pub read_filter : String → Option (List ℕ)
unfolding read_from
read_filter s = read_from plain s

abbrev pub codes : String → List ℕ
codes String.[] = []
codes (String.◌∷◌ c s) = code c ∷ codes s

three-append :
    (h l : Char) (t : String)
    → String.◌++◌ (String.◌∷◌ "\\" (String.◌∷◌ h (String.◌∷◌ l String.[]))) t
      ≡ String.◌∷◌ "\\" (String.◌∷◌ h (String.◌∷◌ l t))
three-append h l t = simp (cons-append, nil-append)

one-append : (c : Char) (t : String) → String.◌++◌ (String.◌∷◌ c String.[]) t ≡ String.◌∷◌ c t
one-append c t = simp (cons-append, nil-append)

-- An escape with the digits `h` and `l` stands for the character that it replaced.
read-escape :
    (c h l : Char) (n : ℕ) (t : String)
    → eqb (code c) n ≡ true
    → read_from plain (String.◌∷◌ "\\" (String.◌∷◌ h (String.◌∷◌ l t))) ≡ push n (read_from plain t)
    → read_from plain (String.◌++◌ (String.◌∷◌ "\\" (String.◌∷◌ h (String.◌∷◌ l String.[]))) t)
      ≡ push (code c) (read_from plain t)
read-escape c h l n t e r =
    ap (read_from plain) (three-append h l t)
    ∙ (r ∙ ap (λ k. push k (read_from plain t)) (sym (eqb→eq (code c) n e)))

read-escaped :
    (c : Char) (t : String)
    → read_from plain (String.◌++◌ (escaped c) t) ≡ push (code c) (read_from plain t)
unfolding read_from
read-escaped c t = elim (Bool-cases (eqb (code c) b'\\')) [
  | inl e ↦ rw e (read-escape c "5" "c" 92 t e refl)
  | inr e1 ↦ elim (Bool-cases (eqb (code c) b'*')) [
    | inl e ↦ rw (e1, e) (read-escape c "2" "a" 42 t e refl)
    | inr e2 ↦ elim (Bool-cases (eqb (code c) b'(')) [
      | inl e ↦ rw (e1, e2, e) (read-escape c "2" "8" 40 t e refl)
      | inr e3 ↦ elim (Bool-cases (eqb (code c) b')')) [
        | inl e ↦ rw (e1, e2, e3, e) (read-escape c "2" "9" 41 t e refl)
        | inr e4 ↦ elim (Bool-cases (eqb (code c) 0)) [
          | inl e ↦ rw (e1, e2, e3, e4, e) (read-escape c "0" "0" 0 t e refl)
          | inr e5 ↦ elim (Bool-cases (eqb (code c) b'/')) [
            | inl e ↦ rw (e1, e2, e3, e4, e5, e) (read-escape c "2" "f" 47 t e refl)
            | inr e6 ↦ rw (e1, e2, e3, e4, e5, e6, one-append c t) (rw (e1, e2, e3, e4, e5, e6))
          ]
        ]
      ]
    ]
  ]
]

-- Whatever a user name holds, asterisks, parentheses and backslashes included: in a search filter
-- its escaped form is read as exactly that name, and no character of it acts as syntax.
pub read-escape_filter : (s : String) → read_filter (escape_filter s) ≡ some (codes s)
unfolding read_filter escape_filter
read-escape_filter String.[] = refl
read-escape_filter (String.◌∷◌ c s) =
    read-escaped c (escape_filter s) ∙ ap (push (code c)) (read-escape_filter s)
