-- ===== src/Identifiers/Quoting.antt =====
-- A quoted identifier reads back as the name that was quoted.
use Prim.Native.Char.{Char, code}
use Prim.Native.String
use text.Mathlib.TextLemmas.{cons-append, nil-append, append_assoc, append-nil}
use open_mdm.Base.{
  String, ◌≡◌, refl, Bool, true, false, not, Bool-cases, inl, inr, Option, none, some, arith, eqb,
  if◌then◌else◌, ap, sym, ◌∙◌,
}
use open_mdm.Base.Results.{ok}
use open_mdm.Base.Text.{is_empty_text}
use open_mdm.Identifiers.{double_quotes, quote_ident, qualified}

abbrev is_quote : Char → Bool
is_quote c = eqb (code c) b'"'

abbrev push : Char → Option (String × String) → Option (String × String)
push c none = none
push c (some (name, rest)) = some (String.◌∷◌ c name, rest)

-- How SQL reads the rest of a quoted identifier: a doubled quote stands for one, a single quote
-- ends it. The flag says that a quote was just read. The result is the name and what follows.
read_from : Bool → String → Option (String × String)
read_from false String.[] = none
read_from true String.[] = some (String.[], String.[])
read_from false (String.◌∷◌ c s) = elim (is_quote c) [
  | true ↦ read_from true s
  | false ↦ push c (read_from false s)
]
read_from true (String.◌∷◌ c s) = elim (is_quote c) [
  | true ↦ push c (read_from false s)
  | false ↦ some (String.[], String.◌∷◌ c s)
]

pub read_ident : String → Option (String × String)
unfolding read_from
read_ident String.[] = none
read_ident (String.◌∷◌ c s) = if is_quote c then read_from false s else none

abbrev at_last : String → Option (String × String) → Option (String × String)
at_last a none = none
at_last a (some (b, rest)) = if is_empty_text rest then some (a, b) else none

abbrev after_dot : String → String → Option (String × String)
after_dot name String.[] = none
after_dot name (String.◌∷◌ c s) = if eqb (code c) b'.' then at_last name (read_ident s) else none

-- A reference `"schema"."table"` and nothing behind it.
pub read_qualified : String → Option (String × String)
unfolding read_ident
read_qualified t = elim (read_ident t) [ none ↦ none | some (name, rest) ↦ after_dot name rest ]

abbrev ends : String → Bool
ends String.[] = true
ends (String.◌∷◌ c s) = not (is_quote c)

read-quote_end : (tail : String) → ends tail ≡ true → read_from true tail ≡ some (String.[], tail)
unfolding read_from
read-quote_end String.[] h = refl
read-quote_end (String.◌∷◌ c s) h = ground arith

read-doubled :
    (c : Char) (s : String)
    → is_quote c ≡ true
    → read_from false (String.◌∷◌ c (String.◌∷◌ c s)) ≡ push c (read_from false s)
unfolding read_from
read-doubled c s h = ground arith

read-other :
    (c : Char) (s : String)
    → is_quote c ≡ false
    → read_from false (String.◌∷◌ c s) ≡ push c (read_from false s)
unfolding read_from
read-other c s h = ground arith

read_from-double_quotes :
    (s tail : String)
    → ends tail ≡ true
    → read_from false (String.◌++◌ (double_quotes s) (String.◌∷◌ "\"" tail)) ≡ some (s, tail)
unfolding double_quotes
read_from-double_quotes String.[] tail h = rw nil-append (unfold read_from in read-quote_end tail h)
read_from-double_quotes (String.◌∷◌ c s) tail h =
    let ih = ap (push c) (read_from-double_quotes s tail h) in
    elim (Bool-cases (is_quote c)) [
      | inl q ↦ simp (q, cons-append) (read-doubled c _ q ∙ ih)
      | inr q ↦ simp (q, cons-append) (read-other c _ q ∙ ih)
    ]

one-append : (c : Char) (t : String) → String.◌++◌ (String.◌∷◌ c String.[]) t ≡ String.◌∷◌ c t
one-append c t = simp (cons-append, nil-append)

quote-append : (t : String) → String.◌++◌ "\"" t ≡ String.◌∷◌ "\"" t
quote-append t = one-append "\"" t

dot-append : (t : String) → String.◌++◌ "." t ≡ String.◌∷◌ "." t
dot-append t = one-append "." t

abbrev quoted : String → String
quoted s = String.◌∷◌ "\"" (String.◌++◌ (double_quotes s) "\"")

-- A quoted identifier, with any text behind it that begins with no quote.
read_ident-quoted :
    (s tail : String) → ends tail ≡ true → read_ident (String.◌++◌ (quoted s) tail) ≡ some (s, tail)
unfolding read_ident
read_ident-quoted s tail h =
    simp (cons-append, append_assoc, quote-append) (read_from-double_quotes s tail h)

read_ident-quoted_all : (u : String) → read_ident (quoted u) ≡ some (u, String.[])
read_ident-quoted_all u =
    sym (ap read_ident (append-nil (quoted u))) ∙ read_ident-quoted u String.[] refl

read_qualified-quoted :
    (s u : String)
    → read_qualified (String.◌++◌ (quoted s) (String.◌++◌ "." (quoted u))) ≡ some (s, u)
unfolding read_qualified
read_qualified-quoted s u =
    rw (dot-append (quoted u), read_ident-quoted s (String.◌∷◌ "." (quoted u)) refl, read_qualified)
      (ap (at_last s) (read_ident-quoted_all u))

-- Whatever the two names hold, quotes, dots and semicolons included: where `qualified` returns
-- a text, SQL reads it as a reference to exactly these names with nothing left behind.
pub qualified-read :
    (schema table t : String)
    → qualified schema table ≡ ok t
    → read_qualified t ≡ some (schema, table)
unfolding qualified
qualified-read String.[] table t h = cc
qualified-read (String.◌∷◌ c s) String.[] t h = cc
qualified-read (String.◌∷◌ c s) (String.◌∷◌ d u) t h =
    let e : String.◌++◌ (quoted (String.◌∷◌ c s)) (String.◌++◌ "." (quoted (String.◌∷◌ d u))) ≡ t =
      unfold quote_ident in cc in
    rw (← e) (read_qualified-quoted (String.◌∷◌ c s) (String.◌∷◌ d u))
