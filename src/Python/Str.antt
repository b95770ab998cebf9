-- ===== src/Python/Str.antt =====
-- The methods of `str` that look a character up in the Unicode tables, and `str(v)`.
use Prim.Native.Nat.{ℕ, suc}
use Prim.Native.Char.{Char, code}
use Prim.Native.String.{String}
use Prim.Native.String
use open_mdm.Base.{◌≡◌, refl, Bool, true, false, not, ◌&&◌, ◌||◌, arith, eqb, if◌then◌else◌}
use open_mdm.Base.Text.{
  all_chars, is_ascii, is_lower, is_upper, is_digit, lower_ascii, lower_ascii_other, upper_ascii,
  is_space, keep_chars,
}
use open_mdm.Python.{Python, Value, str, decimal, date, datetime, uuid}

-- An ASCII character that is no capital.
abbrev pub small : Char → Bool
small c = is_ascii c && not (is_upper c)

module _ (py : Python) where
  lower_from : String → ℕ → String → String
  lower_from whole i String.[] = String.[]
  lower_from whole i (String.◌∷◌ c s) =
      let rest = lower_from whole (suc i) s in
      if is_ascii c then String.◌∷◌ (lower_ascii c) rest else String.◌++◌ (py.lower_at whole i) rest

  -- `s.lower()`
  unfoldable pub lower : String → String
  unfolding lower_from
  lower s = lower_from s 0 s

  -- `s.upper()`
  unfoldable pub upper : String → String
  upper String.[] = String.[]
  upper (String.◌∷◌ c s) =
      let rest = upper s in
      if is_ascii c then String.◌∷◌ (upper_ascii c) rest else String.◌++◌ (py.upper_of c) rest

  cased : Char → Bool
  cased c = if is_ascii c then is_lower c || is_upper c else py.is_cased c

  -- After a cased character a letter is small, elsewhere it is a title letter.
  title_from : String → ℕ → Bool → String → String
  title_from whole i after String.[] = String.[]
  title_from whole i after (String.◌∷◌ c s) =
      let rest = title_from whole (suc i) (cased c) s in
      if is_ascii c
      then String.◌∷◌ (if after then lower_ascii c else upper_ascii c) rest
      else String.◌++◌ (if after then py.lower_at whole i else py.title_of c) rest

  -- `s.title()`
  unfoldable pub title : String → String
  unfolding title_from cased
  title s = title_from s 0 false s

  -- `\w` and `\d` of a pattern on texts.
  unfoldable pub word_char : Char → Bool
  word_char c =
      if is_ascii c
      then is_lower c || is_upper c || is_digit c || eqb (code c) b'_'
      else py.is_word c

  unfoldable pub digit_char : Char → Bool
  digit_char c = if is_ascii c then is_digit c else py.is_decimal c

  -- `re.sub(r"[^\w\s]", "", s)` and `re.sub(r"\D", "", s)`
  unfoldable pub strip_punctuation : String → String
  unfolding word_char is_space
  strip_punctuation s = keep_chars (λ c. word_char c || is_space c) s

  unfoldable pub digits_only : String → String
  unfolding digit_char
  digits_only s = keep_chars digit_char s

  -- `str(v)`
  unfoldable pub to_str : Value → String
  to_str (str s) = s
  to_str (decimal s) = s
  to_str (date s) = s
  to_str (datetime s) = s
  to_str (uuid s) = s
  to_str v = py.text_of v

  lower_from-small :
      (whole : String) (i : ℕ) (s : String) → all_chars small s ≡ true → lower_from whole i s ≡ s
  unfolding lower_from
  lower_from-small whole i String.[] h = refl
  lower_from-small whole i (String.◌∷◌ c s) h =
      ground (arith, lower_from-small whole (suc i) s, lower_ascii_other c)

  -- A text of ASCII characters with no capital is its own small form.
  pub lower-small : (s : String) → all_chars small s ≡ true → lower s ≡ s
  unfolding lower
  lower-small s h = lower_from-small s 0 s h
