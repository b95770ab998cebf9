-- ===== src/Base/Text.antt =====
-- Walking a text character by character: classes of ASCII characters and whitespace.
use Prim.Native.Nat.{ℕ, zero, suc}
use Prim.Native.Char.{Char, code}
use Prim.Native.String.{String}
use mathlib.Core.Path.{◌≡◌, refl}
use native.Mathlib.Omega.{arith}
use mathlib.Core.Bool.{Bool, true, false, not, ◌&&◌, ◌||◌}
use open_mdm.Base.Tests.{leb, ltb, eqb, if◌then◌else◌}

-- `len(s)`: the number of code points.
abbrev pub text_length : String → ℕ
text_length String.[] = 0
text_length (String.◌∷◌ c s) = suc (text_length s)

abbrev pub all_chars : (Char → Bool) → String → Bool
all_chars p String.[] = true
all_chars p (String.◌∷◌ c s) = p c && all_chars p s

abbrev pub is_empty_text : String → Bool
is_empty_text String.[] = true
is_empty_text (String.◌∷◌ c s) = false

abbrev pub is_lower : Char → Bool
is_lower c = leb b'a' (code c) && leb (code c) b'z'

abbrev pub is_upper : Char → Bool
is_upper c = leb b'A' (code c) && leb (code c) b'Z'

abbrev pub is_digit : Char → Bool
is_digit c = leb b'0' (code c) && leb (code c) b'9'

abbrev pub is_ascii : Char → Bool
is_ascii c = ltb (code c) 128

-- `str.isspace` of one character, which is also `\s` of a pattern on texts.
unfoldable pub is_space : Char → Bool
is_space c =
    (leb 9 (code c) && leb (code c) 13)
    || (leb 28 (code c) && leb (code c) 32)
    || eqb (code c) 0x85
    || eqb (code c) 0xa0
    || eqb (code c) 0x1680
    || (leb 0x2000 (code c) && leb (code c) 0x200a)
    || eqb (code c) 0x2028
    || eqb (code c) 0x2029
    || eqb (code c) 0x202f
    || eqb (code c) 0x205f
    || eqb (code c) 0x3000

-- The character of `to` that stands where `c` first stands in `from`; `c` if it does not.
translate : Char → String → String → Char
translate c String.[] to = c
translate c (String.◌∷◌ a from) String.[] = c
translate c (String.◌∷◌ a from) (String.◌∷◌ b to) =
    if eqb (code a) (code c) then b else translate c from to

-- The 26 ASCII capitals to small letters and back.
unfoldable pub lower_ascii : Char → Char
unfolding translate
lower_ascii c = translate c "ABCDEFGHIJKLMNOPQRSTUVWXYZ" "abcdefghijklmnopqrstuvwxyz"

unfoldable pub upper_ascii : Char → Char
unfolding translate
upper_ascii c = translate c "abcdefghijklmnopqrstuvwxyz" "ABCDEFGHIJKLMNOPQRSTUVWXYZ"

-- The text without the characters that fail the test.
abbrev pub keep_chars : (Char → Bool) → String → String
keep_chars p String.[] = String.[]
keep_chars p (String.◌∷◌ c s) = let rest = keep_chars p s in if p c then String.◌∷◌ c rest else rest

unfoldable pub lstrip : String → String
unfolding is_space
lstrip String.[] = String.[]
lstrip (String.◌∷◌ c s) = let rest = lstrip s in if is_space c then rest else String.◌∷◌ c s

unfoldable pub rstrip : String → String
unfolding is_space
rstrip String.[] = String.[]
rstrip (String.◌∷◌ c s) =
    let rest = rstrip s in if is_space c && is_empty_text rest then String.[] else String.◌∷◌ c rest

-- `s.strip()`
unfoldable pub strip : String → String
unfolding lstrip rstrip
strip s = lstrip (rstrip s)

-- `s.replace(",", "")`
unfoldable pub remove_commas : String → String
remove_commas s = keep_chars (λ c. not (eqb (code c) b',')) s

-- A run of whitespace becomes one space; the flag says that one was just written.
collapse_from : Bool → String → String
collapse_from after String.[] = String.[]
collapse_from after (String.◌∷◌ c s) =
    let rest = collapse_from (is_space c) s in
    if is_space c then (if after then rest else String.◌∷◌ " " rest) else String.◌∷◌ c rest

-- `re.sub(r"\s+", " ", s)`
unfoldable pub collapse_whitespace : String → String
unfolding collapse_from is_space
collapse_whitespace s = collapse_from false s

translate_other :
    (c : Char) (from to : String)
    → all_chars is_upper from ≡ true
    → is_upper c ≡ false
    → translate c from to ≡ c
unfolding translate
translate_other c String.[] to h n = refl
translate_other c (String.◌∷◌ a from) String.[] h n = refl
translate_other c (String.◌∷◌ a from) (String.◌∷◌ b to) h n =
    ground (arith, translate_other c from to)

-- What is no capital is left alone.
pub lower_ascii_other : (c : Char) → is_upper c ≡ false → lower_ascii c ≡ c
unfolding lower_ascii
lower_ascii_other c h =
    translate_other c "ABCDEFGHIJKLMNOPQRSTUVWXYZ" "abcdefghijklmnopqrstuvwxyz" refl h

-- `s[:n]`
abbrev pub text_take : ℕ → String → String
text_take zero s = String.[]
text_take (suc n) String.[] = String.[]
text_take (suc n) (String.◌∷◌ c s) = String.◌∷◌ c (text_take n s)

-- What stands behind the first space.
abbrev pub after_space : String → String
after_space String.[] = String.[]
after_space (String.◌∷◌ c s) = if eqb (code c) b' ' then s else after_space s
