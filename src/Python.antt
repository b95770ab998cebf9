-- ===== src/Python.antt =====
-- What the service takes from Python: the values of a JSON payload or a database row, and the
-- parts of the language and its standard library that no code of the repository implements.
pub mod Str
use Prim.Native.Char.{Char}
use open_mdm.Base.{ℕ, String, Bool, true, false, Option, none, some, List, [], ◌∷◌, Dict}
use open_mdm.Base.Int.{ℤ, pos, negsuc}

-- A Decimal, a float, a date, a datetime and a UUID stand by the text that `str` gives them.
mutual
  pub data Value : Type 0 where
    null : Value
    bool : Bool → Value
    int : ℤ → Value
    float : String → Value
    str : String → Value
    decimal : String → Value
    date : String → Value
    datetime : String → Value
    uuid : String → Value
    obj : Fields → Value
    arr : Items → Value

  pub data Fields : Type 0 where
    end : Fields
    field : String → Value → Fields → Fields

  pub data Items : Type 0 where
    nil : Items
    cons : Value → Items → Items

abbrev pub items : Items → List Value
items nil = []
items (cons v vs) = v ∷ items vs

abbrev pub fields : Fields → Dict Value
fields end = []
fields (field k v fs) = (k, v) ∷ fields fs

-- `v is None`
abbrev pub is_null : Value → Bool
is_null null = true
is_null _ = false

-- `d.get(k)` on a dict of values: None for a missing key.
abbrev pub or_null : Option Value → Value
or_null none = null
or_null (some v) = v

-- The Unicode tables beyond ASCII, the number and date parsers, `json`, `re` and `uuid`.
pub record Python : Type 0 where
  -- The small form of the character at a position of a text (a final sigma looks around).
  pub lower_at : String → ℕ → String
  pub upper_of : Char → String
  pub title_of : Char → String
  pub is_cased : Char → Bool
  pub is_word : Char → Bool
  pub is_decimal : Char → Bool
  -- `str(v)` of a value that is no text and has none above.
  pub text_of : Value → String
  -- `int(s)`, `Decimal(s)`, `float(s)`: none is a ValueError or an InvalidOperation.
  pub int_of : String → Option ℤ
  pub decimal_of : String → Option String
  pub float_of : String → Option String
  -- `int(v)` of a value that is neither an int nor a text; none is a TypeError or a ValueError.
  pub int_of_value : Value → Option ℤ
  -- `float(f).is_integer()`, and whether a number's text is that of zero.
  pub is_integer : String → Bool
  pub is_zero : String → Bool
  -- `datetime.strptime(s, fmt)`, `datetime.fromisoformat(s)` and `dt.date()`.
  pub strptime : String → String → Option String
  pub fromisoformat : String → Option String
  pub date_of : String → String
  pub uuid_of : String → Option String
  -- `json.loads(s)` and `json.dumps(v)`.
  pub json_loads : String → Option Value
  pub json_dumps : Value → Option String
  -- `re.match(pattern, s)`: none is a `re.error`.
  pub re_match : String → String → Option Bool
  -- `a < Decimal(str(b))`: none is an InvalidOperation or a TypeError.
  pub less : Value → Value → Option Bool
  pub greater : Value → Value → Option Bool
