-- ===== src/Value.antt =====
-- A value of JSON data, as the program looks at one: numbers and texts are read, and of a list or
-- an object only what `str` makes of it.
use nimly_manager.Base.{Bool, true, false, List, [], ◌∷◌, Option, none, some, if◌then◌else◌}
use nimly_manager.Base.Int.{ℤ, pos}
use nimly_manager.Text.{Text, text, text_eq}
use nimly_manager.Text.Number.{show_ℤ, int_of_text}

-- A float by what `int` and `str` make of it.
pub data Float : Type 0 where
  finite : ℤ → Text → Float
  infinite : Text → Float
  nan : Float

pub data Value : Type 0 where
  null : Value
  bool : Bool → Value
  int : ℤ → Value
  float : Float → Value
  str : Text → Value
  other : Text → Value

-- A dictionary with text keys; of two entries with one key the first counts.
abbrev pub Fields : Type 0
Fields = List (Text × Value)

-- raw.get(key)
unfoldable pub get : Text → Fields → Option Value
get key [] = none
get key ((k, v) ∷ fields) = if text_eq k key then some v else get key fields

-- raw.get(key), as the value None where the key is missing
unfoldable pub get_or_null : Text → Fields → Value
unfolding get
get_or_null key fields = elim (get key fields) [ none ↦ null | some v ↦ v ]

-- str(value)
unfoldable pub str_of : Value → Text
unfolding show_ℤ
str_of null = text "None"
str_of (bool true) = text "True"
str_of (bool false) = text "False"
str_of (int n) = show_ℤ n
str_of (float (finite n s)) = s
str_of (float (infinite s)) = s
str_of (float nan) = text "nan"
str_of (str s) = s
str_of (other s) = s

-- int(value): the number, or what it raises
pub data IntResult : Type 0 where
  number : ℤ → IntResult
  type_error value_error overflow_error : IntResult

int_of_option : Option ℤ → IntResult
int_of_option none = value_error
int_of_option (some n) = number n

unfoldable pub int_of : Value → IntResult
unfolding int_of_option int_of_text
int_of null = type_error
int_of (bool true) = number (pos 1)
int_of (bool false) = number (pos 0)
int_of (int n) = number n
int_of (float (finite n s)) = number n
int_of (float (infinite s)) = overflow_error
int_of (float nan) = value_error
int_of (str s) = int_of_option (int_of_text s)
int_of (other s) = type_error
