-- ===== src/Base/Json.antt =====
-- What `json.loads` yields, and `int()` on such values.
pub mod Digits
use Prim.Native.Nat.{ℕ, zero, suc, ◌+◌, ◌-◌, ◌*◌, ◌/◌, ◌^◌}
use mathlib.Core.Bool.{Bool, true, false, ◌&&◌}
use mathlib.Core.List.{List, [], ◌∷◌}
use mathlib.Core.Option.{Option, none, some}
use pi_homelab.Base.Equality.{leb, ltb, eqb, text_eq, if◌then◌else◌}
use pi_homelab.Base.Text.{Text, strip, nonempty}
use pi_homelab.Base.Dict.{Dict}
use pi_homelab.Base.Int.{ℤ, pos, negsuc, sub_ℕ}
use pi_homelab.Base.Result.{Read, unreadable, undecodable, contents}
use pi_homelab.Base.Result.{Exception, Result, ok, raise, type_error, value_error, overflow_error}

-- A double: every finite one is a whole multiple of 2^-1074.
pub data Float : Type 0 where
  finite : ℤ → Float
  infinite : Float
  nan : Float

mutual
  pub data Value : Type 0 where
    null : Value
    bool : Bool → Value
    int : ℤ → Value
    float : Float → Value
    str : Text → Value
    arr : Items → Value
    obj : Fields → Value

  pub data Items : Type 0 where
    nil : Items
    cons : Value → Items → Items

  pub data Fields : Type 0 where
    end : Fields
    field : Text → Value → Fields → Fields

-- The dict of an object.
unfoldable pub entries : Fields → Dict Text Value
entries end = []
entries (field k v fs) = (k, v) ∷ entries fs

-- The list of an array.
unfoldable pub items : Items → List Value
items nil = []
items (cons v vs) = v ∷ items vs

is_digit : ℕ → Bool
is_digit c = leb b'0' c && leb c b'9'

-- ASCII digits with single underscores between them: the number, and how many digits it has.
parse_digits : ℕ → ℕ → Bool → Text → Option (ℕ × ℕ)
parse_digits acc count after [] = if after then some (acc, count) else none
parse_digits acc count after (c ∷ s) = elim (is_digit c) [
  | true ↦ parse_digits (acc * 10 + (c - b'0')) (count + 1) true s
  | false ↦ elim (eqb c b'_' && after) [ true ↦ parse_digits acc count false s | false ↦ none ]
]

-- `int` refuses more than 4300 digits.
sized : (ℕ → ℤ) → Option (ℕ × ℕ) → Option ℤ
sized f none = none
sized f (some (n, count)) = if ltb 4300 count then none else some (f n)

signed : Text → Option ℤ
signed [] = none
signed (c ∷ s) =
    if eqb c b'-'
    then sized (sub_ℕ 0) (parse_digits 0 0 false s)
    else if eqb c b'+'
    then sized pos (parse_digits 0 0 false s)
    else sized pos (parse_digits 0 0 false (c ∷ s))

-- `int(s)` of a text, `none` where it raises.
unfoldable pub int_of_text : Text → Option ℤ
unfolding signed sized parse_digits is_digit strip
int_of_text s = signed (strip s)

-- The integer part of a finite double, towards zero.
unfoldable pub truncate : ℤ → ℤ
truncate (pos n) = pos (n / 2 ^ 1074)
truncate (negsuc n) = sub_ℕ 0 (suc n / 2 ^ 1074)

-- `int(v)`
unfoldable pub int_of : Value → Result ℤ
unfolding int_of_text truncate
int_of null = raise type_error
int_of (bool false) = ok (pos 0)
int_of (bool true) = ok (pos 1)
int_of (int n) = ok n
int_of (float (finite n)) = ok (truncate n)
int_of (float infinite) = raise overflow_error
int_of (float nan) = raise value_error
int_of (str s) = elim (int_of_text s) [ none ↦ raise value_error | some n ↦ ok n ]
int_of (arr _) = raise type_error
int_of (obj _) = raise type_error

-- `json.load` of a text: a value, a `JSONDecodeError`, or another exception: a `RecursionError` where
-- the text is nested too deep, a plain `ValueError` where an integer has too many digits.
pub data Loaded : Type 0 where
  loaded : Value → Loaded
  no_json : Loaded
  fails : Exception → Loaded

-- What is no object reads as `{}`.
unfoldable pub object_of : Option Value → Dict Text Value
unfolding entries
object_of (some (obj fs)) = entries fs
object_of _ = []

-- The object of a text, where only a `JSONDecodeError` is caught.
unfoldable pub loaded_object : Loaded → Result (Dict Text Value)
unfolding object_of
loaded_object (loaded v) = ok (object_of (some v))
loaded_object no_json = ok []
loaded_object (fails e) = raise e

-- `json.load` raises nothing but a `JSONDecodeError`.
abbrev pub is_loaded : Loaded → Bool
is_loaded (fails e) = false
is_loaded _ = true

-- The same of a file that is UTF-8 or cannot be read at all.
abbrev pub is_readable : (Text → Loaded) → Read → Bool
is_readable loads undecodable = false
is_readable loads unreadable = true
is_readable loads (contents text) = is_loaded (loads text)

-- Python's truth of a value.
unfoldable pub truth : Value → Bool
truth null = false
truth (bool b) = b
truth (int (pos zero)) = false
truth (int _) = true
truth (float (finite (pos zero))) = false
truth (float _) = true
truth (str s) = nonempty s
truth (arr nil) = false
truth (arr _) = true
truth (obj end) = false
truth (obj _) = true
