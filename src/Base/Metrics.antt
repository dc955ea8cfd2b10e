-- ===== src/Base/Metrics.antt =====
-- What the collectors share: `_num`, and the lines of a metric in the exposition format.
use mathlib.Core.Bool.{Bool, true, false, not}
use mathlib.Core.List.{List, [], ◌∷◌, ◌++◌, map}
use mathlib.Core.Option.{Option, none, some}
use pi_homelab.Base.Equality.{eqb}
use pi_homelab.Base.Lists.{filter}
use pi_homelab.Base.Text.{Text, codes}
use pi_homelab.Base.Int.{ℤ, pos}
use pi_homelab.Base.Decimal.{show}
use pi_homelab.Base.Json.{Value, float, infinite, int_of}
use pi_homelab.Base.Result.{Result, ok, raise, type_error, value_error}

-- The handler of `_num`: a `TypeError` or a `ValueError` counts as 0, any other exception escapes.
abbrev pub or_zero : Result ℤ → Result ℤ
or_zero (raise type_error) = ok (pos 0)
or_zero (raise value_error) = ok (pos 0)
or_zero r = r

-- `_num(d.get(key))`: `None` is no number.
unfoldable pub num : Option Value → Result ℤ
unfolding int_of
num none = ok (pos 0)
num (some v) = or_zero (int_of v)

-- `s.replace('"', "")`
unfoldable pub unquoted : Text → Text
unquoted s = filter (λ c. not (eqb c b'"')) s

pub data Kind : Type 0 where
  gauge counter : Kind

abbrev pub kind_name : Kind → Text
kind_name gauge = codes " gauge"
kind_name counter = codes " counter"

-- A sample: its labels and its number, as texts.
abbrev pub Sample : Type 0
Sample = Text × Text

abbrev pub sample_line : Text → Sample → Text
sample_line name (labels, n) = name ++ (labels ++ b' ' ∷ n)

abbrev pub family : Kind → Text → Text → List Sample → List Text
family kind name help samples =
    (codes "# HELP " ++ (name ++ b' ' ∷ help))
    ∷ (codes "# TYPE " ++ (name ++ kind_name kind))
    ∷ map (sample_line name) samples

-- The metric with the one sample.
abbrev pub single : Kind → Text → Text → Text → ℤ → List Text
single kind name help labels n = family kind name help ((labels, show n) ∷ [])

-- A label with its value.
abbrev pub label : Text → Text → Text
label key value = b'{' ∷ (key ++ (codes "=\"" ++ (value ++ codes "\"}")))

abbrev pub one_if : Bool → ℤ
one_if true = pos 1
one_if false = pos 0

-- Python's `float('inf')`, the one JSON value that `_num` does not get past.
abbrev pub is_infinite : Option Value → Bool
is_infinite (some (float infinite)) = true
is_infinite _ = false
