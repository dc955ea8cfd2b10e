-- ===== src/NfsClient/Validity.antt =====
-- `valid_number` and `valid_status`.
use pi_homelab.Base.{ℕ, ◌*◌, ◌^◌, Bool, false, not, ◌&&◌, ◌||◌, Option, none, some, List, [], ◌∷◌}
use pi_homelab.Base.{◌==◌, nat_eq, text_eq, contains, all, leb}
use pi_homelab.Base.Text.{Text, codes}
use pi_homelab.Base.Dict.{Dict, lookup}
use pi_homelab.Base.Int.{pos}
use pi_homelab.Base.Json.{Value, bool, int, float, finite, str, obj, entries}

abbrev pub exports : List Text
exports = codes "srv" ∷ codes "generated" ∷ []

abbrev pub states : List Text
states = codes "healthy" ∷ codes "hung" ∷ codes "unknown" ∷ codes "unmounted" ∷ []

-- A number that is valid: an integer, or a multiple of 2^-1074.
pub data Amount : Type 0 where
  whole fraction : ℕ → Amount

-- The amount of a value that `valid_number` accepts. A bool is no number here.
abbrev pub amount : Option Value → Option Amount
amount (some (int (pos n))) = some (whole n)
amount (some (float (finite (pos n)))) = some (fraction n)
amount _ = none

-- `a <= b`, exact as Python compares.
abbrev pub at_most : Amount → Amount → Bool
at_most (whole a) (whole b) = leb a b
at_most (whole a) (fraction b) = leb (a * 2 ^ 1074) b
at_most (fraction a) (whole b) = leb a (b * 2 ^ 1074)
at_most (fraction a) (fraction b) = leb a b

abbrev pub is_zero : Amount → Bool
is_zero (whole n) = n == 0
is_zero (fraction n) = n == 0

abbrev pub is_one : Amount → Bool
is_one (whole n) = n == 1
is_one (fraction n) = n == 2 ^ 1074

-- `value.get("schema") != 1`, where `True` counts as 1.
abbrev pub is_schema : Option Value → Bool
is_schema (some (bool b)) = b
is_schema v = elim (amount v) [ none ↦ false | some a ↦ is_one a ]

abbrev pub is_state : Option Value → Bool
is_state (some (str s)) = contains states s
is_state _ = false

abbrev pub are_counts : Amount → Option Amount → Option Amount → Option Amount → Bool
are_counts checked (some read) (some recoveries) (some ok) =
    at_most read checked && (is_zero ok || is_one ok)
are_counts checked _ _ _ = false

abbrev pub fields_of : Option Value → Option (Dict Text Value)
fields_of (some (obj fs)) = some (entries fs)
fields_of _ = none

unfoldable pub valid_item : Amount → Dict Text Value → Bool
unfolding entries
valid_item checked item =
    is_state (lookup (codes "state") item)
    && are_counts checked (amount (lookup (codes "last_read_ok") item))
        (amount (lookup (codes "recoveries") item)) (amount (lookup (codes "recovery_ok") item))

abbrev pub valid_export : Amount → Dict Text Value → Text → Bool
valid_export checked d name = elim (fields_of (lookup name d)) [
  | none ↦ false
  | some item ↦ valid_item checked item
]

unfoldable pub valid_exports : Amount → Option Value → Bool
unfolding valid_item
valid_exports checked v = elim (fields_of v) [
  | none ↦ false
  | some d ↦ all (valid_export checked d) exports
]

abbrev pub is_checked : ℕ → Amount → Bool
is_checked now checked = at_most checked (whole now) && not (is_zero checked)

unfoldable pub valid_fields : Dict Text Value → ℕ → Bool
unfolding valid_exports
valid_fields d now =
    is_schema (lookup (codes "schema") d) && (elim (amount (lookup (codes "checked_at") d)) [
      | none ↦ false
      | some checked ↦ is_checked now checked && valid_exports checked (lookup (codes "exports") d)
    ])

unfoldable pub valid_status : Value → ℕ → Bool
unfolding valid_fields
valid_status value now = elim (fields_of (some value)) [
  | none ↦ false
  | some d ↦ valid_fields d now
]
