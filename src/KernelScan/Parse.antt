-- ===== src/KernelScan/Parse.antt =====
-- `parse_prom`: reading a published text back. The digits of the patterns are the ASCII ones.
pub mod Value
pub mod Line
pub mod Plain
pub mod RoundTrip
use pi_homelab.Base.{ℕ, zero, suc, ◌+◌, ◌-◌, ◌*◌, ◌/◌, ◌%◌, ◌^◌, Bool, true, false, not, ◌&&◌, ◌||◌}
use pi_homelab.Base.{
  Option, none, some, List, [], ◌∷◌, ◌++◌, ◌==◌, map, length, drop, all, contains,
}
use pi_homelab.Base.{text_eq, nat_eq, ltb, leb, eqb, if◌then◌else◌}
use pi_homelab.Base.Text.{
  Text, codes, strip, before, after, is_infix, starts_with, splitlines, is_space,
}
use pi_homelab.Base.Text.{nonempty}
use pi_homelab.Base.Dict.{Dict, insert}
use pi_homelab.Base.Int.{ℤ, pos, negsuc, sub_ℕ}
use pi_homelab.Base.Decimal.{is_digit, number_from}
use pi_homelab.Base.Result.{Result, ok, raise, overflow_error, ◌>>=◌}
use pi_homelab.KernelScan.Classes.{classes}
use pi_homelab.KernelScan.Prom.{Totals, events}

pub record Published : Type 0 where
  pub boot_id : Option Text
  pub counts : Totals
  pub last_boot : Totals

-- How many binary digits a number has, up to the fuel.
unfoldable pub bits : ℕ → ℕ → ℕ
bits zero n = 0
bits (suc fuel) n = elim (n == 0) [ true ↦ 0 | false ↦ suc (bits fuel (n / 2)) ]

-- a / b, ties to even.
unfoldable pub round_even : ℕ → ℕ → ℕ
round_even a b =
    let q = a / b in
    let twice = 2 * (a % b) in if ltb twice b then q else if ltb b twice then q + 1 else q + q % 2

-- The integer part of the double nearest to m / 10 ^ k, or none where that is infinite. The doubles
-- are multiples of 2 ^ -1074 with 53 binary digits, below 2 ^ 1024.
unfoldable pub nearest : ℕ → ℕ → Option ℕ
unfolding bits round_even
nearest m k =
    let scaled = m * 2 ^ 1074 in
    let size = bits (scaled + 1) (scaled / 10 ^ k) in
    let unit = if ltb 53 size then 2 ^ (size - 53) else 1 in
    let rounded = round_even scaled (10 ^ k * unit) * unit in
    if ltb rounded (2 ^ 2098) then some (rounded / 2 ^ 1074) else none

-- The same; an integer below 2 ^ 53 is a double.
unfoldable pub float_part : ℕ → ℕ → Option ℕ
unfolding nearest nat_eq
float_part m k = elim (k == 0 && ltb m (2 ^ 53)) [ true ↦ some m | false ↦ nearest m k ]

-- `(\d+(?:\.\d+)?)`, whole: the digits without the point, and how many stand behind it.
unfoldable pub match_number : Text → Option (ℕ × ℕ)
unfolding is_infix before after
match_number s =
    let point = codes "." in
    if not (is_infix point s)
    then (if nonempty s && all is_digit s then some (number_from 0 s, 0) else none)
    else if nonempty (before point s)
        && all is_digit (before point s)
        && nonempty (after point s)
        && all is_digit (after point s)
    then some (number_from 0 (before point s ++ after point s), length (after point s))
    else none

abbrev pub read_float : (ℕ → ℤ) → Option (ℕ × ℕ) → Option (Result ℤ)
read_float sign none = none
read_float sign (some (m, k)) = elim (float_part m k) [
  | none ↦ some (raise overflow_error)
  | some n ↦ some (ok (sign n))
]

-- `-?\d+(?:\.\d+)?`, and `int(float(value))` of what it matches.
unfoldable pub read_value : Text → Option (Result ℤ)
unfolding match_number float_part
read_value [] = none
read_value (c ∷ s) =
    if eqb c b'-'
    then read_float (sub_ℕ 0) (match_number s)
    else read_float pos (match_number (c ∷ s))

-- `\s+(?P<value>…)\s*$`
unfoldable pub match_tail : Text → Option (Result ℤ)
unfolding read_value strip is_space
match_tail [] = none
match_tail (c ∷ s) = if is_space c then read_value (strip s) else none

-- `[a-z0-9_]`
abbrev pub is_name_char : ℕ → Bool
is_name_char c = (leb b'a' c && leb c b'z') || is_digit c || eqb c b'_'

-- `class="([a-z0-9_]+)"` at the start.
unfoldable pub match_class : Text → Option Text
unfolding starts_with before is_infix
match_class s =
    let key = codes "class=\"" in
    let quote = codes "\"" in
    let rest = drop (length key) s in
    if starts_with s key
      && is_infix quote rest
      && nonempty (before quote rest)
      && all is_name_char (before quote rest)
    then some (before quote rest)
    else none

-- The last place in the labels where it matches: `[^}]*` in front of it is greedy.
unfoldable pub find_class : Text → Option Text
unfolding match_class
find_class [] = none
find_class (c ∷ s) = elim (find_class s) [ none ↦ match_class (c ∷ s) | some name ↦ some name ]

abbrev pub with_value : Bool → Text → Option (Result ℤ) → Option (Bool × Text × Result ℤ)
with_value live name none = none
with_value live name (some value) = some (live, name, value)

abbrev pub with_class : Bool → Option Text → Option (Result ℤ) → Option (Bool × Text × Result ℤ)
with_class live none value = none
with_class live (some name) value = with_value live name value

-- From the bracket on, for the live series or the other: neither `[^}]*` crosses a bracket.
unfoldable pub match_labels : Bool → Text → Option (Bool × Text × Result ℤ)
unfolding find_class match_tail is_infix before after
match_labels live s =
    let close = codes "}" in
    if not (is_infix close s)
    then none
    else with_class live (find_class (before close s)) (match_tail (after close s))

-- `_EVENT_LINE.match`
unfoldable pub match_event : Text → Option (Bool × Text × Result ℤ)
unfolding match_labels starts_with
match_event line =
    let live = events ++ codes "{" in
    let last_boot = events ++ codes "_last_boot{" in
    if starts_with line live
    then match_labels true (drop (length live) line)
    else if starts_with line last_boot
    then match_labels false (drop (length last_boot) line)
    else none

-- `_BOOT_ID_LINE.match`: `[^"]*` ends at the first quote.
unfoldable pub match_boot : Text → Option Text
unfolding starts_with before after is_infix
match_boot line =
    let key = codes "homelab_kernel_io_boot_id_info{boot_id=\"" in
    let quote = codes "\"" in
    let rest = drop (length key) line in
    if starts_with line key && is_infix quote rest && starts_with (after quote rest) (codes "}")
    then some (before quote rest)
    else none

abbrev pub record_total : Bool → Text → Published → ℤ → Published
record_total live name p n =
    if live
    then record p { counts = insert name n p.counts }
    else record p { last_boot = insert name n p.last_boot }

-- A class that is not known is passed over. An `OverflowError` is not caught.
abbrev pub take_event : Option (Bool × Text × Result ℤ) → Published → Result Published
take_event none p = ok p
take_event (some (live, name, value)) p =
    if contains classes name then (value >>= λ n. ok (record_total live name p n)) else ok p

abbrev pub take_line : Option Text → Option (Bool × Text × Result ℤ) → Published → Result Published
take_line (some boot) event p = ok (record p { boot_id = some boot })
take_line none event p = take_event event p

unfoldable pub parse_line : Text → Published → Result Published
unfolding match_boot match_event
parse_line line p = take_line (match_boot line) (match_event line) p

unfoldable pub parse_lines : List Text → Published → Result Published
unfolding parse_line
parse_lines [] p = ok p
parse_lines (line ∷ lines) p = parse_line line p >>= parse_lines lines

abbrev pub no_totals : Totals
no_totals = map (λ name. (name, pos 0)) classes

unfoldable pub parse_prom : Text → Result Published
unfolding parse_lines splitlines
parse_prom text =
    parse_lines (splitlines text)
      (record { boot_id = none; counts = no_totals; last_boot = no_totals })
