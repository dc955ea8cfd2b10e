-- ===== src/Base/Text.antt =====
-- Texts as lists of code points, and the `str` methods that the programs use. `lower` changes the
-- ASCII letters only.
use Prim.Native.Char.{code}
use Prim.Native.Nat.{ℕ, ◌+◌}
use Prim.Native.String.{String}
use mathlib.Core.Bool.{Bool, true, false, not, ◌&&◌, ◌||◌}
use mathlib.Core.List.{List, [], ◌∷◌, map}
use pi_homelab.Base.Lists.{length, drop}
use pi_homelab.Base.Equality.{leb, eqb, ◌==◌, text_eq, if◌then◌else◌}

abbrev pub Text : Type 0
Text = List ℕ

abbrev pub codes : String → Text
codes String.[] = []
codes (String.◌∷◌ c s) = code c ∷ codes s

-- `str.isspace` of one character.
unfoldable pub is_space : ℕ → Bool
is_space c =
    (leb 9 c && leb c 13)
    || (leb 28 c && leb c 32)
    || eqb c 0x85
    || eqb c 0xa0
    || eqb c 0x1680
    || (leb 0x2000 c && leb c 0x200a)
    || eqb c 0x2028
    || eqb c 0x2029
    || eqb c 0x202f
    || eqb c 0x205f
    || eqb c 0x3000

-- Python's truth of a text.
abbrev pub nonempty : Text → Bool
nonempty [] = false
nonempty (_ ∷ _) = true

-- `s.lstrip(chars)`, for the characters that pass the test.
unfoldable pub lstrip : (ℕ → Bool) → Text → Text
lstrip p [] = []
lstrip p (c ∷ s) = if p c then lstrip p s else c ∷ s

-- `s.rstrip(chars)`
unfoldable pub rstrip : (ℕ → Bool) → Text → Text
rstrip p [] = []
rstrip p (c ∷ s) = let rest = rstrip p s in if p c && not (nonempty rest) then [] else c ∷ rest

-- `s.strip()`
unfoldable pub strip : Text → Text
unfolding lstrip rstrip is_space
strip s = rstrip is_space (lstrip is_space s)

unfoldable pub lower_char : ℕ → ℕ
lower_char c = if leb b'A' c && leb c b'Z' then c + 32 else c

-- `s.lower()`
unfoldable pub lower : Text → Text
unfolding lower_char
lower s = map lower_char s

-- `s.startswith(p)`
unfoldable pub starts_with : Text → Text → Bool
starts_with s [] = true
starts_with [] (c ∷ p) = false
starts_with (d ∷ s) (c ∷ p) = eqb d c && starts_with s p

-- `s.endswith(p)`
unfoldable pub ends_with : Text → Text → Bool
ends_with [] p = [] == p
ends_with (c ∷ s) p = (c ∷ s) == p || ends_with s p

-- `p in s`
unfoldable pub is_infix : Text → Text → Bool
unfolding starts_with
is_infix p [] = starts_with [] p
is_infix p (c ∷ s) = starts_with (c ∷ s) p || is_infix p s

-- Puts a character in front of the first piece.
abbrev pub push_first : ℕ → List Text → List Text
push_first c [] = (c ∷ []) ∷ []
push_first c (w ∷ ws) = (c ∷ w) ∷ ws

-- `s.split(sep)` for a separator of one character: there is always a first piece.
unfoldable pub split_on : ℕ → Text → List Text
split_on sep [] = [] ∷ []
split_on sep (c ∷ s) =
    let rest = split_on sep s in if eqb c sep then [] ∷ rest else push_first c rest

-- `s.replace(a, b)` for single characters.
unfoldable pub replace_char : ℕ → ℕ → Text → Text
replace_char a b s = map (λ c. if eqb c a then b else c) s

-- The line ends of `splitlines`.
unfoldable pub is_line_end : ℕ → Bool
is_line_end c =
    (leb 10 c && leb c 13) || (leb 28 c && leb c 30) || eqb c 0x85 || eqb c 0x2028 || eqb c 0x2029

-- `s.splitlines()`: a carriage return with its line feed is one end, and a last end opens no line.
unfoldable pub splitlines : Text → List Text
unfolding is_line_end starts_with
splitlines [] = []
splitlines (c ∷ s) =
    let rest = splitlines s in
    if eqb c 13 && starts_with s (10 ∷ [])
    then rest
    else if is_line_end c
    then [] ∷ rest
    else push_first c rest

-- `s.partition(sep)[0]`
unfoldable pub before : Text → Text → Text
unfolding starts_with
before sep [] = []
before sep (c ∷ s) = if starts_with (c ∷ s) sep then [] else c ∷ before sep s

-- `s.partition(sep)[2]`
unfoldable pub after : Text → Text → Text
unfolding starts_with
after sep [] = []
after sep (c ∷ s) = if starts_with (c ∷ s) sep then drop (length sep) (c ∷ s) else after sep s
