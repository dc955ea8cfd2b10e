-- ===== src/KernelScan/Pattern.antt =====
-- The regular expressions that the classifier uses: alternatives, each a row of atoms, searched
-- anywhere in a line and without regard to case. Digits and word characters are the ASCII ones.
use pi_homelab.Base.{ℕ, Bool, true, false, not, ◌&&◌, ◌||◌, List, [], ◌∷◌}
use pi_homelab.Base.{map, eqb, leb, if◌then◌else◌}
use pi_homelab.Base.Text.{Text, is_space, lower_char}

pub data Atom : Type 0 where
  -- one character
  one : (ℕ → Bool) → Atom
  -- `+`
  many : (ℕ → Bool) → Atom
  -- `?`
  optional : (ℕ → Bool) → Atom
  -- `\b`
  edge : Atom

abbrev pub Row : Type 0
Row = List Atom

-- Case is folded as `re.IGNORECASE` folds it: four letters beyond ASCII count as i, s and k.
unfoldable pub fold : ℕ → ℕ
unfolding lower_char
fold c =
    if eqb c 0x130 || eqb c 0x131
    then b'i'
    else if eqb c 0x17f
    then b's'
    else if eqb c 0x212a
    then b'k'
    else lower_char c

-- A literal, written in lower case.
unfoldable pub literal : Text → Row
unfolding fold
literal s = map (λ l. one (λ c. eqb (fold c) l)) s

unfoldable pub is_digit : ℕ → Bool
is_digit c = leb b'0' c && leb c b'9'

unfoldable pub is_solid : ℕ → Bool
unfolding is_space
is_solid c = not (is_space c)

unfoldable pub is_word : ℕ → Bool
unfolding is_digit lower_char
is_word c = is_digit c || eqb c b'_' || (leb b'a' (lower_char c) && leb (lower_char c) b'z')

unfoldable pub is_separator : ℕ → Bool
is_separator c = eqb c b'-' || eqb c b' '

unfoldable pub is_dash : ℕ → Bool
is_dash c = eqb c b'-'

abbrev next_is_word : Text → Bool
next_is_word [] = false
next_is_word (c ∷ _) = is_word c

abbrev differ : Bool → Bool → Bool
differ true b = not b
differ false b = b

-- A match of the row at the start of the text, behind a word character or not.
unfoldable pub match_here : Bool → Row → Text → Bool
match_here behind [] s = true
match_here behind (edge ∷ row) s = differ behind (next_is_word s) && match_here behind row s
match_here behind (one p ∷ row) [] = false
match_here behind (one p ∷ row) (c ∷ s) = p c && match_here (is_word c) row s
match_here behind (many p ∷ row) [] = false
match_here behind (many p ∷ row) (c ∷ s) =
    p c && (match_here (is_word c) row s || match_here (is_word c) (many p ∷ row) s)
match_here behind (optional p ∷ row) [] = match_here behind row []
match_here behind (optional p ∷ row) (c ∷ s) =
    match_here behind row (c ∷ s) || (p c && match_here (is_word c) row s)

-- The same at any place.
unfoldable pub find : Bool → Row → Text → Bool
unfolding match_here is_word
find behind row [] = match_here behind row []
find behind row (c ∷ s) = match_here behind row (c ∷ s) || find (is_word c) row s

-- `pattern.search(line)`
unfoldable pub search_any : List Row → Text → Bool
unfolding find
search_any [] s = false
search_any (row ∷ rows) s = find false row s || search_any rows s
