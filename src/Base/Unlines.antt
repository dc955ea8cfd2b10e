-- ===== src/Base/Unlines.antt =====
-- Lines and the text that they make, and reading them back.
use mathlib.Core.Path.{◌≡◌, refl}
use mathlib.Core.Bool.{Bool, true, not, ◌&&◌}
use mathlib.Core.List.{List, [], ◌∷◌, ◌++◌}
use native.Mathlib.Omega.{arith}
use pi_homelab.Base.Lists.{all, all-append}
use pi_homelab.Base.Text.{Text, is_line_end, splitlines}

-- `"\n".join(lines) + "\n"`, for at least one line.
unfoldable pub unlines : List Text → Text
unlines [] = []
unlines (line ∷ lines) = line ++ 10 ∷ unlines lines

abbrev pub is_plain : Text → Bool
is_plain line = all (λ c. not (is_line_end c)) line

pub is_plain-append : (s t : Text) → is_plain (s ++ t) ≡ (is_plain s && is_plain t)
is_plain-append s t = all-append _ s t

splitlines-line :
    (line s : Text) → is_plain line ≡ true → splitlines (line ++ 10 ∷ s) ≡ line ∷ splitlines s
unfolding splitlines is_line_end
splitlines-line [] s h = refl
splitlines-line (c ∷ line) s h = ground (arith, splitlines-line line s)

-- Lines without a line end of their own are read back.
pub splitlines-unlines :
    (lines : List Text) → all is_plain lines ≡ true → splitlines (unlines lines) ≡ lines
unfolding unlines
splitlines-unlines [] h = unfold splitlines in refl
splitlines-unlines (line ∷ lines) h =
    rw (splitlines-line line (unlines lines) (ground arith))
      (ground (arith, splitlines-unlines lines))
