-- ===== src/Autodeploy/Shell/Lines.antt =====
-- The lines that the program prints, as the shell reads them.
use pi_homelab.Base.{
  ℕ, Bool, true, false, not, ◌&&◌, List, [], ◌∷◌, ◌++◌, ◌≡◌, refl, ap, ◌∙◌, eqb, arith,
}
use pi_homelab.Base.{all, filter, if◌then◌else◌}
use pi_homelab.Base.Text.{Text, nonempty, split_on, push_first}
use pi_homelab.Base.Unlines.{unlines}
use pi_homelab.Autodeploy.Shell.{lines_of, without_last}

-- A text that `read` gives as one line.
abbrev pub is_line : Text → Bool
is_line line = nonempty line && all (λ c. not (eqb c 10)) line

split_on-line :
    (line s : Text)
    → all (λ c. not (eqb c 10)) line ≡ true
    → split_on 10 (line ++ 10 ∷ s) ≡ line ∷ split_on 10 s
unfolding split_on
split_on-line [] s h = refl
split_on-line (c ∷ line) s h = ground (arith, split_on-line line s)

pieces_more :
    (b : Bool) (c : ℕ) (line : Text) (pieces : List Text)
    → without_last (line ∷ (if b then [] ∷ pieces else push_first c pieces))
      ≡ line ∷ without_last (if b then [] ∷ pieces else push_first c pieces)
pieces_more true c line pieces = refl
pieces_more false c line [] = refl
pieces_more false c line (w ∷ ws) = refl

split_on-more :
    (s : Text) (line : Text)
    → without_last (line ∷ split_on 10 s) ≡ line ∷ without_last (split_on 10 s)
unfolding split_on
split_on-more [] line = refl
split_on-more (c ∷ s) line = pieces_more (eqb c 10) c line (split_on 10 s)

lines-unlines :
    (lines : List Text)
    → all is_line lines ≡ true
    → without_last (split_on 10 (unlines lines)) ≡ lines
unfolding unlines
lines-unlines [] h = unfold split_on in refl
lines-unlines (line ∷ lines) h =
    rw (split_on-line line (unlines lines) (ground arith), split_on-more (unlines lines) line)
      (ap (λ l. line ∷ l) (lines-unlines lines (ground arith)))

filter_lines : (lines : List Text) → all is_line lines ≡ true → filter nonempty lines ≡ lines
filter_lines [] h = refl
filter_lines (line ∷ lines) h = ground (arith, filter_lines lines)

pub lines_of-unlines :
    (lines : List Text) → all is_line lines ≡ true → lines_of (unlines lines) ≡ lines
unfolding lines_of
lines_of-unlines lines h = ap (filter nonempty) (lines-unlines lines h) ∙ filter_lines lines h
