-- ===== src/Base/Affix.antt =====
-- A text in front of another, and behind a separator of one character.
use Prim.Native.Nat.{ℕ}
use mathlib.Core.Path.{◌≡◌, refl}
use mathlib.Core.Bool.{Bool, true, false, not}
use mathlib.Core.List.{[], ◌∷◌, ◌++◌}
use native.Mathlib.Omega.{arith}
use pi_homelab.Base.Equality.{nat_eq, eqb}
use pi_homelab.Base.Lists.{all, length, drop}
use pi_homelab.Base.Text.{
  Text, is_space, strip, lstrip, rstrip, starts_with, is_infix, before, after,
}

pub starts_with-append : (p s : Text) → starts_with (p ++ s) p ≡ true
unfolding starts_with
starts_with-append [] [] = refl
starts_with-append [] (c ∷ s) = refl
starts_with-append (c ∷ p) s = ground (arith, starts_with-append p s)

pub drop-append : (p s : Text) → drop (length p) (p ++ s) ≡ s
drop-append [] s = refl
drop-append (c ∷ p) s = drop-append p s

-- No character of the text is this one.
abbrev pub lacks : ℕ → Text → Bool
lacks c s = all (λ d. not (eqb d c)) s

pub is_infix-lacks : (c : ℕ) (s : Text) → lacks c s ≡ true → is_infix (c ∷ []) s ≡ false
unfolding is_infix starts_with
is_infix-lacks c [] h = refl
is_infix-lacks c (d ∷ s) h = ground (arith, is_infix-lacks c s)

pub is_infix-middle : (c : ℕ) (l r : Text) → is_infix (c ∷ []) (l ++ c ∷ r) ≡ true
unfolding is_infix starts_with
is_infix-middle c [] [] = ground arith
is_infix-middle c [] (d ∷ r) = ground arith
is_infix-middle c (d ∷ l) r = ground (arith, is_infix-middle c l r)

pub before-lacks : (c : ℕ) (l r : Text) → lacks c l ≡ true → before (c ∷ []) (l ++ c ∷ r) ≡ l
unfolding before starts_with
before-lacks c [] [] h = ground arith
before-lacks c [] (d ∷ r) h = ground arith
before-lacks c (d ∷ l) r h = ground (arith, before-lacks c l r)

pub after-lacks : (c : ℕ) (l r : Text) → lacks c l ≡ true → after (c ∷ []) (l ++ c ∷ r) ≡ r
unfolding after starts_with
after-lacks c [] [] h = ground arith
after-lacks c [] (d ∷ r) h = ground arith
after-lacks c (d ∷ l) r h = ground (arith, after-lacks c l r)

lstrip_solid : (s : Text) → all (λ c. not (is_space c)) s ≡ true → lstrip is_space s ≡ s
unfolding lstrip
lstrip_solid [] h = refl
lstrip_solid (c ∷ s) h = ground arith

rstrip_solid : (s : Text) → all (λ c. not (is_space c)) s ≡ true → rstrip is_space s ≡ s
unfolding rstrip
rstrip_solid [] h = refl
rstrip_solid (c ∷ s) h = ground (arith, rstrip_solid s)

-- A text without white space is its own strip.
pub strip_solid : (s : Text) → all (λ c. not (is_space c)) s ≡ true → strip s ≡ s
unfolding strip
strip_solid s h = rw (lstrip_solid s h) (rstrip_solid s h)
