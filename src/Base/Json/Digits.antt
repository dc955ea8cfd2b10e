-- ===== src/Base/Json/Digits.antt =====
-- `int()` reads the decimal text of a number back.
use Prim.Native.Nat.{ℕ, ◌+◌, ◌-◌, ◌*◌, ◌≤◌}
use mathlib.Core.Path.{◌≡◌, refl}
use mathlib.Core.Bool.{Bool, true, false, not, ◌||◌}
use mathlib.Core.List.{[], ◌∷◌}
use mathlib.Core.Option.{some}
use native.Mathlib.Omega.{arith}
use pi_homelab.Base.Lists.{all, length}
use pi_homelab.Base.Text.{Text, strip, nonempty, is_space}
use pi_homelab.Base.Int.{pos}
use pi_homelab.Base.Decimal.{
  is_digit, number_from, decimal, all-decimal, nonempty-decimal, number_from-decimal,
}
use pi_homelab.Base.Affix.{strip_solid}
use pi_homelab.Base.{all_mono}
use pi_homelab.Base.Json
use pi_homelab.Base.Json.{parse_digits, sized, signed, int_of_text}

parse_digits-number :
    (acc count : ℕ) (after : Bool) (s : Text)
    → all is_digit s ≡ true
    → (nonempty s || after) ≡ true
    → parse_digits acc count after s ≡ some (number_from acc s, count + length s)
unfolding parse_digits Json.is_digit
parse_digits-number acc count after [] d n = ground arith
parse_digits-number acc count after (c ∷ s) d n =
    ground (arith, parse_digits-number (acc * 10 + (c - b'0')) (count + 1) true s)

sized-pos :
    (s : Text)
    → all is_digit s ≡ true
    → nonempty s ≡ true
    → length s ≤ 4300
    → sized pos (parse_digits 0 0 false s) ≡ some (pos (number_from 0 s))
unfolding sized
sized-pos s d n h = ground (arith, parse_digits-number 0 0 false s d)

signed-digits :
    (s : Text)
    → all is_digit s ≡ true
    → nonempty s ≡ true
    → length s ≤ 4300
    → signed s ≡ some (pos (number_from 0 s))
unfolding signed
signed-digits [] d n h = cc
signed-digits (c ∷ s) d n h = ground (arith, sized-pos (c ∷ s))

pub digit_solid : (c : ℕ) → is_digit c ≡ true → not (is_space c) ≡ true
unfolding is_space
digit_solid c h = ground arith

pub strip-decimal : (n : ℕ) → strip (decimal n) ≡ decimal n
strip-decimal n =
    strip_solid (decimal n) (all_mono is_digit _ (decimal n) digit_solid (all-decimal n))

-- `int(str(n))`, for the digits that `int` accepts.
pub int_of_text-decimal :
    (n : ℕ) → length (decimal n) ≤ 4300 → int_of_text (decimal n) ≡ some (pos n)
unfolding int_of_text
int_of_text-decimal n h =
    rw
      (
        strip-decimal n,
        signed-digits (decimal n) (all-decimal n) (nonempty-decimal n) h,
        number_from-decimal n,
      )
      refl
