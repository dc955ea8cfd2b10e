-- ===== src/Base/Decimal.antt =====
-- How Python writes an integer, and that its digits stand for it.
use Prim.Native.Nat.{ℕ, zero, suc, ◌+◌, ◌-◌, ◌*◌, ◌/◌, ◌%◌, ◌<◌}
use mathlib.Core.Path.{◌≡◌, refl}
use mathlib.Core.Bool.{Bool, true, ◌&&◌}
use mathlib.Core.List.{[], ◌∷◌}
use native.Mathlib.Omega.{arith}
use pi_homelab.Base.Equality.{leb, ltb, if◌then◌else◌}
use pi_homelab.Base.Lists.{all}
use pi_homelab.Base.Text.{Text, nonempty}
use pi_homelab.Base.Int.{ℤ, pos, negsuc}

-- An ASCII digit.
abbrev pub is_digit : ℕ → Bool
is_digit c = leb b'0' c && leb c b'9'

-- Puts the digits of a number in front of a text. A number has fewer digits than its successor counts.
digits_from : ℕ → ℕ → Text → Text
digits_from zero n out = out
digits_from (suc fuel) n out =
    let more = digits_from fuel (n / 10) ((b'0' + n % 10) ∷ out) in
    if ltb n 10 then (b'0' + n % 10) ∷ out else more

-- `str(n)`
unfoldable pub decimal : ℕ → Text
unfolding digits_from
decimal n = digits_from (suc n) n []

unfoldable pub show : ℤ → Text
unfolding decimal
show (pos n) = decimal n
show (negsuc n) = b'-' ∷ decimal (suc n)

-- The number that digits stand for, behind those already read.
abbrev pub number_from : ℕ → Text → ℕ
number_from n [] = n
number_from n (c ∷ s) = number_from (n * 10 + (c - b'0')) s

number_from-digits :
    (fuel n : ℕ) (out : Text)
    → n < fuel
    → number_from 0 (digits_from fuel n out) ≡ number_from n out
unfolding digits_from
number_from-digits zero n out h = elim h [ ]
number_from-digits (suc fuel) n out h =
    ground (arith, number_from-digits fuel (n / 10) ((b'0' + n % 10) ∷ out))

pub number_from-decimal : (n : ℕ) → number_from 0 (decimal n) ≡ n
unfolding decimal
number_from-decimal n = number_from-digits (suc n) n [] (omega arith)

all-digits_from :
    (fuel n : ℕ) (out : Text)
    → all is_digit out ≡ true
    → all is_digit (digits_from fuel n out) ≡ true
unfolding digits_from
all-digits_from zero n out h = h
all-digits_from (suc fuel) n out h =
    ground (arith, all-digits_from fuel (n / 10) ((b'0' + n % 10) ∷ out))

pub all-decimal : (n : ℕ) → all is_digit (decimal n) ≡ true
unfolding decimal
all-decimal n = all-digits_from (suc n) n [] refl

nonempty-digits_from :
    (fuel n : ℕ) (out : Text) → nonempty out ≡ true → nonempty (digits_from fuel n out) ≡ true
unfolding digits_from
nonempty-digits_from zero n out h = h
nonempty-digits_from (suc fuel) n out h =
    ground (arith, nonempty-digits_from fuel (n / 10) ((b'0' + n % 10) ∷ out))

pub nonempty-decimal : (n : ℕ) → nonempty (decimal n) ≡ true
unfolding decimal digits_from
nonempty-decimal n = ground (arith, nonempty-digits_from n (n / 10) ((b'0' + n % 10) ∷ []))
