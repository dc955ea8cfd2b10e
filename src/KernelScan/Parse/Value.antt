-- ===== src/KernelScan/Parse/Value.antt =====
-- A published count is read back.
use pi_homelab.Base.{◌≡◌, refl, ap, ◌∙◌, ℕ, ◌^◌, suc, Bool, true, not, ◌&&◌, some}
use pi_homelab.Base.{[], ◌∷◌, all, ltb, eqb, arith, nat_eq}
use pi_homelab.Base.Text.{Text, is_space, nonempty}
use pi_homelab.Base.Int.{ℤ, pos, negsuc, pos_part, neg_part, sub_ℕ}
use pi_homelab.Base.Decimal.{is_digit, decimal, show, number_from-decimal, all-decimal}
use pi_homelab.Base.Decimal.{nonempty-decimal}
use pi_homelab.Base.Json.Digits.{digit_solid}
use pi_homelab.Base.Affix.{lacks, is_infix-lacks, strip_solid}
use pi_homelab.Base.{all_mono}
use pi_homelab.Base.Result.{ok}
use pi_homelab.KernelScan.Parse.{match_number, float_part, read_float, read_value, match_tail}

-- The integers that a double keeps exactly, but for the bound itself.
abbrev pub is_exact : ℤ → Bool
is_exact n = ltb (pos_part n) (2 ^ 53) && ltb (neg_part n) (2 ^ 53)

digit_no_point : (c : ℕ) → is_digit c ≡ true → not (eqb c b'.') ≡ true
digit_no_point c h = ground arith

match_number-decimal : (n : ℕ) → match_number (decimal n) ≡ some (n, 0)
unfolding match_number
match_number-decimal n =
    let digits = all-decimal n in
    let dense : lacks b'.' (decimal n) ≡ true =
      all_mono is_digit _ (decimal n) digit_no_point digits in
    rw (is_infix-lacks b'.' (decimal n) dense, nonempty-decimal n, digits, number_from-decimal n)
      refl

float_part_exact : (n : ℕ) → ltb n (2 ^ 53) ≡ true → float_part n 0 ≡ some n
unfolding float_part nat_eq
float_part_exact n h = rw (h, float_part) refl

read_float-decimal :
    (sign : ℕ → ℤ) (n : ℕ)
    → ltb n (2 ^ 53) ≡ true
    → read_float sign (match_number (decimal n)) ≡ some (ok (sign n))
read_float-decimal sign n h = rw (match_number-decimal n, float_part_exact n h, read_float) refl

read_value_digits :
    (s : Text)
    → nonempty s ≡ true
    → all is_digit s ≡ true
    → read_value s ≡ read_float pos (match_number s)
unfolding read_value
read_value_digits [] h d = cc
read_value_digits (c ∷ s) h d = ground arith

read_value-show : (n : ℤ) → is_exact n ≡ true → read_value (show n) ≡ some (ok n)
unfolding show
read_value-show (pos n) h =
    rw (read_value_digits (decimal n) (nonempty-decimal n) (all-decimal n))
      (read_float-decimal pos n (ground arith))
read_value-show (negsuc n) h =
    unfold read_value in
    read_float-decimal (sub_ℕ 0) (suc n) (ground arith) ∙ ap (λ m. some (ok m)) (ground arith)

show_solid : (n : ℤ) → all (λ c. not (is_space c)) (show n) ≡ true
unfolding show
show_solid (pos n) = all_mono is_digit _ (decimal n) digit_solid (all-decimal n)
show_solid (negsuc n) =
    unfold is_space in all_mono is_digit _ (decimal (suc n)) digit_solid (all-decimal (suc n))

pub match_tail-show : (n : ℤ) → is_exact n ≡ true → match_tail (b' ' ∷ show n) ≡ some (ok n)
unfolding match_tail is_space
match_tail-show n h = rw (strip_solid (show n) (show_solid n)) (read_value-show n h)
