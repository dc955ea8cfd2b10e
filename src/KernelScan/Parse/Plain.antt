-- ===== src/KernelScan/Parse/Plain.antt =====
-- No published line holds a line end.
use pi_homelab.Base.{
  suc, ap, ◌∙◌, ◌≡◌, refl, ℕ, Bool, true, false, not, ◌&&◌, Option, none, some, List, [], ◌∷◌, ◌++◌,
}
use pi_homelab.Base.{all, contains, text_eq, arith, all_both, of_all-contains}
use pi_homelab.Base.Text.{Text, codes, is_line_end}
use pi_homelab.Base.Int.{ℤ, pos, negsuc}
use pi_homelab.Base.Affix.{lacks}
use pi_homelab.Base.{all_mono}
use pi_homelab.Base.Decimal.{is_digit, decimal, show, all-decimal}
use pi_homelab.Base.Unlines.{is_plain, is_plain-append}
use pi_homelab.KernelScan.Classes.{classes, severity_of}
use pi_homelab.KernelScan.Prom.{Totals, total_in, labels_of, event_line, event_lines, boot_line}
use pi_homelab.KernelScan.Prom.{
  time_line, sorted, prom_lines, boot_lines, last_boot_lines, time_lines, live_head, later_lines,
}

digit_plain : (c : ℕ) → is_digit c ≡ true → not (is_line_end c) ≡ true
unfolding is_line_end
digit_plain c h = ground arith

show-is_plain : (n : ℤ) → is_plain (show n) ≡ true
unfolding show
show-is_plain (pos n) = all_mono is_digit _ (decimal n) digit_plain (all-decimal n)
show-is_plain (negsuc n) =
    unfold is_line_end in all_mono is_digit _ (decimal (suc n)) digit_plain (all-decimal (suc n))

plain_labels : Text → Bool
unfolding severity_of text_eq is_line_end
plain_labels name = is_plain (labels_of name)

plain_classes : all plain_labels classes ≡ true
unfolding plain_labels classes
plain_classes = refl

labels_of-is_plain : (name : Text) → contains classes name ≡ true → is_plain (labels_of name) ≡ true
labels_of-is_plain name m =
    unfold plain_labels in of_all-contains plain_labels classes name plain_classes m

closed-is_plain :
    (name : Text) (n : ℤ)
    → contains classes name ≡ true
    → is_plain (labels_of name ++ b'}' ∷ b' ' ∷ show n) ≡ true
unfolding is_line_end
closed-is_plain name n m =
    is_plain-append (labels_of name) (b'}' ∷ b' ' ∷ show n)
    ∙ ap (λ x. x && is_plain (show n)) (labels_of-is_plain name m)
    ∙ show-is_plain n

event_line-is_plain :
    (live : Bool) (t : Totals) (name : Text)
    → contains classes name ≡ true
    → is_plain (event_line live t name) ≡ true
unfolding event_line is_line_end
event_line-is_plain true t name m = closed-is_plain name (total_in name t) m
event_line-is_plain false t name m = closed-is_plain name (total_in name t) m

event_lines-is_plain :
    (live : Bool) (t : Totals) (names : List Text)
    → all (contains classes) names ≡ true
    → all is_plain (event_lines live t names) ≡ true
unfolding event_lines
event_lines-is_plain live t [] h = refl
event_lines-is_plain live t (name ∷ names) h =
    ground (arith, event_line-is_plain live t name, event_lines-is_plain live t names)

pub sorted-classes : all (contains classes) (sorted classes) ≡ true
unfolding sorted classes text_eq
sorted-classes = refl

-- The texts that a scan is given hold no line end, and the boot id no quote.
abbrev pub plain_boot : Option Text → Bool
plain_boot none = true
plain_boot (some boot) = is_plain boot && lacks b'"' boot

boot_lines-is_plain :
    (boot : Option Text) → plain_boot boot ≡ true → all is_plain (boot_lines boot) ≡ true
unfolding boot_line is_line_end
boot_lines-is_plain none h = refl
boot_lines-is_plain (some boot) h =
    ap (λ x. x && true) {y = true} (is_plain-append boot (codes "\"} 1") ∙ ground arith)

last_boot_lines-is_plain :
    (last_boot : Option Totals) → all is_plain (last_boot_lines last_boot) ≡ true
unfolding is_line_end
last_boot_lines-is_plain none = refl
last_boot_lines-is_plain (some t) = event_lines-is_plain false t (sorted classes) sorted-classes

time_lines-is_plain : (now : Text) → is_plain now ≡ true → all is_plain (time_lines now) ≡ true
unfolding time_line is_line_end
time_lines-is_plain now h = ap (λ x. x && true) h

live_head-is_plain : all is_plain live_head ≡ true
unfolding is_line_end
live_head-is_plain = refl

pub prom_lines-is_plain :
    (t : Totals) (now : Text) (boot : Option Text) (last_boot : Option Totals)
    → plain_boot boot ≡ true
    → is_plain now ≡ true
    → all is_plain (prom_lines t now boot last_boot) ≡ true
unfolding prom_lines
prom_lines-is_plain t now boot last_boot b n =
    let live = event_lines true t (sorted classes) in
    let later = later_lines now boot last_boot in
    all_both is_plain live_head (live ++ later) live_head-is_plain (
      all_both is_plain live later (event_lines-is_plain true t (sorted classes) sorted-classes) (
        all_both is_plain (last_boot_lines last_boot) (boot_lines boot ++ time_lines now)
          (last_boot_lines-is_plain last_boot)
          (all_both is_plain (boot_lines boot) (time_lines now) (boot_lines-is_plain boot b)
            (time_lines-is_plain now n))))
