-- ===== src/KernelScan/Parse/Line.antt =====
-- How each line that is published is read back.
use pi_homelab.Base.{◌≡◌, refl, ◌∙◌, Bool, true, false, ◌&&◌, Option, none, some}
use pi_homelab.Base.{◌∷◌, ◌++◌, ◌==◌, all, contains, text_eq, nat_eq, arith}
use pi_homelab.Base.{of_all-contains}
use pi_homelab.Base.Text.{Text, codes, is_infix, starts_with, before, after}
use pi_homelab.Base.Int.{ℤ}
use pi_homelab.Base.Affix.{lacks, is_infix-middle, before-lacks, after-lacks}
use pi_homelab.Base.Decimal.{show}
use pi_homelab.Base.Result.{ok}
use pi_homelab.KernelScan.Classes.{classes, severity_of}
use pi_homelab.KernelScan.Prom.{Totals, total_in, labels_of, event_line, boot_line, time_line}
use pi_homelab.KernelScan.Parse.{Published, find_class, match_labels, match_event, match_boot}
use pi_homelab.KernelScan.Parse.{record_total, parse_line, with_class, match_tail}
use pi_homelab.KernelScan.Parse.Value.{is_exact, match_tail-show}

abbrev reads_as : Text → Option Text → Bool
reads_as name none = false
reads_as name (some n) = n == name

-- The labels of a class end at the bracket behind them, and name the class.
is_readable : Text → Bool
unfolding find_class severity_of text_eq
is_readable name = lacks b'}' (labels_of name) && reads_as name (find_class (labels_of name))

readable_classes : all is_readable classes ≡ true
unfolding is_readable classes
readable_classes = refl

of_reads_as : (name : Text) (o : Option Text) → reads_as name o ≡ true → o ≡ some name
of_reads_as name none h = cc
of_reads_as name (some n) h = ground arith

class_lacks : (name : Text) → contains classes name ≡ true → lacks b'}' (labels_of name) ≡ true
class_lacks name m =
    let known = of_all-contains is_readable classes name readable_classes m in
    unfold is_readable in ground arith

find_class-labels_of :
    (name : Text) → contains classes name ≡ true → find_class (labels_of name) ≡ some name
find_class-labels_of name m =
    let known = of_all-contains is_readable classes name readable_classes m in
    of_reads_as name (find_class (labels_of name)) (unfold is_readable in ground arith)

match_labels_closed :
    (live : Bool) (l r : Text)
    → lacks b'}' l ≡ true
    → match_labels live (l ++ b'}' ∷ r) ≡ with_class live (find_class l) (match_tail r)
unfolding match_labels
match_labels_closed live l r h =
    let close : is_infix (codes "}") (l ++ b'}' ∷ r) ≡ true = is_infix-middle b'}' l r in
    let front : before (codes "}") (l ++ b'}' ∷ r) ≡ l = before-lacks b'}' l r h in
    let back : after (codes "}") (l ++ b'}' ∷ r) ≡ r = after-lacks b'}' l r h in
    rw (close, front, back) refl

match_labels-event :
    (live : Bool) (name : Text) (n : ℤ)
    → contains classes name ≡ true
    → is_exact n ≡ true
    → match_labels live (labels_of name ++ b'}' ∷ b' ' ∷ show n) ≡ some (live, name, ok n)
match_labels-event live name n m e =
    match_labels_closed live (labels_of name) (b' ' ∷ show n) (class_lacks name m)
    ∙ rw (find_class-labels_of name m, match_tail-show n e) refl

match_event-event_line :
    (live : Bool) (t : Totals) (name : Text)
    → contains classes name ≡ true
    → is_exact (total_in name t) ≡ true
    → match_event (event_line live t name) ≡ some (live, name, ok (total_in name t))
unfolding match_event event_line starts_with
match_event-event_line true t name m e = match_labels-event true name (total_in name t) m e
match_event-event_line false t name m e = match_labels-event false name (total_in name t) m e

match_boot-event_line :
    (live : Bool) (t : Totals) (name : Text) → match_boot (event_line live t name) ≡ none
unfolding match_boot event_line starts_with
match_boot-event_line true t name = refl
match_boot-event_line false t name = refl

pub parse_line-event_line :
    (live : Bool) (t : Totals) (name : Text) (p : Published)
    → contains classes name ≡ true
    → is_exact (total_in name t) ≡ true
    → parse_line (event_line live t name) p ≡ ok (record_total live name p (total_in name t))
unfolding parse_line
parse_line-event_line live t name p m e =
    rw (match_boot-event_line live t name, match_event-event_line live t name m e, m) refl

match_boot-boot_line :
    (boot : Text) → lacks b'"' boot ≡ true → match_boot (boot_line boot) ≡ some boot
unfolding match_boot boot_line starts_with
match_boot-boot_line boot h =
    let tail = codes "} 1" in
    let quote : is_infix (codes "\"") (boot ++ b'"' ∷ tail) ≡ true =
      is_infix-middle b'"' boot tail in
    let front : before (codes "\"") (boot ++ b'"' ∷ tail) ≡ boot = before-lacks b'"' boot tail h in
    let back : after (codes "\"") (boot ++ b'"' ∷ tail) ≡ tail = after-lacks b'"' boot tail h in
    rw (quote, front, back) refl

pub parse_line-boot_line :
    (boot : Text) (p : Published)
    → lacks b'"' boot ≡ true
    → parse_line (boot_line boot) p ≡ ok (record p { boot_id = some boot })
unfolding parse_line
parse_line-boot_line boot p h = rw (match_boot-boot_line boot h) refl

pub parse_line-time_line : (now : Text) (p : Published) → parse_line (time_line now) p ≡ ok p
unfolding parse_line match_boot match_event time_line starts_with
parse_line-time_line now p = refl
