-- ===== src/KernelScan/Parse/RoundTrip.antt =====
-- A published text is read back as what was published.
use pi_homelab.Base.{◌≡◌, refl, sym, ap, ◌∙◌, Bool, true, false, Option, none, some, List, []}
use pi_homelab.Base.{◌∷◌, ◌++◌, all, contains, text_eq, arith, map, of_all-contains}
use pi_homelab.Base.Text.{Text, starts_with}
use pi_homelab.Base.Dict.{insert}
use pi_homelab.Base.Unlines.{is_plain, splitlines-unlines}
use pi_homelab.Base.Result.{Result, ok, raise, ◌>>=◌}
use pi_homelab.KernelScan.Classes.{classes}
use pi_homelab.KernelScan.Prom.{Totals, total_in, event_lines, boot_line, time_line, sorted}
use pi_homelab.KernelScan.Prom.{
  prom_lines, boot_lines, last_boot_lines, time_lines, live_head, later_lines,
}
use pi_homelab.KernelScan.Prom.{last_boot_head, render_prom}
use pi_homelab.KernelScan.Parse.{
  Published, parse_line, parse_lines, parse_prom, no_totals, record_total,
}
use pi_homelab.KernelScan.Parse.{match_boot, match_event}
use pi_homelab.KernelScan.Parse.Value.{is_exact}
use pi_homelab.KernelScan.Parse.Line.{parse_line-event_line, parse_line-boot_line}
use pi_homelab.KernelScan.Parse.Plain.{plain_boot, prom_lines-is_plain, sorted-classes}

-- The totals of each class, in the order of the table.
abbrev pub listed : Totals → Totals
listed t = map (λ name. (name, total_in name t)) classes

-- Every class has a total that a double keeps.
abbrev pub all_exact : Totals → Bool
all_exact t = all (λ name. is_exact (total_in name t)) classes

>>=_assoc :
    (r : Result Published) (f g : Published → Result Published)
    → ((r >>= f) >>= g) ≡ (r >>= λ p. f p >>= g)
>>=_assoc (ok p) f g = refl
>>=_assoc (raise e) f g = refl

>>=_cong :
    (r : Result Published) (f g : Published → Result Published)
    → ((p : Published) → f p ≡ g p)
    → (r >>= f) ≡ (r >>= g)
>>=_cong (ok p) f g h = h p
>>=_cong (raise e) f g h = refl

parse_lines-append :
    (xs ys : List Text) (p : Published)
    → parse_lines (xs ++ ys) p ≡ (parse_lines xs p >>= parse_lines ys)
unfolding parse_lines
parse_lines-append [] ys p = refl
parse_lines-append (x ∷ xs) ys p =
    >>=_cong (parse_line x p) _ _ (parse_lines-append xs ys)
    ∙ sym (>>=_assoc (parse_line x p) (parse_lines xs) (parse_lines ys))

abbrev recorded : Bool → Totals → List Text → Published → Published
recorded live t [] p = p
recorded live t (name ∷ names) p =
    recorded live t names (record_total live name p (total_in name t))

parse_lines-event_lines :
    (live : Bool) (t : Totals) (names : List Text) (p : Published)
    → all (contains classes) names ≡ true
    → all_exact t ≡ true
    → parse_lines (event_lines live t names) p ≡ ok (recorded live t names p)
unfolding parse_lines event_lines
parse_lines-event_lines live t [] p h e = refl
parse_lines-event_lines live t (name ∷ names) p h e =
    rw
      (parse_line-event_line live t name p (ground arith)
        (of_all-contains (λ n. is_exact (total_in n t)) classes name e (ground arith)))
      (parse_lines-event_lines live t names (record_total live name p (total_in name t))
        (ground arith) e)

recorded_all :
    (t u : Totals) (boot : Option Text)
    → (recorded true t
        (sorted classes)
        (record { boot_id = boot; counts = no_totals; last_boot = u }))
      ≡ record { boot_id = boot; counts = listed t; last_boot = u }
unfolding sorted classes insert text_eq
recorded_all t u boot = refl

recorded_last_boot :
    (t u : Totals) (boot : Option Text)
    → (recorded false t
        (sorted classes)
        (record { boot_id = boot; counts = u; last_boot = no_totals }))
      ≡ record { boot_id = boot; counts = u; last_boot = listed t }
unfolding sorted classes insert text_eq
recorded_last_boot t u boot = refl

-- The totals of the last boot that are read back: zeros where none were published.
abbrev pub listed_or_zeros : Option Totals → Totals
listed_or_zeros none = no_totals
listed_or_zeros (some t) = listed t

abbrev pub exact_or_none : Option Totals → Bool
exact_or_none none = true
exact_or_none (some t) = all_exact t

parse_head : (p : Published) → parse_lines live_head p ≡ ok p
unfolding parse_lines parse_line match_boot match_event starts_with
parse_head p = refl

parse_last_boot_head : (p : Published) → parse_lines last_boot_head p ≡ ok p
unfolding parse_lines parse_line match_boot match_event starts_with
parse_last_boot_head p = refl

parse_time : (now : Text) (p : Published) → parse_lines (time_lines now) p ≡ ok p
unfolding parse_lines parse_line match_boot match_event starts_with time_line
parse_time now p = refl

abbrev pub published : Option Text → Totals → Totals → Published
published boot counts last_boot = record { boot_id = boot; counts = counts; last_boot = last_boot }

parse_then :
    (xs ys : List Text) (p q : Published) {r : Published}
    → parse_lines xs p ≡ ok q
    → parse_lines ys q ≡ ok r
    → parse_lines (xs ++ ys) p ≡ ok r
parse_then xs ys p q h k = parse_lines-append xs ys p ∙ rw h k

parse_last_boot :
    (t : Option Totals) (u : Totals)
    → exact_or_none t ≡ true
    → parse_lines (last_boot_lines t) (published none u no_totals)
      ≡ ok (published none u (listed_or_zeros t))
parse_last_boot none u h = unfold parse_lines in refl
parse_last_boot (some t) u h =
    parse_then last_boot_head (event_lines false t (sorted classes)) _ _ (parse_last_boot_head _) (
      parse_lines-event_lines false t (sorted classes) _ sorted-classes h
      ∙ ap ok (recorded_last_boot t u none))

parse_boot_head :
    (boot : Text) (p : Published)
    → parse_lines (boot_lines (some boot)) p ≡ (parse_line (boot_line boot) p >>= ok)
unfolding parse_lines parse_line match_boot match_event starts_with
parse_boot_head boot p = refl

parse_boot :
    (boot : Option Text) (counts last_boot : Totals)
    → plain_boot boot ≡ true
    → parse_lines (boot_lines boot) (published none counts last_boot)
      ≡ ok (published boot counts last_boot)
parse_boot none counts last_boot h = unfold parse_lines in refl
parse_boot (some boot) counts last_boot h =
    parse_boot_head boot _
    ∙ rw (parse_line-boot_line boot (published none counts last_boot) (ground arith)) refl

parse_lines-prom_lines :
    (t : Totals) (now : Text) (boot : Option Text) (last_boot : Option Totals)
    → all_exact t ≡ true
    → exact_or_none last_boot ≡ true
    → plain_boot boot ≡ true
    → parse_lines (prom_lines t now boot last_boot) (published none no_totals no_totals)
      ≡ ok (published boot (listed t) (listed_or_zeros last_boot))
unfolding prom_lines
parse_lines-prom_lines t now boot last_boot e l b =
    let live = event_lines true t (sorted classes) in
    let later = later_lines now boot last_boot in
    let start = published none no_totals no_totals in
    parse_then live_head (live ++ later) start start (parse_head start) (
      parse_then live later start (published none (listed t) no_totals)
        (parse_lines-event_lines true t (sorted classes) start sorted-classes e
          ∙ ap ok (recorded_all t no_totals none))
        (parse_then (last_boot_lines last_boot) (boot_lines boot ++ time_lines now)
          (published none (listed t) no_totals)
          (published none (listed t) (listed_or_zeros last_boot))
          (parse_last_boot last_boot (listed t) l)
          (parse_then (boot_lines boot) (time_lines now)
            (published none (listed t) (listed_or_zeros last_boot))
            (published boot (listed t) (listed_or_zeros last_boot))
            (parse_boot boot (listed t) (listed_or_zeros last_boot) b)
            (parse_time now (published boot (listed t) (listed_or_zeros last_boot))))))

-- A text that a scan publishes is read back: the boot id, and for each class the totals of the scan
-- and those of the last boot, zeros where none were published. The totals are below 2 ^ 53 in size,
-- which a double keeps, the boot id and the time hold no line end, and the boot id no quote.
pub parse_prom-render_prom :
    (t : Totals) (now : Text) (boot : Option Text) (last_boot : Option Totals)
    → all_exact t ≡ true
    → exact_or_none last_boot ≡ true
    → plain_boot boot ≡ true
    → is_plain now ≡ true
    → parse_prom (render_prom t now boot last_boot)
      ≡ ok (record { boot_id = boot; counts = listed t; last_boot = listed_or_zeros last_boot })
unfolding parse_prom render_prom
parse_prom-render_prom t now boot last_boot e l b n =
    let lines = prom_lines t now boot last_boot in
    ap (λ read. parse_lines read (published none no_totals no_totals))
      (splitlines-unlines lines (prom_lines-is_plain t now boot last_boot b n))
    ∙ parse_lines-prom_lines t now boot last_boot e l b
