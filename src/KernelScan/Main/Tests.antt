-- ===== src/KernelScan/Main/Tests.antt =====
-- Runs of `main` and reading back, at concrete texts.
use pi_homelab.Base.{true, ◌≡◌, refl, some, none, [], ◌∷◌, arith, text_eq}
use pi_homelab.Base.Text.{codes, is_line_end}
use pi_homelab.Base.Dict.{lookup}
use pi_homelab.Base.Int.{pos, negsuc}
use pi_homelab.Base.Result.{ok, raise, overflow_error}
use pi_homelab.KernelScan.Classes.{classes}
use pi_homelab.KernelScan.Prom.{render_prom}
use pi_homelab.KernelScan.Parse.{Published, no_totals, read_value, parse_prom}
use pi_homelab.KernelScan.Parse.RoundTrip.{all_exact, listed, parse_prom-render_prom}
use pi_homelab.KernelScan.Main.{Run, main_all}
use pi_homelab.KernelScan.Main.Refinement.{Writes, publish_runs, AllSane, main_all-publish_runs}

abbrev nothing : Published
nothing = record { boot_id = none; counts = no_totals; last_boot = no_totals }

empty_file : parse_prom [] ≡ ok nothing
unfolding parse_prom
empty_file = refl

zeros_exact : all_exact no_totals ≡ true
unfolding classes lookup text_eq
zeros_exact = refl

abbrev first : Run
first = record {
  now = codes "1754000000";
  boot = codes "a1";
  lines = codes "usb 2-1: USB disconnect, device number 2" ∷ [];
}

abbrev second : Run
second = record { now = codes "1754000300"; boot = codes "b2"; lines = [] }

both_sane : AllSane (first ∷ second ∷ [])
unfolding is_line_end
both_sane = ((refl, refl, refl, ground arith), ((refl, refl, refl, ground arith), tt))

main_all-publish_runs_example :
    Writes (main_all [] (first ∷ second ∷ [])) (publish_runs nothing (first ∷ second ∷ []))
main_all-publish_runs_example =
    main_all-publish_runs (first ∷ second ∷ []) [] nothing both_sane (zeros_exact, zeros_exact)
      empty_file

parse_prom-render_prom_example :
    parse_prom (render_prom no_totals (codes "1754000000") (some (codes "a1")) none)
    ≡ ok (record { boot_id = some (codes "a1"); counts = listed no_totals; last_boot = no_totals })
unfolding is_line_end
parse_prom-render_prom_example =
    parse_prom-render_prom no_totals (codes "1754000000") (some (codes "a1")) none zeros_exact refl
      refl refl

-- The nearest double of 2.99999999999999999999 is 3.
rounded_up : read_value (codes "2.99999999999999999999") ≡ some (ok (pos 3))
unfolding read_value
rounded_up = refl

rounded_even : read_value (codes "9007199254740993") ≡ some (ok (pos 9007199254740992))
unfolding read_value
rounded_even = refl

below_zero : read_value (codes "-2.5") ≡ some (ok (negsuc 1))
unfolding read_value
below_zero = refl

-- A value of 310 digits is infinite as a double, and `int` raises what `parse_prom` does not catch.
infinite :
    read_value (
      codes
        "9999999999999999999999999999999999999999999999999999999999999999999999999999999999999999999999999999999999999999999999999999999999999999999999999999999999999999999999999999999999999999999999999999999999999999999999999999999999999999999999999999999999999999999999999999999999999999999999999999999999999999999999")
    ≡ some (raise overflow_error)
unfolding read_value
infinite = refl
