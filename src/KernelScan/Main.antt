-- ===== src/KernelScan/Main.antt =====
-- `main`: one scan, from the text that the last one published to the text of this one. The time is
-- given as the text that Python prints, and standard input as its lines.
pub mod Totals
pub mod Refinement
mod Tests
use pi_homelab.Base.{Option, none, some, List, [], ◌∷◌, if◌then◌else◌}
use pi_homelab.Base.Text.{Text, nonempty}
use pi_homelab.Base.Result.{Result, ok, ◌>>=◌}
use pi_homelab.KernelScan.Scan.{scan}
use pi_homelab.KernelScan.Prom.{render_prom}
use pi_homelab.KernelScan.Parse.{parse_prom}
use pi_homelab.KernelScan.Carry.{carry_forward, totals}

-- The file is missing or unreadable: it counts as empty.
abbrev pub or_empty : Option Text → Text
or_empty none = []
or_empty (some text) = text

abbrev pub scan_without_boot : Text → List Text → Result Text
scan_without_boot now lines = ok (render_prom (totals (scan lines)) now none none)

unfoldable pub scan_with_boot : Text → Text → Text → List Text → Result Text
scan_with_boot now boot previous lines = parse_prom previous >>= λ p.
    ok (render_prom (totals (scan lines)) now (some boot) (some (carry_forward p (some boot))))

-- The boot id may be left out or empty, and the file may be missing.
unfoldable pub main : Text → Option Text → Option Text → List Text → Result Text
unfolding scan_with_boot
main now none previous lines = scan_without_boot now lines
main now (some boot) previous lines =
    if nonempty boot
    then scan_with_boot now boot (or_empty previous) lines
    else scan_without_boot now lines

-- A scan with what its command line and standard input give it.
pub record Run : Type 0 where
  pub now : Text
  pub boot : Text
  pub lines : List Text

-- The runs of a host, each behind the file that the last one wrote.
unfoldable pub main_all : Text → List Run → Result Text
main_all previous [] = ok previous
main_all previous (r ∷ rs) =
    main r.now (some r.boot) (some previous) r.lines >>= λ text. main_all text rs
