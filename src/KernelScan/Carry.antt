-- ===== src/KernelScan/Carry.antt =====
-- `carry_forward`, and the scans of one host in their order: each reads back what the one before it
-- published.
pub mod Reboot
use pi_homelab.Base.{Bool, true, false, not, ◌||◌, Option, none, some, List, [], ◌∷◌, ◌==◌, text_eq}
use pi_homelab.Base.{if◌then◌else◌, map}
use pi_homelab.Base.Int.{pos}
use pi_homelab.Base.Text.{Text, nonempty}
use pi_homelab.KernelScan.Scan.{Counts, scan}
use pi_homelab.KernelScan.Prom.{Totals}
use pi_homelab.KernelScan.Parse.{Published, no_totals}

-- Python's truth of a text that may be missing.
abbrev pub is_known : Option Text → Bool
is_known none = false
is_known (some s) = nonempty s

abbrev pub same_id : Option Text → Option Text → Bool
same_id (some a) (some b) = a == b
same_id none none = true
same_id _ _ = false

-- `d or dict.fromkeys(CLASSES, 0)`
abbrev pub or_zeros : Totals → Totals
or_zeros [] = no_totals
or_zeros (c ∷ counts) = c ∷ counts

unfoldable pub carry_forward : Published → Option Text → Totals
carry_forward previous current =
    if not (is_known current) || not (is_known previous.boot_id)
    then or_zeros previous.last_boot
    else if not (same_id previous.boot_id current)
    then previous.counts
    else previous.last_boot

abbrev pub totals : Counts → Totals
totals counts = map (λ (name, n). (name, pos n)) counts

-- One scan on a host with a boot id: what it publishes.
unfoldable pub publish : Published → Text → List Text → Published
unfolding carry_forward
publish previous boot lines = record {
  boot_id = some boot;
  counts = totals (scan lines);
  last_boot = carry_forward previous (some boot);
}
