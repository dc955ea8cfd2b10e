-- ===== src/KernelScan/Prom.antt =====
-- `render_prom`: the exposition text of a scan. The time is given as the text that Python prints.
use pi_homelab.Base.{
  Bool, true, false, Option, none, some, List, [], ◌∷◌, ◌++◌, map, text_eq, ltb, eqb,
}
use pi_homelab.Base.{if◌then◌else◌}
use pi_homelab.Base.Text.{Text, codes}
use pi_homelab.Base.Dict.{Dict, lookup}
use pi_homelab.Base.Int.{ℤ, pos}
use pi_homelab.Base.Decimal.{show}
use pi_homelab.Base.Unlines.{unlines}
use pi_homelab.KernelScan.Classes.{classes, severity_of}

-- Counts as they are published, which a garbled file may make negative.
abbrev pub Totals : Type 0
Totals = Dict Text ℤ

-- `d.get(name, 0)`
abbrev pub total_in : Text → Totals → ℤ
total_in name totals = elim (lookup name totals) [ none ↦ pos 0 | some n ↦ n ]

-- The order of texts, by code points.
unfoldable pub is_before : Text → Text → Bool
is_before s [] = false
is_before [] (d ∷ t) = true
is_before (c ∷ s) (d ∷ t) = let rest = is_before s t in if eqb c d then rest else ltb c d

unfoldable pub place : Text → List Text → List Text
unfolding is_before
place x [] = x ∷ []
place x (y ∷ ys) = let rest = place x ys in if is_before y x then y ∷ rest else x ∷ y ∷ ys

-- `sorted(names)`
unfoldable pub sorted : List Text → List Text
unfolding place
sorted [] = []
sorted (x ∷ xs) = place x (sorted xs)

abbrev pub events : Text
events = codes "homelab_kernel_io_events"

abbrev pub suffix_of : Bool → Text
suffix_of live = if live then [] else codes "_last_boot"

-- The labels of a class.
abbrev pub labels_of : Text → Text
labels_of name =
    codes "class=\"" ++ name ++ codes "\",severity=\"" ++ severity_of name ++ codes "\""

-- One sample of the live series, or of that of the last boot.
unfoldable pub event_line : Bool → Totals → Text → Text
unfolding severity_of
event_line live totals name =
    events
    ++ (suffix_of live ++ b'{' ∷ (labels_of name ++ b'}' ∷ b' ' ∷ show (total_in name totals)))

unfoldable pub event_lines : Bool → Totals → List Text → List Text
unfolding event_line
event_lines live totals names = map (event_line live totals) names

abbrev pub live_head : List Text
live_head =
    codes "# HELP homelab_kernel_io_events Kernel storage-fault log lines seen this boot."
    ∷ codes "# TYPE homelab_kernel_io_events gauge"
    ∷ []

abbrev pub last_boot_head : List Text
last_boot_head =
    codes
      "# HELP homelab_kernel_io_events_last_boot Kernel storage-fault log lines seen during the PREVIOUS boot (survives the reboot that resets the live series)."
    ∷ codes "# TYPE homelab_kernel_io_events_last_boot gauge"
    ∷ []

unfoldable pub boot_line : Text → Text
boot_line boot = codes "homelab_kernel_io_boot_id_info{boot_id=\"" ++ (boot ++ codes "\"} 1")

abbrev pub boot_lines : Option Text → List Text
boot_lines none = []
boot_lines (some boot) =
    codes
      "# HELP homelab_kernel_io_boot_id_info Current boot id; a change marks a reboot and promotes the live counts to _last_boot."
    ∷ codes "# TYPE homelab_kernel_io_boot_id_info gauge"
    ∷ boot_line boot
    ∷ []

abbrev pub last_boot_lines : Option Totals → List Text
last_boot_lines none = []
last_boot_lines (some totals) = last_boot_head ++ event_lines false totals (sorted classes)

unfoldable pub time_line : Text → Text
time_line now = codes "homelab_kernel_io_scan_timestamp_seconds " ++ now

abbrev pub time_lines : Text → List Text
time_lines now =
    codes "# HELP homelab_kernel_io_scan_timestamp_seconds Unix time of the last successful scan."
    ∷ codes "# TYPE homelab_kernel_io_scan_timestamp_seconds gauge"
    ∷ time_line now
    ∷ []

-- What follows the live series.
abbrev pub later_lines : Text → Option Text → Option Totals → List Text
later_lines now boot last_boot = last_boot_lines last_boot ++ (boot_lines boot ++ time_lines now)

unfoldable pub prom_lines : Totals → Text → Option Text → Option Totals → List Text
unfolding event_lines boot_line time_line
prom_lines counts now boot last_boot =
    live_head ++ (event_lines true counts (sorted classes) ++ later_lines now boot last_boot)

unfoldable pub render_prom : Totals → Text → Option Text → Option Totals → Text
unfolding prom_lines unlines
render_prom counts now boot last_boot = unlines (prom_lines counts now boot last_boot)
