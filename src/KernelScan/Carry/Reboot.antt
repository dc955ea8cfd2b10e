-- ===== src/KernelScan/Carry/Reboot.antt =====
-- The counts of a boot survive the reboot that ends it.
use pi_homelab.Base.{◌≡◌, ◌≢◌, refl, ◌∙◌, true, some, List, [], ◌∷◌, ◌++◌}
use pi_homelab.Base.{text_eq, arith, ==_self}
use pi_homelab.Base.Text.{Text, nonempty}
use pi_homelab.KernelScan.Scan.{scan}
use pi_homelab.KernelScan.Carry.{publish, totals}
use pi_homelab.KernelScan.Parse.{Published}

-- The scans of one boot, oldest first.
abbrev pub publish_all : Published → Text → List (List Text) → Published
publish_all p boot [] = p
publish_all p boot (lines ∷ later) = publish_all (publish p boot lines) boot later

last_boot_kept :
    (p : Published) (boot : Text) (scans : List (List Text))
    → p.boot_id ≡ some boot
    → nonempty boot ≡ true
    → (publish_all p boot scans).last_boot ≡ p.last_boot
unfolding publish
last_boot_kept p boot [] h k = refl
last_boot_kept p boot (lines ∷ scans) h k =
    last_boot_kept (publish p boot lines) boot scans refl k ∙ ground (arith, ==_self boot)

publish_all_last :
    (p : Published) (boot : Text) (scans : List (List Text)) (final : List Text)
    → ((publish_all p boot (scans ++ final ∷ [])).boot_id ≡ some boot)
      × ((publish_all p boot (scans ++ final ∷ [])).counts ≡ totals (scan final))
unfolding publish
publish_all_last p boot [] final = (refl, refl)
publish_all_last p boot (lines ∷ scans) final =
    publish_all_last (publish p boot lines) boot scans final

-- After a reboot every scan of the new boot reports, as those of the last boot, the counts of the
-- last scan before the reboot, whatever was published earlier and whatever the new boot logs,
-- for two different boot ids that are not empty.
pub publish_all-reboot :
    (p : Published) (old new : Text) (scans : List (List Text)) (final first : List Text)
    (later : List (List Text))
    → nonempty old ≡ true
    → nonempty new ≡ true
    → old ≢ new
    → (publish_all (publish_all p old (scans ++ final ∷ [])) new (first ∷ later)).last_boot
      ≡ totals (scan final)
unfolding publish
publish_all-reboot p old new scans final first later o n differ =
    let (same, counted) = publish_all_last p old scans final in
    last_boot_kept _ new later refl n ∙ ground (arith, same, counted)
