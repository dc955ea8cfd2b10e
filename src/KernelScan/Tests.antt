-- ===== src/KernelScan/Tests.antt =====
-- Lines of the kernel log through the classifier, and the theorems at concrete data.
use pi_homelab.Base.{◌≡◌, ◌≢◌, refl, none, some, [], ◌∷◌, ◌++◌}
use pi_homelab.Base.{text_eq, arith}
use pi_homelab.Base.Text.{Text, codes}
use pi_homelab.KernelScan.Classes.{classify, usb_disconnect, disk_zero_capacity}
use pi_homelab.KernelScan.Classes.{ext4_remount_ro, usb_reset}
use pi_homelab.KernelScan.Scan.{scan}
use pi_homelab.KernelScan.Carry.{totals}
use pi_homelab.KernelScan.Parse.{Published}
use pi_homelab.KernelScan.Carry.Reboot.{publish_all, publish_all-reboot}

abbrev dropped : Text
dropped = codes "usb 2-1: USB disconnect, device number 2"

classify-dropped : classify dropped ≡ some usb_disconnect
unfolding classify
classify-dropped = refl

classify_remount :
    classify (codes "EXT4-fs error (device sdb2): Remounting filesystem read-only")
    ≡ some ext4_remount_ro
unfolding classify
classify_remount = refl

classify_empty_disk :
    classify (codes "sd 0:0:0:0: [sdb] 0 512-byte logical blocks: (0 B/0 B)")
    ≡ some disk_zero_capacity
unfolding classify
classify_empty_disk = refl

classify_sized_disk : classify (codes "[sdb] 1000 512-byte logical blocks: (1 TB)") ≡ none
unfolding classify
classify_sized_disk = refl

classify_reset : classify (codes "usb 2-1: reset SuperSpeed USB device number 2") ≡ some usb_reset
unfolding classify
classify_reset = refl

abbrev nothing : Published
nothing = record { boot_id = none; counts = []; last_boot = [] }

other_boot : ◌≢◌ {A = Text} (codes "a") (codes "b")
other_boot = ground arith

publish_all-reboot_example :
    (publish_all
      (publish_all nothing (codes "a") ([] ++ (dropped ∷ []) ∷ []))
      (codes "b")
      ([] ∷ [] ∷ [])).last_boot
    ≡ totals (scan (dropped ∷ []))
publish_all-reboot_example =
    publish_all-reboot nothing (codes "a") (codes "b") [] (dropped ∷ []) [] ([] ∷ []) refl refl
      other_boot
