-- ===== src/KernelScan/Classes.antt =====
-- `_PATTERNS`, the sets of classes, `severity_of` and `classify`.
pub mod Tiers
use pi_homelab.Base.{Bool, true, false, Option, none, some, List, [], ◌∷◌, ◌++◌, contains, text_eq}
use pi_homelab.Base.{if◌then◌else◌, map}
use pi_homelab.Base.Text.{Text, codes}
use pi_homelab.Base.Dict.{Dict, keys}
use pi_homelab.KernelScan.Pattern.{
  Row, Atom, one, many, optional, edge, literal, search_any, is_digit,
}
use pi_homelab.KernelScan.Pattern.{is_solid, is_separator, is_dash}

abbrev pub ext4_remount_ro : Text
ext4_remount_ro = codes "ext4_remount_ro"

abbrev pub scsi_offline : Text
scsi_offline = codes "scsi_offline"

abbrev pub disk_zero_capacity : Text
disk_zero_capacity = codes "disk_zero_capacity"

abbrev pub ext4_error : Text
ext4_error = codes "ext4_error"

abbrev pub journal_aborted : Text
journal_aborted = codes "journal_aborted"

abbrev pub block_io_error : Text
block_io_error = codes "block_io_error"

abbrev pub uas_fault : Text
uas_fault = codes "uas_fault"

abbrev pub usb_disconnect : Text
usb_disconnect = codes "usb_disconnect"

abbrev pub usb_reset : Text
usb_reset = codes "usb_reset"

abbrev pub usb_over_current : Text
usb_over_current = codes "usb_over_current"

lit : Text → Row
unfolding literal
lit s = literal s

rows : List Text → List Row
unfolding lit
rows texts = map lit texts

-- The alternatives of `reset (?:super|high|full|low)[- ]?speed usb device`.
reset_rows : List Text → List Row
unfolding lit is_separator
reset_rows speeds =
    map
      (λ speed.
        lit (codes "reset " ++ speed) ++ optional is_separator ∷ lit (codes "speed usb device"))
      speeds

-- Most specific first.
unfoldable pub patterns : Dict Text (List Row)
unfolding rows reset_rows is_digit is_solid is_dash
patterns =
    (ext4_remount_ro, rows (codes "remounting filesystem read-only" ∷ []))
    ∷ (
      scsi_offline,
      rows (
          codes "rejecting i/o to offline device"
          ∷ codes "synchronizing scsi cache failed"
          ∷ codes "device offline"
          ∷ codes "failed to get sense data"
          ∷ codes "failed to set sense data"
          ∷ []),
    )
    ∷ (
      disk_zero_capacity,
      (lit (codes "read capacity(") ++ many is_digit ∷ lit (codes ") failed"))
          ∷ (edge ∷ lit (codes "0 ")
              ++ many is_digit ∷ lit (codes "-byte logical blocks")
              ++ edge ∷ [])
          ∷ rows (codes "0-byte physical blocks" ∷ []),
    )
    ∷ (ext4_error, rows (codes "ext4-fs error" ∷ codes "ext4-fs warning (device" ∷ []))
    ∷ (journal_aborted, rows (codes "journal has aborted" ∷ codes "aborting journal" ∷ []))
    ∷ (
      block_io_error,
      (edge ∷ lit (codes "i/o error") ++ edge ∷ [])
          ∷ rows (
              codes "buffer i/o error"
              ∷ codes "blk_update_request"
              ∷ codes "critical medium error"
              ∷ codes "critical target error"
              ∷ []),
    )
    ∷ (
      uas_fault,
      (lit (codes "scsi host ") ++ many is_digit ∷ lit (codes ": uas_eh"))
          ∷ rows (
              codes "uas_eh_abort_handler"
              ∷ codes "uas_eh_device_reset_handler"
              ∷ codes "uas_eh_bus_reset_handler"
              ∷ codes "uas: reset"
              ∷ codes "uas: cmd cmplt err"
              ∷ []),
    )
    ∷ (usb_disconnect, (lit (codes "usb ") ++ many is_solid ∷ lit (codes ": usb disconnect")) ∷ [])
    ∷ (
      usb_reset,
      (lit (codes "device descriptor read/") ++ many is_digit ∷ lit (codes ", error"))
          ∷ lit (codes "device not accepting address")
          ∷ reset_rows (codes "super" ∷ codes "high" ∷ codes "full" ∷ codes "low" ∷ []),
    )
    ∷ (
      usb_over_current,
      (lit (codes "over") ++ optional is_dash ∷ lit (codes "current change"))
          ∷ (lit (codes "over") ++ optional is_dash ∷ lit (codes "current condition"))
          ∷ [],
    )
    ∷ []

-- `CLASSES`
unfoldable pub classes : List Text
unfolding patterns
classes = keys patterns

abbrev pub fatal_classes : List Text
fatal_classes =
    ext4_remount_ro ∷ scsi_offline ∷ ext4_error ∷ journal_aborted ∷ block_io_error
    ∷ disk_zero_capacity ∷ []

abbrev pub precursor_classes : List Text
precursor_classes = uas_fault ∷ usb_disconnect ∷ usb_reset ∷ usb_over_current ∷ []

abbrev pub never_normal_classes : List Text
never_normal_classes = usb_disconnect ∷ usb_over_current ∷ []

unfoldable pub severity_of : Text → Text
severity_of name =
    if contains fatal_classes name
    then codes "fatal"
    else if contains never_normal_classes name
    then codes "dropout"
    else codes "precursor"

unfoldable pub first_match : Dict Text (List Row) → Text → Option Text
unfolding search_any
first_match [] line = none
first_match ((name, rows) ∷ rest) line =
    let later = first_match rest line in if search_any rows line then some name else later

unfoldable pub classify : Text → Option Text
unfolding first_match patterns
classify line = first_match patterns line
