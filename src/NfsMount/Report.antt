-- ===== src/NfsMount/Report.antt =====
-- The report of a pass of `supervise`, as the JSON value that is published.
use pi_homelab.Base.{ℕ, ◌++◌}
use pi_homelab.Base.Text.{Text, codes}
use pi_homelab.Base.Int.{pos}
use pi_homelab.Base.Json.{Value, int, str, obj, field, end}
use pi_homelab.NfsMount.Decide.{MountState, healthy, hung, unknown, unmounted, Reason}
use pi_homelab.NfsMount.Supervise.{History, Item}

abbrev pub state_name : MountState → Text
state_name healthy = codes "healthy"
state_name hung = codes "hung"
state_name unknown = codes "unknown"
state_name unmounted = codes "unmounted"

abbrev pub reason_name : Reason → Text
reason_name Reason.read_ok = codes "read_ok"
reason_name Reason.missing_probe = codes "missing_probe"
reason_name Reason.invalid_probe = codes "invalid_probe"
reason_name Reason.io_error = codes "io_error"
reason_name Reason.read_denied = codes "read_denied"
reason_name Reason.timeout = codes "timeout"
reason_name Reason.probe_failed = codes "probe_failed"
reason_name Reason.nfsstat_failed = codes "nfsstat_failed"
reason_name Reason.mount_list_failed = codes "mount_list_failed"
reason_name Reason.mount_absent = codes "mount_absent"
reason_name Reason.recovery_failed = codes "recovery_failed"
reason_name (Reason.nfsstat state) = codes "nfsstat_" ++ state_name state

-- An item after `item.update`.
abbrev pub item_value : History → Item → Value
item_value h item = obj (
    field (codes "state") (str (state_name item.state)) (
      field (codes "reason") (str (reason_name item.reason)) (
        field (codes "source") (str item.source) (
          field (codes "recoveries") (int (pos h.recoveries)) (
            field (codes "recovery_ok") (int (pos h.recovery_ok))
              (field (codes "last_read_ok") (int (pos h.last_read_ok)) end))))))

-- `status`, from the time and what a pass leaves.
unfoldable pub status : ℕ → (History × Item) × (History × Item) → Value
status now ((h, a), (k, b)) = obj (
    field (codes "schema") (int (pos 1)) (
      field (codes "checked_at") (int (pos now)) (
        field (codes "exports")
          (obj
            (field (codes "srv") (item_value h a) (field (codes "generated") (item_value k b) end)))
          end)))
