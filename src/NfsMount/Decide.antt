-- ===== src/NfsMount/Decide.antt =====
-- The states of an export, the reasons for them, and `decide`. Times are whole nanoseconds.
use pi_homelab.Base.{ℕ, ◌*◌, ◌^◌, Bool, true, false, not, ◌&&◌, ◌||◌, leb, if◌then◌else◌}
use pi_homelab.Base.Int.{ℤ, pos, ltbℤ}

pub data MountState : Type 0 where
  healthy hung unknown unmounted : MountState

pub data Reason : Type 0 where
  read_ok missing_probe invalid_probe io_error read_denied timeout probe_failed : Reason
  nfsstat_failed mount_list_failed mount_absent recovery_failed : Reason
  nfsstat : MountState → Reason

pub data Action : Type 0 where
  none mount recover : Action

abbrev pub is_hung : MountState → Bool
is_hung hung = true
is_hung _ = false

abbrev pub is_healthy : MountState → Bool
is_healthy healthy = true
is_healthy _ = false

abbrev pub is_unmounted : MountState → Bool
is_unmounted unmounted = true
is_unmounted _ = false

-- 300 seconds.
abbrev pub pause : ℤ
pause = pos (300 * 10 ^ 9)

unfoldable pub decide : MountState → ℕ → ℤ → Bool → Bool → Action
decide state failures elapsed reachable ever_read_ok =
    if not reachable || ltbℤ elapsed pause
    then none
    else if is_unmounted state
    then mount
    else if is_hung state && leb 2 failures
    then (if not ever_read_ok then none else recover)
    else none
