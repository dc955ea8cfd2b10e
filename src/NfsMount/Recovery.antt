-- ===== src/NfsMount/Recovery.antt =====
-- `read_probe`, `health`, `mounted_sources`, `recover` and `recover_with_worker`.
pub mod Overmount
pub mod Worker
use pi_homelab.Base.{
  ℕ, suc, zero, Bool, true, false, not, ◌&&◌, ◌||◌, Option, none, some, List, [], ◌∷◌,
}
use pi_homelab.Base.{◌++◌, ◌==◌, contains, text_eq, nat_eq, if◌then◌else◌}
use pi_homelab.Base.Text.{Text, codes, is_infix}
use pi_homelab.Base.Dict.{Dict, keys}
use pi_homelab.Base.Int.{pos}
use pi_homelab.NfsMount.Decide.{MountState, healthy, hung, unknown, Reason, read_ok, missing_probe}
use pi_homelab.NfsMount.Decide.{invalid_probe, io_error, read_denied, timeout, probe_failed}
use pi_homelab.NfsMount.Decide.{nfsstat_failed, is_healthy, Action, mount, recover}
use pi_homelab.NfsMount.Listing.{mount_status, sources_of}
use pi_homelab.NfsMount.World.{Command, Completed, World, Trace, M, ◌>>=◌, pure, failed, run}

-- The reason for each return code of the probe.
unfoldable pub probe_reason : Completed → Reason
probe_reason r = elim r.returncode [
  | pos n ↦
      if n == 0
      then read_ok
      else if n == 2
      then missing_probe
      else if n == 3
      then invalid_probe
      else if n == 4
      then io_error
      else if n == 5
      then read_denied
      else if n == 124
      then timeout
      else probe_failed
  | _ ↦ probe_failed
]

abbrev pub is_blocked : Reason → Bool
is_blocked timeout = true
is_blocked io_error = true
is_blocked _ = false

abbrev pub srv_target : Text
srv_target = codes "/Volumes/homelab-srv"

-- `action == "recover"`
abbrev pub is_recover : Action → Bool
is_recover recover = true
is_recover _ = false

abbrev pub is_srv : Text → Bool
is_srv target = target == srv_target

-- The worker's part before a recovery: `refused`, or the launchd domain of a worker that was
-- stopped and has to be started again.
pub data Readiness : Type 0 where
  refused : Readiness
  ready : Option Text → Readiness

-- `sources is None or target in sources`
abbrev pub occupied : Option (Dict Text Text) → Text → Bool
occupied none target = true
occupied (some sources) target = contains (keys sources) target

abbrev pub candidate : Text → Text
candidate uid = codes "gui/" ++ uid

abbrev pub label_of : Text → Text
label_of domain = domain ++ codes "/io.tdarr.node"

module _ (w : World) where
  unfoldable pub read_probe : Text → M (Bool × Reason)
  unfolding probe_reason
  read_probe path = do
    result ← run w (Command.read_probe_child path)
    pure (not (failed result), probe_reason result)

  -- The loop over the probes, once nfsstat reports the mount as healthy.
  unfoldable pub probe_all : List Text → M (MountState × Reason)
  unfolding read_probe
  probe_all [] = pure (healthy, read_ok)
  probe_all (path ∷ probes) =
      let rest = probe_all probes in
      read_probe path >>= λ (ok, reason).
      if not ok then pure (if is_blocked reason then hung else unknown, reason) else rest

  unfoldable pub health : Text → List Text → Completed → M (MountState × Reason)
  unfolding probe_all
  health target probes status =
      if failed status
      then pure (unknown, nfsstat_failed)
      else (let state = mount_status status.stdout target in
          if not (is_healthy state) then pure (state, Reason.nfsstat state) else probe_all probes)

  unfoldable pub mounted_sources : M (Option (Dict Text Text))
  mounted_sources = do
    result ← run w Command.mount_list
    pure (if failed result then none else some (sources_of result.stdout))

  -- `umount`, and `diskutil` where that fails: whether the share is unmounted.
  unfoldable pub unmount : Text → M Bool
  unmount target = do
    first ← run w (Command.umount target)
    if not (failed first)
        then pure true
        else (do second ← run w (Command.diskutil_unmount target); pure (not (failed second)))

  -- From the second listing on.
  unfoldable pub mount_empty : Text → Text → M Bool
  unfolding mounted_sources
  mount_empty source target = do
    sources ← mounted_sources
    if occupied sources target then pure false else (do
      made ← run w (Command.mkdir target)
      if failed made
          then pure false
          else (do result ← run w (Command.mount_nfs source target); pure (not (failed result))))

  unfoldable pub recover_share : Text → Text → Action → M Bool
  unfolding unmount mount_empty
  recover_share source target action =
      if is_recover action
      then (do
        unmounted ← unmount target
        if unmounted then mount_empty source target else pure false)
      else mount_empty source target

  -- The plist is looked at once the worker is known to be loaded.
  unfoldable pub boot_out : Text → M Readiness
  boot_out domain t =
      if not (w.plist_is_file t)
      then (refused, t)
      else (do
        out ← run w (Command.launchctl_bootout (label_of domain))
        pure (if failed out then refused else ready (some domain)))
          t

  unfoldable pub stop_worker : Text → M Readiness
  unfolding boot_out
  stop_worker domain = do
    loaded ← run w (Command.launchctl_print (label_of domain))
    if not (failed loaded)
        then boot_out domain
        else if not (is_infix (codes "Could not find service") loaded.stderr)
        then pure refused
        else pure (ready none)

  unfoldable pub prepare : Text → Action → M Readiness
  unfolding stop_worker
  prepare target action =
      if is_srv target && is_recover action
      then elim w.worker_uid [ none ↦ pure refused | some uid ↦ stop_worker (candidate uid) ]
      else pure (ready none)

  -- The `finally` block: whether the worker runs as it did before.
  unfoldable pub resume : Option Text → M Bool
  resume none = pure true
  resume (some domain) = do
    result ← run w (Command.launchctl_bootstrap domain)
    pure (not (failed result))

  -- The `try` and `finally` blocks.
  unfoldable pub carry_on : Text → Text → Action → Readiness → M Bool
  carry_on source target action refused = pure false
  carry_on source target action (ready domain) = do
    recovered ← recover_share source target action
    resumed ← resume domain
    pure (recovered && resumed)

  unfoldable pub recover_with_worker : Text → Text → Action → M Bool
  recover_with_worker source target action = do
    readiness ← prepare target action
    carry_on source target action readiness
