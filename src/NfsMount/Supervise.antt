-- ===== src/NfsMount/Supervise.antt =====
-- `inspect`, `all_healthy`, `pick_source` and one pass of the loop of `supervise`, up to the report
-- that it publishes. The clock readings of a pass are given.
pub mod Pacing
use pi_homelab.Base.{ℕ, ◌+◌, Bool, true, false, not, ◌&&◌, ◌||◌, Option, none, some, List, [], ◌∷◌}
use pi_homelab.Base.{◌++◌, if◌then◌else◌, text_eq, ltb}
use pi_homelab.Base.Text.{Text, codes, nonempty}
use pi_homelab.Base.Dict.{Dict, lookup}
use pi_homelab.Base.Int.{ℤ, pos, negsuc, ◌-ℤ◌}
use pi_homelab.NfsMount.Decide.{MountState, healthy, unknown, unmounted, Reason, mount_list_failed}
use pi_homelab.NfsMount.Decide.{mount_absent, recovery_failed, Action, is_hung, is_healthy, decide}
use pi_homelab.NfsMount.World.{Command, Completed, World, Trace, M, ◌>>=◌, pure, failed, run}
use pi_homelab.NfsMount.Recovery.{health, mounted_sources, recover_with_worker, srv_target}

pub data Export : Type 0 where
  srv generated : Export

abbrev pub target_of : Export → Text
target_of srv = srv_target
target_of generated = codes "/Volumes/homelab-generated"

abbrev pub remote_of : Export → Text
remote_of srv = codes "/srv"
remote_of generated = codes "/home/pi/docker/mac-worker/shared"

abbrev pub probes_of : Export → List Text
probes_of e = (target_of e ++ codes "/.homelab-nfs-probe") ∷ []

pub record Item : Type 0 where
  pub state : MountState
  pub reason : Reason
  pub source : Text

pub record History : Type 0 where
  pub failures : ℕ
  pub attempt_at : ℤ
  pub recoveries : ℕ
  pub recovery_ok : ℕ
  pub last_read_ok : ℕ

-- The values before the first pass: no attempt for 300 seconds.
abbrev pub fresh : History
fresh = record {
  failures = 0;
  attempt_at = negsuc 299_999_999_999;
  recoveries = 0;
  recovery_ok = 0;
  last_read_ok = 0;
}

-- `time.monotonic()` before the decision and before the recovery, and `int(time.time())` before and
-- after it.
pub record Clock : Type 0 where
  pub mono_before : ℤ
  pub mono_after : ℤ
  pub wall_before : ℕ
  pub wall_after : ℕ

unfoldable pub all_healthy : Item → Item → Bool
all_healthy a b = is_healthy a.state && is_healthy b.state

-- `source or ""` of a target.
abbrev pub source_of : Option (Dict Text Text) → Text → Text
source_of none target = []
source_of (some sources) target = elim (lookup target sources) [ none ↦ [] | some s ↦ s ]

abbrev pub is_some : Option (Dict Text Text) → Bool
is_some none = false
is_some (some _) = true

abbrev pub is_none : Action → Bool
is_none Action.none = true
is_none _ = false

-- The failures and the last good read, before the decision.
unfoldable pub observe : Clock → Item → History → History
observe c item h = record h {
  failures = if is_hung item.state then h.failures + 1 else 0;
  last_read_ok = if is_healthy item.state then c.wall_before else h.last_read_ok;
}

module _ (w : World) where
  unfoldable pub inspect_one : Option (Dict Text Text) → Completed → Export → M Item
  inspect_one sources status e =
      let source = source_of sources (target_of e) in
      if not (is_some sources)
      then pure (record { state = unknown; reason = mount_list_failed; source = source })
      else if not (nonempty source)
      then pure (record { state = unmounted; reason = mount_absent; source = source })
      else (health w (target_of e) (probes_of e) status >>= λ (state, reason).
          pure (record { state = state; reason = reason; source = source }))

  unfoldable pub inspect : M (Item × Item)
  unfolding inspect_one
  inspect = do
    sources ← mounted_sources w
    status ← run w Command.nfsstat
    a ← inspect_one sources status srv
    b ← inspect_one sources status generated
    pure (a, b)

  -- The first address that answers, or the empty text.
  unfoldable pub pick_from : List Text → M Text
  pick_from [] = pure []
  pick_from (ip ∷ ips) =
      let later = pick_from ips in
      run w (Command.nc ip) >>= λ answer. if not (failed answer) then pure ip else later

  unfoldable pub pick_source : M Text
  unfolding pick_from
  pick_source = pick_from (codes "192.0.2.100" ∷ codes "100.64.0.10" ∷ [])

  -- What a recovery leaves, from whether the share is mounted.
  unfoldable pub settle : Clock → Export → Text → History → Item → Bool → M (History × Item)
  settle c e remote h item false =
      pure (record h { recovery_ok = 0 }, record item { state = unknown; reason = recovery_failed })
  settle c e remote h item true = do
    status ← run w Command.nfsstat
    health w (target_of e) (probes_of e) status >>= λ (state, reason). pure (
      record h {
        recovery_ok = if is_healthy state then 1 else 0;
        last_read_ok = if is_healthy state then c.wall_after else h.last_read_ok;
      },
      record { state = state; reason = reason; source = remote },
    )

  unfoldable pub attempt : Clock → Export → Text → History → Item → Action → M (History × Item)
  attempt c e source h item action = do
    let remote = source ++ codes ":" ++ remote_of e
    let h' = record h { attempt_at = c.mono_after; recoveries = h.recoveries + 1 }
    mounted ← recover_with_worker w remote (target_of e) action
    settle c e remote h' item mounted

  -- The body of the loop over the exports.
  unfoldable pub visit : Clock → Export → Text → History → Item → M (History × Item)
  unfolding observe
  visit c e source h item =
      let h' = observe c item h in
      let action =
        decide item.state h'.failures (c.mono_before -ℤ h.attempt_at) (nonempty source)
          (ltb 0 h'.last_read_ok) in
      if is_none action then pure (h', item) else attempt c e source h' item action

  -- One pass: the new histories and the items of the report.
  unfoldable pub pass : Clock → Clock → History × History → M ((History × Item) × (History × Item))
  pass c d (h, k) = do
    (a, b) ← inspect
    source ← (if all_healthy a b then pure [] else pick_source)
    srv' ← visit c srv source h a
    generated' ← visit d generated source k b
    pure (srv', generated')
