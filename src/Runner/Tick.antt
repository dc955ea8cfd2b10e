-- ===== src/Runner/Tick.antt =====
-- `inspect_runner_image`, `tick`, `write_status` and a pass of the loop of `run`.
pub mod Cap
use pi_homelab.Base.{ℕ, ◌+◌, ◌-◌, ◌/◌, ◌^◌, Bool, not, ◌&&◌, none, some}
use pi_homelab.Base.{List, [], ◌∷◌, ◌==◌, leb, all, filter, length, nat_eq, text_eq, if◌then◌else◌}
use pi_homelab.Base.Text.{Text, codes, strip, is_infix, before, after, nonempty}
use pi_homelab.Base.Dict.{Dict, insert}
use pi_homelab.Base.Int.{ℤ, pos}
use pi_homelab.Base.Json.{int_of_text}
use pi_homelab.Runner.World.{Call, Config, RunnerInfo, RepoStatus, Status, World}
use pi_homelab.Runner.World.{Supervisor, M, ◌>>=◌, pure, throw, return, raise, Result, http_error}
use pi_homelab.Runner.World.{value_error, os_error}
use pi_homelab.Runner.Docker.{Container, docker, failed, bar, running_job_containers}
use pi_homelab.Runner.Github.{list_runners, queued_jobs}
use pi_homelab.Runner.Reap.{is_failure, is_offline, reap_exited_containers, reap_offline_runners}
use pi_homelab.Runner.Spawn.{get_or_0, maybe_spawn}

-- `epoch.isdigit()`, on ASCII.
unfoldable pub is_digits : Text → Bool
is_digits s = nonempty s && all (λ c. leb b'0' c && leb c b'9') s

abbrev pub provenance : ℤ → Text → M (Unit {0})
provenance epoch version s = (
  return tt,
  record s {
    image_build_epoch = epoch;
    image_version = (if nonempty version then version else codes "unknown");
  },
)

unfoldable pub read_provenance : Text → M (Unit {0})
unfolding is_digits before after
read_provenance out =
    if is_digits (before bar out)
    then elim (int_of_text (before bar out)) [
      | none ↦ throw value_error
      | some n ↦ provenance n (after bar out)
    ]
    else provenance (pos 0) (after bar out)

-- `live_by_repo[c["repo"]] = live_by_repo.get(c["repo"], 0) + 1`
unfoldable pub count_by_repo : Dict Text ℕ → List Container → Dict Text ℕ
count_by_repo d [] = d
count_by_repo d (c ∷ cs) = count_by_repo (insert c.repo (get_or_0 d c.repo + 1) d) cs

abbrev pub is_online : RunnerInfo → Bool
is_online rn = rn.status == codes "online"

abbrev pub with_entry : List RunnerInfo → ℕ → ℕ → RepoStatus
with_entry runners queued live = record {
  registered = length runners;
  online = length (filter is_online runners);
  busy = length (filter (λ rn. rn.busy) runners);
  offline = length (filter is_offline runners);
  queued_jobs = queued;
  idle = live - length (filter (λ rn. rn.busy) runners);
}

-- `idle_by_repo` and `queued_by_repo`, out of `per_repo`, which has the same keys.
unfoldable pub idle_of : Dict Text RepoStatus → Dict Text ℕ
idle_of [] = []
idle_of ((r, p) ∷ d) = (r, p.idle) ∷ idle_of d

unfoldable pub queued_of : Dict Text RepoStatus → Dict Text ℕ
queued_of [] = []
queued_of ((r, p) ∷ d) = (r, p.queued_jobs) ∷ queued_of d

unfoldable pub sum_values : Dict Text ℕ → ℕ
sum_values [] = 0
sum_values ((r, n) ∷ d) = n + sum_values d

module _ (w : World) where
  unfoldable pub inspect_runner_image : M (Unit {0})
  unfolding read_provenance is_infix
  inspect_runner_image s =
      if is_failure s.image_build_epoch && not (s.image_version == codes "unknown")
      then (return tt, s)
      else (docker w Call.image_inspect >>= λ res.
            if not (failed res) && is_infix bar res.stdout
            then read_provenance (strip res.stdout)
            else pure tt)
          s

  unfoldable pub observe_repo : Config → Dict Text ℕ → Text → M RepoStatus
  observe_repo cfg live_by_repo repo = do
    runners ← list_runners w repo
    _ ← reap_offline_runners w cfg repo runners
    queued ← queued_jobs w repo
    pure (with_entry runners queued (get_or_0 live_by_repo repo))

  unfoldable pub observe_from :
      Config → Dict Text ℕ → List Text → Dict Text RepoStatus → M (Dict Text RepoStatus)
  unfolding observe_repo
  observe_from cfg live_by_repo [] per_repo = pure per_repo
  observe_from cfg live_by_repo (repo ∷ repos) per_repo =
      observe_repo cfg live_by_repo repo >>= λ entry.
      observe_from cfg live_by_repo repos (insert repo entry per_repo)

  unfoldable pub status_of : Dict Text RepoStatus → ℕ → ℕ → Supervisor → Status
  unfolding idle_of sum_values
  status_of per_repo live_total orphans s = record {
    supervisor_heartbeat_ts = w.now s.trace / 10 ^ 9;
    idle_count = sum_values (idle_of per_repo);
    live_total = live_total;
    orphan_containers = orphans;
    counters = s.counters;
    image_build_timestamp = s.image_build_epoch;
    runner_version = s.image_version;
    repos = per_repo;
  }

  unfoldable pub write_status : Dict Text RepoStatus → ℕ → ℕ → M (Unit {0})
  unfolding status_of
  write_status per_repo live_total orphans s =
      if w.writable s.trace
      then (return tt, record s { status = some (status_of per_repo live_total orphans s) })
      else (raise os_error, s)

  unfoldable pub tick : Config → M (Unit {0})
  unfolding inspect_runner_image reap_exited_containers running_job_containers
  tick cfg = do
    _ ← inspect_runner_image
    orphans ← reap_exited_containers w
    live ← running_job_containers w
    per_repo ← observe_from cfg (count_by_repo [] live) cfg.repos []
    _ ← maybe_spawn w cfg (idle_of per_repo) (length live) (queued_of per_repo)
    write_status per_repo (length live) orphans

-- What the loop of `run` catches: of the exceptions here, all but the `ValueError`.
abbrev pub swallow : Result (Unit {0}) → Result (Unit {0})
swallow (raise http_error) = return tt
swallow (raise os_error) = return tt
swallow r = r

unfoldable pub pass : World → Config → M (Unit {0})
unfolding tick
pass w cfg s = let (r, s') = tick w cfg s in (swallow r, s')
