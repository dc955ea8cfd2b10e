-- ===== src/Runner/Reap.antt =====
-- `reap_exited_containers` and `reap_offline_runners`.
pub mod Jobs
pub mod Offline
use pi_homelab.Base.{ℕ, zero, ◌+◌, Bool, true, false, none, some, List, [], ◌∷◌, ◌==◌}
use pi_homelab.Base.{nat_eq, text_eq, length, if◌then◌else◌}
use pi_homelab.Base.Text.{Text, codes}
use pi_homelab.Base.Dict.{lookup, insert, erase}
use pi_homelab.Base.Int.{ℤ, pos, sub_ℕ, ltbℤ}
use pi_homelab.Runner.World.{Call, Config, Counters, RunnerInfo, World, Supervisor, M, ◌>>=◌, ◌>>◌}
use pi_homelab.Runner.World.{pure, count, return}
use pi_homelab.Runner.Docker.{Exited, docker, exited_job_containers}
use pi_homelab.Runner.Github.{delete_runner}

abbrev pub is_failure : ℤ → Bool
is_failure (pos zero) = false
is_failure _ = true

abbrev pub finish : ℤ → Counters → Counters
finish code c = record c {
  jobs_total = c.jobs_total + 1;
  last_job_exit_code = code;
  jobs_failed_total = (if is_failure code then c.jobs_failed_total + 1 else c.jobs_failed_total);
}

abbrev pub is_offline : RunnerInfo → Bool
is_offline rn = rn.status == codes "offline"

-- `self._offline_since.setdefault(rid, now)`
abbrev pub first_seen : ℕ → ℕ → Supervisor → ℕ
first_seen id now s = elim (lookup id s.offline_since) [ none ↦ now | some t ↦ t ]

-- `now - first >= self.cfg.orphan_reap_seconds`
abbrev pub is_past : Config → ℕ → ℕ → Bool
is_past cfg now first = elim (ltbℤ (sub_ℕ now first) cfg.orphan_reap) [
  | true ↦ false
  | false ↦ true
]

abbrev pub mark : ℕ → ℕ → Supervisor → Supervisor
mark id t s = record s { offline_since = insert id t s.offline_since }

abbrev pub forget : ℕ → Supervisor → Supervisor
forget id s = record s { offline_since = erase id s.offline_since }

module _ (w : World) where
  unfoldable pub reap_each : List Exited → M (Unit {0})
  reap_each [] = pure tt
  reap_each (c ∷ cs) =
      count (finish c.exit_code) >> docker w (Call.rm c.container.id) >>= λ _. reap_each cs

  unfoldable pub reap_exited_containers : M ℕ
  unfolding reap_each
  reap_exited_containers = do
    orphans ← exited_job_containers w
    _ ← reap_each orphans
    pure (length orphans)

  unfoldable pub reap_runner : Config → Text → ℕ → RunnerInfo → M (Unit {0})
  reap_runner cfg repo now rn s =
      if is_offline rn
      then (if is_past cfg now (first_seen rn.id now s)
          then (delete_runner w repo rn.id >>= λ _ s. (return tt, forget rn.id s))
              (mark rn.id (first_seen rn.id now s) s)
          else (return tt, mark rn.id (first_seen rn.id now s) s))
      else (return tt, forget rn.id s)

  unfoldable pub reap_from : Config → Text → ℕ → List RunnerInfo → M (Unit {0})
  unfolding reap_runner
  reap_from cfg repo now [] = pure tt
  reap_from cfg repo now (rn ∷ runners) =
      reap_runner cfg repo now rn >> reap_from cfg repo now runners

  -- The clock is read once.
  unfoldable pub reap_offline_runners : Config → Text → List RunnerInfo → M (Unit {0})
  unfolding reap_from
  reap_offline_runners cfg repo runners s = reap_from cfg repo (w.now s.trace) runners s
