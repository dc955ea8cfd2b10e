-- ===== src/Runner/Start/Grows.antt =====
-- What holds of a trace and of every longer one is kept by each operation of a pass.
use pi_homelab.Base.{
  ℕ, Bool, true, false, not, Option, none, some, filter, text_eq, if◌then◌else◌, ◌≡◌, List, [], ◌∷◌,
  length, arith,
}
use pi_homelab.Base.Text.{Text, splitlines}
use pi_homelab.Base.Dict.{Dict, insert}
use pi_homelab.Base.Int.{pos, ltbℤ}
use pi_homelab.Runner.World.{
  Call, Completed, Config, RepoStatus, RunnerInfo, World, Supervisor, Trace, M,
}
use pi_homelab.Runner.World.{◌>>=◌, log, pure}
use pi_homelab.Runner.Docker.{Container, Exited, rows, exit_code, inspect_all, docker}
use pi_homelab.Runner.Docker.{exited_job_containers, running_job_containers, spawn_runner}
use pi_homelab.Runner.Github.{list_runners, queued_jobs, delete_runner, generate_jit_config}
use pi_homelab.Runner.Reap.{reap_runner, reap_from, reap_offline_runners, reap_each}
use pi_homelab.Runner.Reap.{reap_exited_containers}
use pi_homelab.Runner.Spawn.{maybe_spawn, start_head, start_with, sort_by, get_or_0, is_wanting}
use pi_homelab.Runner.Tick.{inspect_runner_image, read_provenance, observe_repo, observe_from}
use pi_homelab.Runner.Tick.{write_status, tick, pass, idle_of, queued_of, count_by_repo}
use pi_homelab.Runner.Frame.{Keeps, >>=_Keeps}

module _ (w : World) (q : Trace → Bool)
    (grow : (c : Call) (t : Trace) → q t ≡ true → q (c ∷ t) ≡ true) where
  abbrev pub Holds : Supervisor → Type 0
  Holds s = q s.trace ≡ true

  list_runners-Keeps : (repo : Text) → Keeps Holds (list_runners w repo)
  unfolding list_runners
  list_runners-Keeps repo s h = ground (arith, grow (Call.list_runners repo) s.trace h)

  queued_jobs-Keeps : (repo : Text) → Keeps Holds (queued_jobs w repo)
  unfolding queued_jobs
  queued_jobs-Keeps repo s h = ground (arith, grow (Call.queued_jobs repo) s.trace h)

  reap_runner-Keeps :
      (cfg : Config) (repo : Text) (now : ℕ) (rn : RunnerInfo)
      → Keeps Holds (reap_runner w cfg repo now rn)
  unfolding reap_runner delete_runner
  reap_runner-Keeps cfg repo now rn s h =
      ground (arith, grow (Call.delete_runner repo rn.id) s.trace h)

  reap_from-Keeps :
      (cfg : Config) (repo : Text) (now : ℕ) (runners : List RunnerInfo)
      → Keeps Holds (reap_from w cfg repo now runners)
  unfolding reap_from
  reap_from-Keeps cfg repo now [] = λ s h. h
  reap_from-Keeps cfg repo now (rn ∷ runners) =
      >>=_Keeps Holds (reap_runner w cfg repo now rn) (λ _. reap_from w cfg repo now runners)
        (reap_runner-Keeps cfg repo now rn) (λ _. reap_from-Keeps cfg repo now runners)

  docker-Keeps : (c : Call) → Keeps Holds (docker w c)
  docker-Keeps c s h = grow c s.trace h

  exit_code-Keeps : (insp : Completed) → Keeps Holds (exit_code w insp)
  unfolding exit_code
  exit_code-Keeps insp s h = ground arith

  inspect_all-Keeps : (cs : List Container) → Keeps Holds (inspect_all w cs)
  unfolding inspect_all
  inspect_all-Keeps [] = λ s h. h
  inspect_all-Keeps (c ∷ cs) =
      >>=_Keeps Holds (docker w (Call.inspect c.id) >>= exit_code w) _
        (>>=_Keeps Holds (docker w (Call.inspect c.id)) (exit_code w)
          (docker-Keeps (Call.inspect c.id)) exit_code-Keeps)
        (λ code. >>=_Keeps Holds (inspect_all w cs) _ (inspect_all-Keeps cs) (λ more s h. h))

  exited_job_containers-Keeps : Keeps Holds (exited_job_containers w)
  unfolding exited_job_containers
  exited_job_containers-Keeps s h =
      inspect_all-Keeps (rows (splitlines (w.docker s.trace Call.ps_exited).stdout))
        (log Call.ps_exited s) (grow Call.ps_exited s.trace h)

  reap_each-Keeps : (cs : List Exited) → Keeps Holds (reap_each w cs)
  unfolding reap_each
  reap_each-Keeps [] s h = h
  reap_each-Keeps (c ∷ cs) s h = reap_each-Keeps cs _ (grow (Call.rm c.container.id) s.trace h)

  reap_exited_containers-Keeps : Keeps Holds (reap_exited_containers w)
  unfolding reap_exited_containers
  reap_exited_containers-Keeps =
      >>=_Keeps Holds (exited_job_containers w) _ exited_job_containers-Keeps
        (λ cs. >>=_Keeps Holds (reap_each w cs) _ (reap_each-Keeps cs) (λ _ s h. h))

  inspect_runner_image-Keeps : Keeps Holds (inspect_runner_image w)
  unfolding inspect_runner_image read_provenance
  inspect_runner_image-Keeps s h = ground (arith, grow Call.image_inspect s.trace h)

  observe_repo-Keeps :
      (cfg : Config) (live : Dict Text ℕ) (repo : Text) → Keeps Holds (observe_repo w cfg live repo)
  unfolding observe_repo reap_offline_runners
  observe_repo-Keeps cfg live repo =
      >>=_Keeps Holds (list_runners w repo) _ (list_runners-Keeps repo) (λ runners.
        >>=_Keeps Holds (reap_offline_runners w cfg repo runners) _
          (λ s. reap_from-Keeps cfg repo (w.now s.trace) runners s)
          (λ _. >>=_Keeps Holds (queued_jobs w repo) _ (queued_jobs-Keeps repo) (λ n s h. h)))

  observe_from-Keeps :
      (cfg : Config) (live : Dict Text ℕ) (repos : List Text) (per_repo : Dict Text RepoStatus)
      → Keeps Holds (observe_from w cfg live repos per_repo)
  unfolding observe_from
  observe_from-Keeps cfg live [] per_repo = λ s h. h
  observe_from-Keeps cfg live (repo ∷ repos) per_repo =
      >>=_Keeps Holds (observe_repo w cfg live repo)
        (λ entry. observe_from w cfg live repos (insert repo entry per_repo))
        (observe_repo-Keeps cfg live repo)
        (λ entry. observe_from-Keeps cfg live repos (insert repo entry per_repo))

  generate_jit_config-Keeps : (target : Text) → Keeps Holds (generate_jit_config w target)
  unfolding generate_jit_config
  generate_jit_config-Keeps target s h = ground (arith, grow (Call.generate_jit target) s.trace h)

  start_with-Keeps : (target : Text) (jit : Option Text) → Keeps Holds (start_with w target jit)
  unfolding spawn_runner
  start_with-Keeps target none s h = h
  start_with-Keeps target (some jit) s h = ground (arith, grow (Call.run target jit) s.trace h)

  start_head-Keeps : (targets : List Text) → Keeps Holds (start_head w targets)
  start_head-Keeps [] = λ s h. h
  start_head-Keeps (target ∷ targets) =
      >>=_Keeps Holds (generate_jit_config w target) (start_with w target)
        (generate_jit_config-Keeps target) (start_with-Keeps target)

  if_Keeps :
      (b : Bool) (m n : M (Unit {0}))
      → Keeps Holds m
      → Keeps Holds n
      → Keeps Holds (if b then m else n)
  if_Keeps true m n k l = k
  if_Keeps false m n k l = l

  maybe_spawn-Keeps :
      (cfg : Config) (idle : Dict Text ℕ) (n : ℕ) (queued : Dict Text ℕ)
      → Keeps Holds (maybe_spawn w cfg idle n queued)
  unfolding maybe_spawn
  maybe_spawn-Keeps cfg idle n queued =
      if_Keeps (not (ltbℤ (pos n) cfg.max_concurrent_global)) (pure tt) _ (λ s h. h)
        (start_head-Keeps (sort_by (get_or_0 queued) (filter (is_wanting cfg idle) cfg.repos)))

  pub write_status-Keeps :
      (per_repo : Dict Text RepoStatus) (live orphans : ℕ)
      → Keeps Holds (write_status w per_repo live orphans)
  unfolding write_status
  write_status-Keeps per_repo live orphans s h = ground arith

  listed-Keeps :
      (cfg : Config) (live : List Container) (orphans : ℕ)
      → Keeps Holds (
          observe_from w cfg (count_by_repo [] live) cfg.repos [] >>= λ per_repo.
          maybe_spawn w cfg (idle_of per_repo) (length live) (queued_of per_repo) >>= λ _.
          write_status w per_repo (length live) orphans)
  listed-Keeps cfg live orphans =
      >>=_Keeps Holds (observe_from w cfg (count_by_repo [] live) cfg.repos []) _
        (observe_from-Keeps cfg (count_by_repo [] live) cfg.repos [])
        (λ per_repo.
          >>=_Keeps Holds (maybe_spawn w cfg (idle_of per_repo) (length live) (queued_of per_repo))
            _ (maybe_spawn-Keeps cfg (idle_of per_repo) (length live) (queued_of per_repo))
            (λ _. write_status-Keeps per_repo (length live) orphans))

  tick-Keeps : (cfg : Config) → Keeps Holds (tick w cfg)
  unfolding tick running_job_containers
  tick-Keeps cfg = >>=_Keeps Holds (inspect_runner_image w) _ inspect_runner_image-Keeps (λ _.
      >>=_Keeps Holds (reap_exited_containers w) _ reap_exited_containers-Keeps (λ orphans s h.
        listed-Keeps cfg (rows (splitlines (w.docker s.trace Call.ps_running).stdout)) orphans
          (log Call.ps_running s) (grow Call.ps_running s.trace h)))

  pub pass-Keeps : (cfg : Config) → Keeps Holds (pass w cfg)
  unfolding pass
  pass-Keeps cfg = tick-Keeps cfg
