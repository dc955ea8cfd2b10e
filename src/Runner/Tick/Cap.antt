-- ===== src/Runner/Tick/Cap.antt =====
-- The cap on the runners and the counts of jobs, over any number of passes of the loop.
use pi_homelab.Base.{
  text_eq, Bool-cases, ◌≡◌, refl, inl, inr, ℕ, ◌≤◌, true, List, [], ◌∷◌, length, filter, arith,
}
use pi_homelab.Base.Text.{Text, splitlines}
use pi_homelab.Base.Dict.{Dict, insert}
use pi_homelab.Base.Int.{ℤ, pos, ltbℤ}
use pi_homelab.Runner.World.{Call, Config, RepoStatus, World, Supervisor, Trace, M}
use pi_homelab.Runner.World.{◌>>=◌, log}
use pi_homelab.Runner.Docker.{
  Container, Exited, rows, running_job_containers, exited_job_containers,
}
use pi_homelab.Runner.Docker.{spawn_runner}
use pi_homelab.Runner.Github.{generate_jit_config, list_runners, queued_jobs}
use pi_homelab.Runner.Reap.{reap_exited_containers, reap_each, reap_offline_runners}
use pi_homelab.Runner.Reap.Jobs.{removals, reap_each-Reaped, failures}
use pi_homelab.Runner.Spawn.{get_or_0, is_wanting, sort_by, start_head, maybe_spawn}
use pi_homelab.Runner.Spawn.Choice.{maybe_spawn-Decision, in_room, at_cap, attempt}
use pi_homelab.Runner.Frame.{
  Keeps, Leads, >>=_Leads, >>=_Ends, >>=_Keeps, is_capped, occupied, Frame, list_runners-Keeps,
}
use pi_homelab.Runner.Frame.{queued_jobs-Keeps, reap_offline_runners-Keeps}
use pi_homelab.Runner.Frame.{exited_job_containers-Keeps}
use pi_homelab.Runner.Tick.{inspect_runner_image, read_provenance, observe_repo, observe_from}
use pi_homelab.Runner.Tick.{write_status, tick, pass, idle_of, queued_of, count_by_repo}

-- No more jobs failed than ended, and each runner was started below the cap.
abbrev pub IsSound : World → Config → Supervisor → Type 0
IsSound w cfg s =
    (is_capped w cfg.max_concurrent_global s.trace ≡ true)
    × (s.counters.jobs_failed_total ≤ s.counters.jobs_total)

-- The same, where docker has listed this many containers.
abbrev Counted : World → Config → ℕ → Supervisor → Type 0
Counted w cfg n s = (occupied w s.trace ≡ n) × IsSound w cfg s

failures_le : (cs : List Exited) → failures cs ≤ length cs
failures_le [] = ground arith
failures_le (c ∷ cs) = ground (arith, failures_le cs)

is_capped-removals :
    (w : World) (cap : ℤ) (cs : List Exited) (t : Trace)
    → is_capped w cap (removals cs t) ≡ is_capped w cap t
is_capped-removals w cap [] t = refl
is_capped-removals w cap (c ∷ cs) t = is_capped-removals w cap cs (Call.rm c.container.id ∷ t)

module _ (w : World) (cfg : Config) where
  -- An operation that keeps the frame keeps both.
  of_Frame :
      {A : Type 0} (m : M A) (n : ℕ)
      → ((total failed : ℕ) → Keeps (Frame w cfg.max_concurrent_global n total failed) m)
      → Keeps (Counted w cfg n) m
  of_Frame m n k s (o, (c, le)) =
      let (c', o', t, f) =
        k s.counters.jobs_total s.counters.jobs_failed_total s (c, o, refl, refl) in
      (o', (c', rw (t, f) le))

  inspect_runner_image-Keeps : Keeps (IsSound w cfg) (inspect_runner_image w)
  unfolding inspect_runner_image read_provenance
  inspect_runner_image-Keeps s h = ground arith

  exited-Keeps : Keeps (IsSound w cfg) (exited_job_containers w)
  exited-Keeps s (c, le) =
      let n = occupied w s.trace in
      let (o, r) =
        of_Frame (exited_job_containers w) n (exited_job_containers-Keeps w _ n) s
          (refl, (c, le)) in
      r

  reap_each-Keeps : (cs : List Exited) → Keeps (IsSound w cfg) (reap_each w cs)
  reap_each-Keeps cs s (c, le) =
      let (t, n, f, code) = reap_each-Reaped w cs s in
      (
        rw (t, is_capped-removals w cfg.max_concurrent_global cs s.trace) c,
        ground (arith, failures_le cs),
      )

  reap_exited_containers-Keeps : Keeps (IsSound w cfg) (reap_exited_containers w)
  unfolding reap_exited_containers
  reap_exited_containers-Keeps =
      >>=_Keeps (IsSound w cfg) (exited_job_containers w) _ exited-Keeps
        (λ cs. >>=_Keeps (IsSound w cfg) (reap_each w cs) _ (reap_each-Keeps cs) (λ _ s h. h))

  observe_repo-Keeps :
      (n : ℕ) (live : Dict Text ℕ) (repo : Text)
      → Keeps (Counted w cfg n) (observe_repo w cfg live repo)
  unfolding observe_repo
  observe_repo-Keeps n live repo =
      let cap = cfg.max_concurrent_global in
      >>=_Keeps (Counted w cfg n) (list_runners w repo) _
        (of_Frame (list_runners w repo) n (λ t f. list_runners-Keeps w cap n t f repo))
        (λ runners.
          >>=_Keeps (Counted w cfg n) (reap_offline_runners w cfg repo runners) _
            (of_Frame (reap_offline_runners w cfg repo runners) n
              (λ t f. reap_offline_runners-Keeps w cap n t f cfg repo runners))
            (λ _.
              >>=_Keeps (Counted w cfg n) (queued_jobs w repo) _
                (of_Frame (queued_jobs w repo) n (λ t f. queued_jobs-Keeps w cap n t f repo))
                (λ q s h. h)))

  observe_from-Keeps :
      (n : ℕ) (live : Dict Text ℕ) (repos : List Text) (per_repo : Dict Text RepoStatus)
      → Keeps (Counted w cfg n) (observe_from w cfg live repos per_repo)
  unfolding observe_from
  observe_from-Keeps n live [] per_repo = λ s h. h
  observe_from-Keeps n live (repo ∷ repos) per_repo =
      >>=_Keeps (Counted w cfg n) (observe_repo w cfg live repo)
        (λ entry. observe_from w cfg live repos (insert repo entry per_repo))
        (observe_repo-Keeps n live repo)
        (λ entry. observe_from-Keeps n live repos (insert repo entry per_repo))

  start_head-jobs :
      (targets : List Text) (s : Supervisor)
      → let s' = (start_head w targets s).1 in
        (s'.counters.jobs_total ≡ s.counters.jobs_total)
        × (s'.counters.jobs_failed_total ≡ s.counters.jobs_failed_total)
  unfolding generate_jit_config spawn_runner
  start_head-jobs [] s = (refl, refl)
  start_head-jobs (t ∷ ts) s = ground arith

  maybe_spawn-jobs :
      (idle : Dict Text ℕ) (n : ℕ) (queued : Dict Text ℕ) (s : Supervisor)
      → let s' = (maybe_spawn w cfg idle n queued s).1 in
        (s'.counters.jobs_total ≡ s.counters.jobs_total)
        × (s'.counters.jobs_failed_total ≡ s.counters.jobs_failed_total)
  maybe_spawn-jobs idle n queued s = elim (Bool-cases (ltbℤ (pos n) cfg.max_concurrent_global)) [
    | inl h ↦
        rw (in_room w cfg idle n queued s h)
          (start_head-jobs (sort_by (get_or_0 queued) (filter (is_wanting cfg idle) cfg.repos)) s)
    | inr h ↦ rw (at_cap w cfg idle n queued s h) (refl, refl)
  ]

  is_capped-attempt :
      (target : Text) (n : ℕ) (t : Trace)
      → occupied w t ≡ n
      → ltbℤ (pos n) cfg.max_concurrent_global ≡ true
      → is_capped w cfg.max_concurrent_global t ≡ true
      → is_capped w cfg.max_concurrent_global (attempt w target t) ≡ true
  is_capped-attempt target n t o room c = ground arith

  maybe_spawn-capped :
      (idle : Dict Text ℕ) (n : ℕ) (queued : Dict Text ℕ) (s : Supervisor)
      → Counted w cfg n s
      → IsSound w cfg (maybe_spawn w cfg idle n queued s).1
  maybe_spawn-capped idle n queued s (o, (c, le)) =
      let (t, f) = maybe_spawn-jobs idle n queued s in
      (
        elim (maybe_spawn-Decision w cfg idle n queued s) [
          | inl (_, e) ↦ rw e c
          | inr (target, (room, _, _, _), e) ↦ rw e (is_capped-attempt target n s.trace o room c)
        ],
        rw (t, f) le,
      )

  write_status-Keeps :
      (per_repo : Dict Text RepoStatus) (live orphans : ℕ)
      → Keeps (IsSound w cfg) (write_status w per_repo live orphans)
  unfolding write_status
  write_status-Keeps per_repo live orphans s h = ground arith

  -- From the listing of the containers on.
  listed_Leads :
      (live : List Container) (orphans : ℕ)
      → Leads (Counted w cfg (length live)) (IsSound w cfg) (
          observe_from w cfg (count_by_repo [] live) cfg.repos [] >>= λ per_repo.
          maybe_spawn w cfg (idle_of per_repo) (length live) (queued_of per_repo) >>= λ _.
          write_status w per_repo (length live) orphans)
  listed_Leads live orphans =
      let n = length live in
      >>=_Leads (Counted w cfg n) (IsSound w cfg)
        (observe_from w cfg (count_by_repo [] live) cfg.repos []) _
        (observe_from-Keeps n (count_by_repo [] live) cfg.repos [])
        (λ per_repo.
          >>=_Ends (Counted w cfg n) (IsSound w cfg)
            (maybe_spawn w cfg (idle_of per_repo) n (queued_of per_repo))
            (λ _. write_status w per_repo n orphans)
            (maybe_spawn-capped (idle_of per_repo) n (queued_of per_repo))
            (λ _. write_status-Keeps per_repo n orphans))
        (λ s (o, h). h)

  tick-Keeps : Keeps (IsSound w cfg) (tick w cfg)
  unfolding tick running_job_containers
  tick-Keeps = >>=_Keeps (IsSound w cfg) (inspect_runner_image w) _ inspect_runner_image-Keeps (λ _.
      >>=_Keeps (IsSound w cfg) (reap_exited_containers w) _ reap_exited_containers-Keeps
        (λ orphans s h.
          listed_Leads (rows (splitlines (w.docker s.trace Call.ps_running).stdout)) orphans
            (log Call.ps_running s) (refl, h)))

-- The states after passes of the loop from a state, whatever each pass ends in.
pub data Reaches (w : World) (cfg : Config) (start : Supervisor) : Supervisor → Type 0 where
  here : Reaches w cfg start start
  more : (s : Supervisor) → Reaches w cfg start s → Reaches w cfg start (pass w cfg s).1

-- From a state in which no more jobs are counted as failed than as ended and nothing was started
-- beyond the cap, every number of passes of the loop, also those that an exception ends, leads to such
-- a state: each runner was started when the containers that docker had listed last and those started
-- since were fewer than the cap.
pub Reaches-IsSound :
    (w : World) (cfg : Config) (start s : Supervisor)
    → IsSound w cfg start
    → Reaches w cfg start s
    → IsSound w cfg s
unfolding pass
Reaches-IsSound w cfg start _ h here = h
Reaches-IsSound w cfg start _ h (more s r) = tick-Keeps w cfg s (Reaches-IsSound w cfg start s h r)
