-- ===== src/Runner/Reap/Jobs.antt =====
-- What the reaping of exited containers does to the counters and to docker.
use pi_homelab.Base.{◌≡◌, refl, ℕ, ◌+◌, List, [], ◌∷◌, length, filter, arith}
use pi_homelab.Base.Int.{ℤ}
use pi_homelab.Runner.World.{Call, World, Supervisor, Trace, return, log}
use pi_homelab.Runner.Docker.{Exited, exited_job_containers}
use pi_homelab.Runner.Reap.{is_failure, finish, reap_each, reap_exited_containers}

-- The containers are removed in their order.
abbrev pub removals : List Exited → Trace → Trace
removals [] t = t
removals (c ∷ cs) t = removals cs (Call.rm c.container.id ∷ t)

abbrev pub failures : List Exited → ℕ
failures cs = length (filter (λ c. is_failure c.exit_code) cs)

abbrev pub last_code : ℤ → List Exited → ℤ
last_code code [] = code
last_code code (c ∷ cs) = last_code c.exit_code cs

-- Every job is counted, the failed ones as such, and the last exit code is kept.
abbrev pub Reaped : List Exited → Supervisor → Supervisor → Type 0
Reaped cs s s' =
    (s'.trace ≡ removals cs s.trace)
    × (s'.counters.jobs_total ≡ s.counters.jobs_total + length cs)
    × (s'.counters.jobs_failed_total ≡ s.counters.jobs_failed_total + failures cs)
    × (s'.counters.last_job_exit_code ≡ last_code s.counters.last_job_exit_code cs)

module _ (w : World) where
  pub reap_each-returns : (cs : List Exited) (s : Supervisor) → (reap_each w cs s).0 ≡ return tt
  unfolding reap_each
  reap_each-returns [] s = refl
  reap_each-returns (c ∷ cs) s = reap_each-returns cs _

  pub reap_each-Reaped : (cs : List Exited) (s : Supervisor) → Reaped cs s (reap_each w cs s).1
  unfolding reap_each
  reap_each-Reaped [] s = ground arith
  reap_each-Reaped (c ∷ cs) s =
      let s' =
        log (Call.rm c.container.id) (record s { counters = finish c.exit_code s.counters }) in
      ground (arith, reap_each-Reaped cs s')

  -- If docker's listing of the exited containers can be read, each of them is removed in the order of
  -- the listing and counted as a job, those with another exit code than 0 also as failed; the last
  -- exit code is kept and the number of containers returned.
  pub reap_exited_containers-Reaped :
      (cs : List Exited) (s s' : Supervisor)
      → exited_job_containers w s ≡ (return cs, s')
      → ((reap_exited_containers w s).0 ≡ return (length cs))
        × Reaped cs s' (reap_exited_containers w s).1
  unfolding reap_exited_containers
  reap_exited_containers-Reaped cs s s' h =
      rw h (rw (reap_each-returns cs s') (refl, reap_each-Reaped cs s'))
