-- ===== src/Runner/Frame.antt =====
-- What a chain of operations keeps, and what the requests and the docker calls leave as it was.
use pi_homelab.Base.{◌≡◌, ℕ, ◌+◌, Bool, true, ◌&&◌, List, [], ◌∷◌, length, arith}
use pi_homelab.Base.Text.{Text, splitlines}
use pi_homelab.Base.Int.{ℤ, pos, ltbℤ}
use pi_homelab.Runner.World.{
  Call, Completed, World, Config, RunnerInfo, Supervisor, Result, Trace, M, return,
}
use pi_homelab.Runner.World.{raise, and_then, ◌>>=◌, log}
use pi_homelab.Runner.Docker.{Container, rows, exit_code, inspect_all, docker}
use pi_homelab.Runner.Docker.{exited_job_containers}
use pi_homelab.Runner.Github.{list_runners, queued_jobs, delete_runner}
use pi_homelab.Runner.Reap.{reap_runner, reap_from, reap_offline_runners}

abbrev pub Keeps : {A : Type 0} → (Supervisor → Type 0) → M A → Type 0
Keeps P m = (s : Supervisor) → P s → P (m s).1

and_then-Keeps :
    {A B : Type 0} (P : Supervisor → Type 0) (r : Result A) (f : A → M B)
    → ((a : A) → Keeps P (f a))
    → Keeps P (and_then r f)
and_then-Keeps P (return a) f h = h a
and_then-Keeps P (raise e) f h = λ s p. p

-- What holds after the operation, wherever it was left.
abbrev pub Leads : {A : Type 0} → (Supervisor → Type 0) → (Supervisor → Type 0) → M A → Type 0
Leads P Q m = (s : Supervisor) → P s → Q (m s).1

and_then-Leads :
    {A B : Type 0} (P Q : Supervisor → Type 0) (r : Result A) (f : A → M B)
    → ((a : A) → Leads P Q (f a))
    → ((s : Supervisor) → P s → Q s)
    → Leads P Q (and_then r f)
and_then-Leads P Q (return a) f h w = h a
and_then-Leads P Q (raise e) f h w = w

pub >>=_Leads :
    {A B : Type 0} (P Q : Supervisor → Type 0) (m : M A) (f : A → M B)
    → Keeps P m
    → ((a : A) → Leads P Q (f a))
    → ((s : Supervisor) → P s → Q s)
    → Leads P Q (m >>= f)
>>=_Leads P Q m f k h w s p = and_then-Leads P Q (m s).0 f h w (m s).1 (k s p)

pub >>=_Ends :
    {A B : Type 0} (P Q : Supervisor → Type 0) (m : M A) (f : A → M B)
    → Leads P Q m
    → ((a : A) → Keeps Q (f a))
    → Leads P Q (m >>= f)
>>=_Ends P Q m f l h s p = and_then-Keeps Q (m s).0 f h (m s).1 (l s p)

pub >>=_Keeps :
    {A B : Type 0} (P : Supervisor → Type 0) (m : M A) (f : A → M B)
    → Keeps P m
    → ((a : A) → Keeps P (f a))
    → Keeps P (m >>= f)
>>=_Keeps P m f = >>=_Ends P P m f

-- The containers that docker listed last, and the runners started since.
abbrev pub occupied : World → Trace → ℕ
occupied w [] = 0
occupied w (Call.ps_running ∷ t) = length (rows (splitlines (w.docker t Call.ps_running).stdout))
occupied w (Call.run _ _ ∷ t) = occupied w t + 1
occupied w (_ ∷ t) = occupied w t

-- Each runner was started when fewer than the cap were there.
abbrev pub is_capped : World → ℤ → Trace → Bool
is_capped w cap [] = true
is_capped w cap (Call.run _ _ ∷ t) = ltbℤ (pos (occupied w t)) cap && is_capped w cap t
is_capped w cap (_ ∷ t) = is_capped w cap t

-- The state as far as the cap and the counts of jobs go.
abbrev pub Frame : World → ℤ → ℕ → ℕ → ℕ → Supervisor → Type 0
Frame w cap n total failed s =
    (is_capped w cap s.trace ≡ true)
    × (occupied w s.trace ≡ n)
    × (s.counters.jobs_total ≡ total)
    × (s.counters.jobs_failed_total ≡ failed)

module _ (w : World) (cap : ℤ) (n total failed : ℕ) where
  pub list_runners-Keeps : (repo : Text) → Keeps (Frame w cap n total failed) (list_runners w repo)
  unfolding list_runners
  list_runners-Keeps repo s h = ground arith

  pub queued_jobs-Keeps : (repo : Text) → Keeps (Frame w cap n total failed) (queued_jobs w repo)
  unfolding queued_jobs
  queued_jobs-Keeps repo s h = ground arith

  pub delete_runner-Keeps :
      (repo : Text) (id : ℕ) → Keeps (Frame w cap n total failed) (delete_runner w repo id)
  unfolding delete_runner
  delete_runner-Keeps repo id s h = ground arith

  reap_runner-Keeps :
      (cfg : Config) (repo : Text) (now : ℕ) (rn : RunnerInfo)
      → Keeps (Frame w cap n total failed) (reap_runner w cfg repo now rn)
  unfolding reap_runner delete_runner
  reap_runner-Keeps cfg repo now rn s h = ground arith

  reap_from-Keeps :
      (cfg : Config) (repo : Text) (now : ℕ) (runners : List RunnerInfo)
      → Keeps (Frame w cap n total failed) (reap_from w cfg repo now runners)
  unfolding reap_from
  reap_from-Keeps cfg repo now [] = λ s h. h
  reap_from-Keeps cfg repo now (rn ∷ runners) =
      >>=_Keeps (Frame w cap n total failed) (reap_runner w cfg repo now rn)
        (λ _. reap_from w cfg repo now runners) (reap_runner-Keeps cfg repo now rn)
        (λ _. reap_from-Keeps cfg repo now runners)

  pub reap_offline_runners-Keeps :
      (cfg : Config) (repo : Text) (runners : List RunnerInfo)
      → Keeps (Frame w cap n total failed) (reap_offline_runners w cfg repo runners)
  unfolding reap_offline_runners
  reap_offline_runners-Keeps cfg repo runners s = reap_from-Keeps cfg repo (w.now s.trace) runners s

  exit_code-Keeps : (insp : Completed) → Keeps (Frame w cap n total failed) (exit_code w insp)
  unfolding exit_code
  exit_code-Keeps insp s h = ground arith

  inspect-Keeps : (id : Text) → Keeps (Frame w cap n total failed) (docker w (Call.inspect id))
  inspect-Keeps id s h = h

  inspect_all-Keeps : (cs : List Container) → Keeps (Frame w cap n total failed) (inspect_all w cs)
  unfolding inspect_all
  inspect_all-Keeps [] = λ s h. h
  inspect_all-Keeps (c ∷ cs) =
      let P = Frame w cap n total failed in
      >>=_Keeps P (docker w (Call.inspect c.id) >>= exit_code w) _
        (>>=_Keeps P (docker w (Call.inspect c.id)) (exit_code w) (inspect-Keeps c.id)
          exit_code-Keeps)
        (λ code. >>=_Keeps P (inspect_all w cs) _ (inspect_all-Keeps cs) (λ more s h. h))

  pub exited_job_containers-Keeps : Keeps (Frame w cap n total failed) (exited_job_containers w)
  unfolding exited_job_containers
  exited_job_containers-Keeps s =
      inspect_all-Keeps (rows (splitlines (w.docker s.trace Call.ps_exited).stdout))
        (log Call.ps_exited s)
