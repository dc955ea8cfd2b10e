-- ===== src/RunnerMetrics/Expected.antt =====
-- The lines that a status is expected to give, from its fields.
use pi_homelab.Base.{ℕ}
use pi_homelab.Base.{List, [], ◌∷◌, ◌++◌, text_eq}
use pi_homelab.Base.Text.{Text, codes}
use pi_homelab.Base.Dict.{Dict}
use pi_homelab.Base.Int.{ℤ, pos}
use pi_homelab.Base.Decimal.{decimal}
use pi_homelab.Base.Metrics.{Sample, gauge, counter, family, single, label, unquoted}
use pi_homelab.Runner.World.{RepoStatus, Status}
use pi_homelab.RunnerMetrics.Series.{Series, status_series, rebuild_series, repo_series}
use pi_homelab.RunnerMetrics.Render.{or_none}

-- The numbers of a status in the order of their metrics.
abbrev pub counts_of : Status → List ℤ
counts_of st =
    let c = st.counters in
    pos st.idle_count
    ∷ pos st.orphan_containers
    ∷ c.last_job_exit_code
    ∷ pos c.jobs_total
    ∷ pos c.jobs_failed_total
    ∷ pos c.github_api_auth_failures_total
    ∷ pos c.jit_last_success_ts
    ∷ c.github_api_rate_remaining
    ∷ st.image_build_timestamp
    ∷ []

abbrev pub numbered : List Series → List ℤ → List Text
numbered (s ∷ ss) (n ∷ ns) = single s.kind s.name s.help [] n ++ numbered ss ns
numbered _ _ = []

-- One sample for each entry.
abbrev pub entry_samples {ℓ κ} :
    {K : Type ℓ} {V : Type κ} → Text → (K → Text) → (V → ℕ) → Dict K V → List Sample
entry_samples key text number [] = []
entry_samples key text number ((k, v) ∷ d) =
    (label key (unquoted (text k)), decimal (number v)) ∷ entry_samples key text number d

abbrev pub failure_lines : Dict ℕ ℕ → List Text
failure_lines d =
    family counter (codes "gh_runner_jit_config_failures_total")
      (codes "JIT config mint failures by HTTP status.")
      (or_none (codes "status") (entry_samples (codes "status") decimal (λ n. n) d))

abbrev pub repo_family : Dict Text RepoStatus → Series → (RepoStatus → ℕ) → List Text
repo_family d s number =
    family s.kind s.name s.help
      (or_none (codes "repo") (entry_samples (codes "repo") (λ r. r) number d))

abbrev pub repo_numbers : List (RepoStatus → ℕ)
repo_numbers =
    (λ p. p.registered)
    ∷ (λ p. p.online)
    ∷ (λ p. p.busy)
    ∷ (λ p. p.offline)
    ∷ (λ p. p.queued_jobs)
    ∷ []

abbrev pub repo_families : Dict Text RepoStatus → List Series → List (RepoStatus → ℕ) → List Text
repo_families d (s ∷ ss) (number ∷ numbers) = repo_family d s number ++ repo_families d ss numbers
repo_families d _ _ = []

-- What follows the lines of the heartbeat, where no rebuild report is given.
unfoldable pub status_lines : Status → List Text
status_lines st =
    numbered status_series (counts_of st)
    ++ (single gauge (codes "gh_runner_version_info")
          (codes "Constant 1; labels the pinned runner version.")
          (label (codes "version") (unquoted st.runner_version)) (pos 1)
        ++ (numbered rebuild_series (pos 0 ∷ pos 0 ∷ pos 0 ∷ [])
            ++ (failure_lines st.counters.jit_config_failures
                ++ repo_families st.repos repo_series repo_numbers)))
