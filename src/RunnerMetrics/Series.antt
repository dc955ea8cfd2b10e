-- ===== src/RunnerMetrics/Series.antt =====
-- The metrics that `render` reads from one number each, as tables in their order.
use pi_homelab.Base.{List, [], ◌∷◌}
use pi_homelab.Base.Text.{Text, codes}
use pi_homelab.Base.Metrics.{Kind, gauge, counter}

-- A metric of one number of a report.
pub record Series : Type 0 where
  pub kind : Kind
  pub name : Text
  pub help : Text
  pub key : Text

abbrev pub status_series : List Series
status_series =
    record {
      kind = gauge;
      name = codes "gh_runner_idle_count";
      help = codes "Idle ephemeral runner containers the supervisor believes are up.";
      key = codes "idle_count";
    }
    ∷ record {
      kind = gauge;
      name = codes "gh_runner_orphan_containers";
      help = codes "Exited job containers awaiting cleanup.";
      key = codes "orphan_containers";
    }
    ∷ record {
      kind = gauge;
      name = codes "gh_runner_last_job_exit_code";
      help = codes "Exit code of the most recent job container.";
      key = codes "last_job_exit_code";
    }
    ∷ record {
      kind = counter;
      name = codes "gh_runner_jobs_total";
      help = codes "Jobs completed since supervisor start.";
      key = codes "jobs_total";
    }
    ∷ record {
      kind = counter;
      name = codes "gh_runner_jobs_failed_total";
      help = codes "Jobs that exited non-zero since supervisor start.";
      key = codes "jobs_failed_total";
    }
    ∷ record {
      kind = counter;
      name = codes "gh_runner_github_api_auth_failures_total";
      help = codes "GitHub API 401/403 responses (PAT problem).";
      key = codes "github_api_auth_failures_total";
    }
    ∷ record {
      kind = gauge;
      name = codes "gh_runner_jit_last_success_timestamp_seconds";
      help = codes "Unix ts of the last successful JIT mint.";
      key = codes "jit_last_success_ts";
    }
    ∷ record {
      kind = gauge;
      name = codes "gh_runner_github_api_rate_remaining";
      help = codes "GitHub REST rate-limit headroom.";
      key = codes "github_api_rate_remaining";
    }
    ∷ record {
      kind = gauge;
      name = codes "gh_runner_image_build_timestamp_seconds";
      help = codes "When the runner image was built (age -> staleness).";
      key = codes "image_build_timestamp";
    }
    ∷ []

abbrev pub rebuild_series : List Series
rebuild_series =
    record {
      kind = gauge;
      name = codes "gh_runner_rebuild_last_attempt_timestamp_seconds";
      help = codes "Unix ts of the last runner-image rebuild attempt (0 if never).";
      key = codes "last_attempt_ts";
    }
    ∷ record {
      kind = gauge;
      name = codes "gh_runner_rebuild_last_success_timestamp_seconds";
      help = codes "Unix ts of the last SUCCESSFUL runner-image rebuild (0 if never).";
      key = codes "last_success_ts";
    }
    ∷ record {
      kind = gauge;
      name = codes "gh_runner_rebuild_last_exit_code";
      help = codes "Exit code of the last rebuild attempt (non-zero => failed push/build).";
      key = codes "last_exit_code";
    }
    ∷ []

-- The metrics of the repositories; the kind is gauge.
abbrev pub repo_series : List Series
repo_series =
    record {
      kind = gauge;
      name = codes "gh_runner_registered_count";
      help = codes "Runners GitHub lists for the repo.";
      key = codes "registered";
    }
    ∷ record {
      kind = gauge;
      name = codes "gh_runner_online_count";
      help = codes "Online runners for the repo.";
      key = codes "online";
    }
    ∷ record {
      kind = gauge;
      name = codes "gh_runner_busy_count";
      help = codes "Busy runners (running a job) for the repo.";
      key = codes "busy";
    }
    ∷ record {
      kind = gauge;
      name = codes "gh_runner_offline_count";
      help = codes "Offline runners (orphans pending reap) for the repo.";
      key = codes "offline";
    }
    ∷ record {
      kind = gauge;
      name = codes "gh_runner_queued_jobs";
      help = codes "Queued homelab-build jobs awaiting a runner.";
      key = codes "queued_jobs";
    }
    ∷ []
