-- ===== src/Runner/Report.antt =====
-- The status that `write_status` publishes, as a JSON value, and its heartbeat.
use pi_homelab.Base.{ℕ, [], ◌∷◌}
use pi_homelab.Base.Text.{Text, codes}
use pi_homelab.Base.Dict.{Dict}
use pi_homelab.Base.Int.{pos}
use pi_homelab.Base.Decimal.{decimal}
use pi_homelab.Base.Json.{Value, int, str, obj, Fields, field, end}
use pi_homelab.Runner.World.{RepoStatus, Status}

abbrev pub number_value : ℕ → Value
number_value n = int (pos n)

-- `json.dumps` writes the codes as texts.
unfoldable pub failure_fields : Dict ℕ ℕ → Fields
failure_fields [] = end
failure_fields ((code, n) ∷ d) = field (decimal code) (number_value n) (failure_fields d)

unfoldable pub repo_value : RepoStatus → Value
repo_value p = obj (
    field (codes "registered") (number_value p.registered) (
      field (codes "online") (number_value p.online) (
        field (codes "busy") (number_value p.busy) (
          field (codes "offline") (number_value p.offline) (
            field (codes "queued_jobs") (number_value p.queued_jobs)
              (field (codes "idle") (number_value p.idle) end))))))

unfoldable pub repo_fields : Dict Text RepoStatus → Fields
repo_fields [] = end
repo_fields ((repo, p) ∷ d) = field repo (repo_value p) (repo_fields d)

unfoldable pub status_value : Status → Value
status_value st =
    let c = st.counters in
    obj (
      field (codes "supervisor_heartbeat_ts") (number_value st.supervisor_heartbeat_ts) (
        field (codes "idle_count") (number_value st.idle_count) (
          field (codes "live_total") (number_value st.live_total) (
            field (codes "orphan_containers") (number_value st.orphan_containers) (
              field (codes "jobs_total") (number_value c.jobs_total) (
                field (codes "jobs_failed_total") (number_value c.jobs_failed_total) (
                  field (codes "last_job_exit_code") (int c.last_job_exit_code) (
                    field (codes "github_api_auth_failures_total")
                      (number_value c.github_api_auth_failures_total)
                      (field (codes "jit_config_failures")
                        (obj (failure_fields c.jit_config_failures))
                        (field (codes "jit_last_success_ts") (number_value c.jit_last_success_ts) (
                          field (codes "github_api_rate_remaining")
                            (int c.github_api_rate_remaining)
                            (field (codes "image_build_timestamp") (int st.image_build_timestamp) (
                              field (codes "runner_version") (str st.runner_version) (
                                field (codes "repos") (obj (repo_fields st.repos)) end))))))))))))))

-- The text of the heartbeat file.
abbrev pub heartbeat_text : Status → Text
heartbeat_text st = decimal st.supervisor_heartbeat_ts
