-- ===== src/RunnerMetrics/Tests.antt =====
-- The metrics at concrete files.
use pi_homelab.Base.{true}
use pi_homelab.Base.Disk.{Faults, Files, start, write_all}
use pi_homelab.Runner.Files.{write_files, status_path}
use pi_homelab.RunnerMetrics.Shared.{rendered, render-write_files}
use pi_homelab.Base.{◌≡◌, refl, none, some, [], ◌∷◌, ◌++◌, ◌==◌, if◌then◌else◌}
use pi_homelab.Base.{arith, text_eq}
use pi_homelab.Base.Text.{Text, codes}
use pi_homelab.Base.Dict.{lookup}
use pi_homelab.Base.Int.{pos, negsuc, ltbℤ, ◌-ℤ◌}
use pi_homelab.Base.Decimal.{decimal}
use pi_homelab.Base.Unlines.{unlines}
use pi_homelab.Base.Json.{
  Loaded, loaded, no_json, Value, null, float, infinite, str, obj, field, end, object_of,
}
use pi_homelab.Base.Result.{ok, raise, overflow_error, unreadable, contents}
use pi_homelab.Runner.World.{Status}
use pi_homelab.Runner.Report.{status_value}
use pi_homelab.RunnerMetrics.Render.{head_lines, render}
use pi_homelab.RunnerMetrics.Numbers.{Succeeds}
use pi_homelab.RunnerMetrics.Totality.{render-Succeeds}
use pi_homelab.RunnerMetrics.Overflow.{render_overflow}
use pi_homelab.RunnerMetrics.Expected.{status_lines}

abbrev published : Status
published = record {
  supervisor_heartbeat_ts = 1000;
  idle_count = 1;
  live_total = 1;
  orphan_containers = 0;
  counters = record {
    jobs_total = 3;
    jobs_failed_total = 1;
    last_job_exit_code = negsuc 0;
    github_api_auth_failures_total = 0;
    jit_config_failures = (403, 2) ∷ [];
    jit_last_success_ts = 990;
    github_api_rate_remaining = pos 50;
  };
  image_build_timestamp = pos 900;
  runner_version = codes "2.330.0";
  repos =
      (
        codes "homelab",
        record { registered = 2; online = 1; busy = 0; offline = 1; queued_jobs = 0; idle = 1 },
      )
      ∷ [];
}

-- A status, a report with 1e999, and text of another shape.
abbrev loads : Text → Loaded
loads text =
    if text == codes "S"
    then loaded (status_value published)
    else if text == codes "I"
    then loaded (obj (field (codes "jobs_total") (float infinite) end))
    else if text == codes "G"
    then loaded (
        obj (
          field (codes "jobs_total") (str (codes "many"))
            (field (codes "repos") (obj (field (codes "homelab") null end)) end)))
    else no_json

abbrev shown : Value → Text
shown v = codes "?"

-- The two files are written over older ones.
abbrev dumps : Value → Text
dumps v = codes "S"

abbrev sure : Faults
sure = record { succeeds = λ n. true; torn = λ n. 0 }

abbrev older : Files
older = (status_path (codes "/g"), codes "old") ∷ []

render-write_files_example :
    rendered loads shown dumps
      (codes "/g")
      published
      (write_files sure dumps (codes "/g") published (start older)).1.files
      (pos 300)
      (pos 1200)
    ≡ ok (
        unlines (
          head_lines (pos 1200) (pos 1000) (ltbℤ (pos 300) (pos 1200 -ℤ pos 1000))
          ++ status_lines published))
unfolding text_eq decimal write_files write_all
render-write_files_example =
    render-write_files loads shown dumps (codes "/g") published sure older (pos 300) (pos 1200) refl
      (ground arith) (ground arith) refl

render-Succeeds_example : Succeeds (
    render loads shown
      (contents (codes "G"))
      unreadable
      (pos 300)
      (pos 1200)
      (some (contents (codes "no JSON"))))
unfolding text_eq object_of lookup
render-Succeeds_example =
    render-Succeeds loads shown (contents (codes "G")) unreadable (pos 300) (pos 1200)
      (some (contents (codes "no JSON"))) refl refl refl refl refl

render_overflow_example :
    render loads shown (contents (codes "I")) unreadable (pos 300) (pos 1200) none
    ≡ raise overflow_error
unfolding text_eq object_of lookup
render_overflow_example =
    render_overflow loads shown (contents (codes "I")) unreadable (pos 300) (pos 1200) none refl
      refl refl
