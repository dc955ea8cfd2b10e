-- ===== src/Runner/Files/Tests.antt =====
-- A write of the status whose heartbeat is cut short.
use pi_homelab.Base.{◌≡◌, refl, [], ◌∷◌, not, eqb, some, text_eq, nat_eq}
use pi_homelab.Base.Text.{Text, codes}
use pi_homelab.Base.Dict.{lookup, insert, erase}
use pi_homelab.Base.Int.{pos}
use pi_homelab.Base.Decimal.{decimal}
use pi_homelab.Base.Json.{Value}
use pi_homelab.Base.Disk.{Files, Faults, start, os_error, write_all}
use pi_homelab.Base.Disk.Whole.{Always}
use pi_homelab.Runner.World.{Status}
use pi_homelab.Runner.Files.{write_files, status_path, heartbeat_path}
use pi_homelab.Runner.Files.Ordered.{IsOrdered, Ends, write_files-Ends}

abbrev status : Status
status = record {
  supervisor_heartbeat_ts = 1000;
  idle_count = 0;
  live_total = 0;
  orphan_containers = 0;
  counters = record {
    jobs_total = 0;
    jobs_failed_total = 0;
    last_job_exit_code = pos 0;
    github_api_auth_failures_total = 0;
    jit_config_failures = [];
    jit_last_success_ts = 0;
    github_api_rate_remaining = pos 0;
  };
  image_build_timestamp = pos 0;
  runner_version = codes "unknown";
  repos = [];
}

abbrev dumps : Value → Text
dumps v = codes "new"

-- The call that writes the heartbeat leaves two digits of it.
abbrev cut : Faults
cut = record { succeeds = λ n. not (eqb n 6); torn = λ n. 2 }

abbrev old_files : Files
old_files =
    (status_path (codes "/g"), codes "old") ∷ (heartbeat_path (codes "/g"), codes "940") ∷ []

cut_heartbeat :
    ((write_files cut dumps (codes "/g") status (start old_files)).0 ≡ os_error)
    × (lookup
          (heartbeat_path (codes "/g"))
          (write_files cut dumps (codes "/g") status (start old_files)).1.files
        ≡ some (codes "10"))
unfolding write_files write_all lookup insert erase text_eq decimal
cut_heartbeat = (refl, refl)

write_files-Ends_example :
    Always
      (IsOrdered dumps (codes "/g") status old_files)
      (write_files cut dumps (codes "/g") status (start old_files)).1.seen
    × Ends dumps
        (codes "/g")
        status
        old_files
        (write_files cut dumps (codes "/g") status (start old_files)).0
        (write_files cut dumps (codes "/g") status (start old_files)).1
write_files-Ends_example = write_files-Ends cut dumps (codes "/g") status old_files
